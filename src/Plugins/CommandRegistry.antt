-- ===== src/Plugins/CommandRegistry.antt =====
-- packages/wazeko/src/plugins/command-loader.ts. `toLowerCase`, `path.resolve` and the matching of a
-- regular expression are arguments, and so is what an import of a file yields. Events that are
-- emitted are a log.
pub mod Lookup
pub mod Dispatch
pub mod Refusal
use wazeko.Prelude.{
  ℕ, ◌+◌, ◌-◌, Bool, true, false, not, ltb, leb, ◌%◌, Option, none, some, List, [], ◌∷◌, ◌++◌,
  if◌then◌else◌, length, drop, map,
}
use wazeko.Text.{Text, codes, text_eq, starts_with}
use wazeko.Text.Split.{trim, split_spaces, is_empty}
use wazeko.Map.{Map, text_key}
use wazeko.Map as Maps
use wazeko.Queue.RateLimiter.{or_else}
use wazeko.Types.Jid.{Jid}
use wazeko.Types.Message.{
  Message, MessageContent, text, image, video, audio, document, react, reply,
}
use wazeko.Plugins.Middleware.{
  Settled, fulfilled, rejected, Program, CommandDefinition, CommandContext, MiddlewareFn, Execution,
  create_admin_guard, execute,
}
use wazeko.Plugins.Middleware.Cooldown.{Clock, create_cooldown_guard, create_execution_logger}

-- A prefix as a text, or as a regular expression, which gives what it matches first.
pub data Prefix : Type 0 where
  literal : Text → Prefix
  pattern : (Text → Option Text) → Prefix

-- A command with the function that runs it.
pub record Command (W : Type 0) : Type 0 where
  pub definition : CommandDefinition
  pub execute : CommandContext → Program W

pub data RegistryEvent (W : Type 0) : Type 0 where
  registered : Command W → RegistryEvent W
  unregistered : Text → RegistryEvent W
  module_loaded : Text → ℕ → RegistryEvent W

pub record CommandRegistry (W : Type 0) : Type 0 where
  pub commands : Map Text (Command W)
  pub aliases : Map Text Text
  pub file_map : Map Text (List Text)
  pub pipeline : List (MiddlewareFn W)
  pub prefix : Prefix
  pub owner_jids : List Text
  pub emitted : List (RegistryEvent W)

abbrev caption_text : Option Text → Text
caption_text (some t) = t
caption_text none = []

unfoldable pub extract_message_text : MessageContent → Text
extract_message_text (text t) = t
extract_message_text (image source mimetype caption) = caption_text caption
extract_message_text (video source mimetype caption) = caption_text caption
extract_message_text (audio source mimetype ptt) = []
extract_message_text (document source mimetype file_name) = []
extract_message_text (react target_id t) = []
extract_message_text (reply quoted_id quoted_text t) = t

abbrev pub listed : Option (List Text) → List Text
listed none = []
listed (some names) = names

-- What an import of a file yields: each export, which is an array or one value.
pub data ExportedItem (W : Type 0) : Type 0 where
  a_command : Command W → ExportedItem W
  something_else : ExportedItem W

pub data Exported (W : Type 0) : Type 0 where
  array : List (ExportedItem W) → Exported W
  item : ExportedItem W → Exported W

-- The default pipeline of the constructor: `on_log` is the listener's part of the logger.
unfoldable pub create :
    {W : Type 0}
    → Clock W
    → (ℕ → Text)
    → (Text → W → W)
    → (CommandContext → ℕ → Option Text → W → W)
    → Option Prefix
    → Option (List Text)
    → CommandRegistry W
unfolding create_execution_logger create_admin_guard create_cooldown_guard
create clock to_fixed reply_with on_log prefix owner_jids = record {
  commands = [];
  aliases = [];
  file_map = [];
  pipeline =
      create_execution_logger clock.now on_log
      ∷ create_admin_guard reply_with
      ∷ create_cooldown_guard clock to_fixed reply_with
      ∷ [];
  prefix = or_else prefix (literal (codes "!"));
  owner_jids = or_else owner_jids [];
  emitted = [];
}

module _ (to_lower_case : Text → Text) (resolve : Text → Text) where
  unfoldable pub set_aliases : List Text → Text → Map Text Text → Map Text Text
  unfolding Maps.set
  set_aliases [] name aliases = aliases
  set_aliases (a ∷ as') name aliases =
      set_aliases as' name (Maps.set (to_lower_case a) name aliases)

  abbrev pub add_file : Option Text → Text → Map Text (List Text) → Map Text (List Text)
  add_file none name files = files
  add_file (some path) name files =
      Maps.set (resolve path) (or_else (Maps.get (resolve path) files) [] ++ name ∷ []) files

  unfoldable pub delete_aliases : List Text → Map Text Text → Map Text Text
  unfolding Maps.delete
  delete_aliases [] aliases = aliases
  delete_aliases (a ∷ as') aliases = delete_aliases as' (Maps.delete (to_lower_case a) aliases)

  unfoldable pub without : Text → List Text → List Text
  without lower [] = []
  without lower (n ∷ ns) = let rest = without lower ns in if text_eq n lower then rest else n ∷ rest

  abbrev pub shorten :
      Option (List Text) → Text → Text → Map Text (List Text) → Map Text (List Text)
  shorten none path lower files = files
  shorten (some names) path lower files = Maps.set path (without lower names) files

  abbrev pub drop_file : Option Text → Text → Map Text (List Text) → Map Text (List Text)
  drop_file none lower files = files
  drop_file (some path) lower files =
      shorten (Maps.get (resolve path) files) (resolve path) lower files

  module _ {W : Type 0} where
    unfoldable pub register : Command W → CommandRegistry W → CommandRegistry W
    unfolding set_aliases Maps.set Maps.get
    register command r =
        let name = to_lower_case command.definition.name in
        record r {
          commands = Maps.set name command r.commands;
          aliases = set_aliases (listed command.definition.aliases) name r.aliases;
          file_map = add_file command.definition.file_path name r.file_map;
          emitted = r.emitted ++ registered command ∷ [];
        }

    abbrev pub unregister_found :
        Option (Command W) → Text → CommandRegistry W → Bool × CommandRegistry W
    unregister_found none lower r = (false, r)
    unregister_found (some command) lower r = (
      true,
      record r {
        commands = Maps.delete lower r.commands;
        aliases = delete_aliases (listed command.definition.aliases) r.aliases;
        file_map = drop_file command.definition.file_path lower r.file_map;
        emitted = r.emitted ++ unregistered lower ∷ [];
      },
    )

    unfoldable pub unregister : Text → CommandRegistry W → Bool × CommandRegistry W
    unfolding delete_aliases without Maps.get Maps.set Maps.delete
    unregister name r =
        unregister_found (Maps.get (to_lower_case name) r.commands) (to_lower_case name) r

    abbrev pub resolved : Option Text → CommandRegistry W → Option (Command W)
    resolved (some (c ∷ cs)) r = Maps.get (c ∷ cs) r.commands
    resolved (some []) r = none
    resolved none r = none

    abbrev pub found_or : Option (Command W) → Option (Command W) → Option (Command W)
    found_or (some command) other = some command
    found_or none other = other

    unfoldable pub get_command : Text → CommandRegistry W → Option (Command W)
    unfolding Maps.get
    get_command query r =
        found_or (Maps.get (to_lower_case query) r.commands)
          (resolved (Maps.get (to_lower_case query) r.aliases) r)

unfoldable pub list_commands : {W : Type 0} → CommandRegistry W → List (Command W)
list_commands {W} r = map (λ (e : Text × Command W). e.1) r.commands
