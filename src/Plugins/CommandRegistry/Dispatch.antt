-- ===== src/Plugins/CommandRegistry/Dispatch.antt =====
-- packages/wazeko/src/plugins/command-loader.ts: loading a file of commands, and running the command
-- of a message.
use wazeko.Prelude.{
  ◌%◌, ℕ, suc, zero, ◌+◌, ◌-◌, ◌%◌, Bool, true, false, ltb, Option, none, some, List, [], ◌∷◌, ◌++◌,
  if◌then◌else◌, length,
}
use wazeko.Text.{Text, text_eq, starts_with}
use wazeko.Text.Split.{trim, split_spaces, is_empty}
use wazeko.Map.{text_key}
use wazeko.Map as Maps
use wazeko.Queue.RateLimiter.{or_else}
use wazeko.Types.Message.{Message}
use wazeko.Plugins.Middleware.{Settled, CommandContext, Execution, execute}
use wazeko.Plugins.CommandRegistry.{
  Prefix, literal, pattern, Command, module_loaded, CommandRegistry, extract_message_text,
  ExportedItem, a_command, something_else, Exported, array, item, register, unregister, get_command,
}

-- `text.slice(text2.length)` counts in units of UTF-16. What a cut in the middle of a character
-- leaves of it is the second unit.
abbrev pub units : Text → ℕ
units [] = 0
units (c ∷ s) = (if ltb c 0x10000 then 1 else 2) + units s

abbrev pub slice : ℕ → Text → Text
slice zero s = s
slice (suc n) [] = []
slice (suc zero) (c ∷ s) = if ltb c 0x10000 then s else (0xdc00 + (c - 0x10000) % 0x400) ∷ s
slice (suc (suc n)) (c ∷ s) =
    let one = slice (suc n) s in let two = slice n s in if ltb c 0x10000 then one else two

-- The text behind the prefix, where there is one.
abbrev pub sliced : Option Text → Text → Option Text
sliced (some match) text = some (slice (units match) text)
sliced none text = none

unfoldable pub strip_prefix : Prefix → Text → Option Text
unfolding starts_with
strip_prefix (literal prefix) text =
    if starts_with prefix text then some (slice (units prefix) text) else none
strip_prefix (pattern match) text = sliced (match text) text

abbrev pub has : Text → List Text → Bool
has user [] = false
has user (u ∷ us) = let rest = has user us in if text_eq u user then true else rest

-- What `handleMessage` ends with: it returns false, or the pipeline ran and it returns true or
-- throws.
pub data Handled (W : Type 0) : Type 0 where
  ignored : Handled W
  ran : Settled → Execution W → Handled W

module _ (to_lower_case : Text → Text) (resolve : Text → Text) {W : Type 0} where
  unfoldable pub unregister_all : List Text → CommandRegistry W → CommandRegistry W
  unfolding unregister
  unregister_all [] r = r
  unregister_all (name ∷ names) r = unregister_all names (unregister to_lower_case resolve name r).1

  -- An item with a function and a name is a command: it gets the path, is registered and counted.
  unfoldable pub load_item :
      Text
      → ExportedItem W
      → List (Command W) × CommandRegistry W
      → List (Command W) × CommandRegistry W
  unfolding register
  load_item path something_else (loaded, r) = (loaded, r)
  load_item path (a_command c) (loaded, r) =
      let command = record c { definition = record c.definition { file_path = some path } } in
      if is_empty c.definition.name
      then (loaded, r)
      else (loaded ++ command ∷ [], register to_lower_case resolve command r)

  unfoldable pub load_items :
      Text
      → List (ExportedItem W)
      → List (Command W) × CommandRegistry W
      → List (Command W) × CommandRegistry W
  unfolding load_item
  load_items path [] state = state
  load_items path (i ∷ is) state = load_items path is (load_item path i state)

  unfoldable pub load_exports :
      Text
      → List (Exported W)
      → List (Command W) × CommandRegistry W
      → List (Command W) × CommandRegistry W
  unfolding load_items
  load_exports path [] state = state
  load_exports path (array items ∷ es) state = load_exports path es (load_items path items state)
  load_exports path (item i ∷ es) state = load_exports path es (load_item path i state)

  -- `imported` are those of the exports `default`, `command` and `commands` that there are, in this
  -- order.
  unfoldable pub load_module :
      Text → List (Exported W) → CommandRegistry W → List (Command W) × CommandRegistry W
  unfolding unregister_all load_exports
  load_module file_path imported r =
      let absolute_path = resolve file_path in
      let old = or_else (Maps.get absolute_path r.file_map) [] in
      let loaded = load_exports absolute_path imported ([], unregister_all old r) in
      (
        loaded.0,
        record loaded.1 {
          emitted = loaded.1.emitted ++ module_loaded absolute_path (length loaded.0) ∷ [];
        },
      )

  abbrev pub context : Message → Text → List Text → Command W → CommandRegistry W → CommandContext
  context message command_name args command r = record {
    message = message;
    sender_jid = message.source.sender;
    chat_jid = message.source.chat;
    is_group = message.source.is_group;
    is_admin = some false;
    is_owner = some (has message.source.sender.user r.owner_jids);
    command_name = command_name;
    args = args;
    command = some command.definition;
  }

  unfoldable pub run_command :
      Message → Text → List Text → Option (Command W) → CommandRegistry W → W → Handled W
  unfolding execute
  run_command message command_name args none r w = ignored
  run_command message command_name args (some command) r w =
      let ctx = context message command_name args command r in
      let result = execute r.pipeline ctx (command.execute ctx) w in ran result.0 result.1

  unfoldable pub dispatch : Message → List Text → CommandRegistry W → W → Handled W
  unfolding run_command get_command
  dispatch message [] r w = ignored
  dispatch message (part ∷ args) r w =
      if is_empty (to_lower_case part)
      then ignored
      else run_command message (to_lower_case part) args
          (get_command to_lower_case resolve (to_lower_case part) r) r w

  unfoldable pub dispatch_stripped : Message → Option Text → CommandRegistry W → W → Handled W
  unfolding dispatch trim split_spaces
  dispatch_stripped message none r w = ignored
  dispatch_stripped message (some stripped) r w =
      dispatch message (split_spaces (trim stripped)) r w

  unfoldable pub handle_message : Message → CommandRegistry W → W → Handled W
  unfolding dispatch_stripped strip_prefix extract_message_text
  handle_message message r w =
      let text = extract_message_text message.content in
      if is_empty text then ignored else dispatch_stripped message (strip_prefix r.prefix text) r w
