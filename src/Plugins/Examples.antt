-- ===== src/Plugins/Examples.antt =====
-- packages/wazeko/src/plugins/middleware.ts: the theorems at concrete pipelines.
use wazeko.Prelude.{ℕ, ◌+◌, ◌≤◌, ◌≡◌, refl, inl, inr, true, false, none, some, [], ◌∷◌, List, arith}
use wazeko.Text.{Text, codes, text_eq, starts_with}
use wazeko.Types.Jid.{Jid, jid_user}
use wazeko.Types.Message.{Message, text, pending}
use wazeko.Plugins.Middleware.{
  fulfilled, Program, ends, acts, calls_next, CommandDefinition, CommandContext, MiddlewareFn,
  create_admin_guard, Execution, run_program, runner, execute,
}
use wazeko.Map.{Map, text_key}
use wazeko.Map as Maps
use wazeko.Plugins.Middleware.Cooldown.{Clock, cooldown_key, create_cooldown_guard}
use wazeko.Plugins.Middleware.Served.{IsApart}
use wazeko.Plugins.Middleware.Spacing.{Request, IsGood, AreSpaced, run_times, run_times-AreSpaced}
use wazeko.Plugins.Middleware.Once.{execute-reached, passes, execute-passes}
use wazeko.Text.Split.{trim, trim_start, trim_end, is_space, split_spaces}
use wazeko.Plugins.CommandRegistry.Dispatch.{
  strip_prefix, run_command, dispatch, dispatch_stripped, handle_message,
}
use wazeko.Plugins.CommandRegistry.Refusal.{Permitted, handle_message-Permitted}
use wazeko.Plugins.CommandRegistry.{
  extract_message_text, Command, CommandRegistry, literal, register, unregister, get_command,
}
use wazeko.Plugins.CommandRegistry.Lookup.{get_command-register, get_command-unregister}

abbrev kick : CommandDefinition
kick = record {
  name = codes "kick";
  aliases = none;
  admin_only = some true;
  owner_only = none;
  cooldown_seconds = none;
  file_path = none;
}

abbrev bob : Jid
bob = jid_user (codes "62811")

abbrev said : Message
said = record {
  id = codes "1";
  source = record { chat = bob; sender = bob; is_from_me = false; is_group = false };
  content = text (codes "!kick");
  timestamp = 0;
  status = pending;
}

abbrev from_member : CommandContext
from_member = record {
  message = said;
  sender_jid = bob;
  chat_jid = bob;
  is_group = false;
  is_admin = none;
  is_owner = none;
  command_name = codes "kick";
  args = [];
  command = some kick;
}

abbrev counting : Program ℕ
counting = acts (λ n. n + 1) (λ n. ends fulfilled)

-- A middleware that calls `next` twice and drops what the first call was settled with.
abbrev insisting : MiddlewareFn ℕ
insisting ctx = calls_next (λ r. calls_next ends)

abbrev silent : Text → ℕ → ℕ
silent t n = n

execute-reached_example :
    (execute (insisting ∷ insisting ∷ []) from_member counting 0).1.reached ≤ 1
execute-reached_example = execute-reached (insisting ∷ insisting ∷ []) from_member counting 0

execute-passes_example : (execute (passes 3) from_member counting 0).1.reached ≡ 1
execute-passes_example = execute-passes 3 from_member counting 0

-- Two commands with the alias "k".
abbrev aliased : Text → Command ℕ
aliased name' = record {
  definition = record {
    name = name';
    aliases = some (codes "k" ∷ []);
    admin_only = none;
    owner_only = none;
    cooldown_seconds = none;
    file_path = none;
  };
  execute = λ ctx. counting;
}

abbrev none_yet : CommandRegistry ℕ
none_yet = record {
  commands = [];
  aliases = [];
  file_map = [];
  pipeline = [];
  prefix = literal (codes "!");
  owner_jids = [];
  emitted = [];
}

abbrev same : Text → Text
same t = t

get_command-register_example :
    get_command same same (codes "k") (register same same (aliased (codes "kick")) none_yet)
    ≡ some (aliased (codes "kick"))
unfolding register Maps.get Maps.set text_eq
get_command-register_example =
    get_command-register same same (codes "k") (aliased (codes "kick")) none_yet (λ e. cc)
      (inr (inl refl, refl))

get_command-unregister_example :
    (get_command same same (codes "k") (
        register same same
          (aliased (codes "kicks"))
          (register same same (aliased (codes "kick")) none_yet))
      ≡ some (aliased (codes "kicks")))
    × (get_command same same
          (codes "k")
          (unregister same same (codes "kick") (
            register same same
              (aliased (codes "kicks"))
              (register same same (aliased (codes "kick")) none_yet))).1
        ≡ none)
unfolding register Maps.get Maps.set text_eq
get_command-unregister_example =
    get_command-unregister same same (codes "k") (aliased (codes "kick")) (aliased (codes "kicks"))
      none_yet (λ e. cc) (λ e. cc) (inl refl) (inl refl) refl

abbrev kick_for_admins : Command ℕ
kick_for_admins = record { definition = kick; execute = λ ctx. counting }

abbrev guarded : CommandRegistry ℕ
guarded = record {
  commands = (codes "kick", kick_for_admins) ∷ [];
  aliases = [];
  file_map = [];
  pipeline = create_admin_guard silent ∷ [];
  prefix = literal (codes "!");
  owner_jids = [];
  emitted = [];
}

abbrev refused : Execution ℕ
refused = record { next_index = 1; world = 0; reached = 0 }

handle_message-Permitted_example : Permitted same same silent [] [] said guarded 0 fulfilled refused
unfolding handle_message extract_message_text strip_prefix starts_with trim trim_start trim_end
    is_space split_spaces dispatch_stripped dispatch run_command get_command text_eq Maps.get
    execute runner run_program create_admin_guard
handle_message-Permitted_example =
    handle_message-Permitted same same silent [] [] said guarded 0 fulfilled refused refl refl

-- A world that is the time and the map of the cooldown guard.
abbrev Timed : Type 0
Timed = ℕ × Map Text ℕ

abbrev clock : Clock Timed
clock = record { now = λ w. w.0; user_cooldowns = λ w. w.1; set_user_cooldowns = λ m w. (w.0, m) }

abbrev slow_kick : CommandContext
slow_kick = record from_member { command = some (record kick { cooldown_seconds = some 5 }) }

abbrev after_ms : ℕ → Request Timed
after_ms ms = record { elapse = λ w. (w.0 + ms, w.1); ctx = slow_kick; target = ends fulfilled }

abbrev requests : List (Request Timed)
requests = after_ms 6000 ∷ after_ms 1000 ∷ after_ms 4500 ∷ []

abbrev no_reply : Text → Timed → Timed
no_reply t w = w

spaced_runs :
    run_times clock (λ n. []) no_reply (cooldown_key slow_kick) requests (0, []) ≡ 6000 ∷ 11500 ∷ []
unfolding run_times execute create_cooldown_guard Maps.get Maps.set text_eq jid_user
spaced_runs = refl

after_ms-IsGood :
    (ms : ℕ) → IsGood clock (λ n. []) no_reply (cooldown_key slow_kick) 5 (after_ms ms)
unfolding IsApart
after_ms-IsGood ms = (λ w. refl, tt, λ e. refl)

run_times-AreSpaced_example :
    AreSpaced clock
      (λ n. [])
      no_reply
      5
      0
      (run_times clock (λ n. []) no_reply (cooldown_key slow_kick) requests (0, []))
run_times-AreSpaced_example =
    run_times-AreSpaced clock (λ n. []) no_reply (λ m w. refl) (λ t w. refl)
      (cooldown_key slow_kick) 5 0 requests (0, []) (omega arith)
      (after_ms-IsGood 6000, (after_ms-IsGood 1000, (after_ms-IsGood 4500, tt)))
      (unfold Maps.get in refl)
