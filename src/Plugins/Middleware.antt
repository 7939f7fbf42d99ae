-- ===== src/Plugins/Middleware.antt =====
-- packages/wazeko/src/plugins/middleware.ts. An asynchronous function is the program of its steps:
-- it changes the world and reads it, it awaits `next()` and goes on with what that was settled
-- with, and it returns or throws. Calls of `next` that are not awaited, and changes to the context,
-- are not modelled.
pub mod Once
pub mod Guard
pub mod Served
pub mod Spacing
pub mod Cooldown
use wazeko.Prelude.{
  ℕ, zero, suc, ◌+◌, Bool, true, false, not, ◌&&◌, Option, none, some, List, [], ◌∷◌, ltb,
  if◌then◌else◌,
}
use wazeko.Text.{Text, codes}
use wazeko.Types.Jid.{Jid}
use wazeko.Types.Message.{Message}

-- What a promise without a value is settled with.
pub data Settled : Type 0 where
  fulfilled : Settled
  rejected : Text → Settled

pub data Program (W : Type 0) : Type 0 where
  ends : Settled → Program W
  acts : (W → W) → (W → Program W) → Program W
  calls_next : (Settled → Program W) → Program W

-- A command without the function that runs it and without its descriptions. Its cooldown is in
-- whole seconds.
pub record CommandDefinition : Type 0 where
  pub name : Text
  pub aliases : Option (List Text)
  pub owner_only : Option Bool
  pub admin_only : Option Bool
  pub cooldown_seconds : Option ℕ
  pub file_path : Option Text

-- A context without the client, of which `reply` is the only use; `command` is the field of its
-- state.
pub record CommandContext : Type 0 where
  pub message : Message
  pub sender_jid : Jid
  pub chat_jid : Jid
  pub is_group : Bool
  pub is_admin : Option Bool
  pub is_owner : Option Bool
  pub command_name : Text
  pub args : List Text
  pub command : Option CommandDefinition

abbrev pub MiddlewareFn : Type 0 → Type 0
MiddlewareFn W = CommandContext → Program W

-- `next_index` is `index` + 1, and `reached` is how often the target was called.
pub record Execution (W : Type 0) : Type 0 where
  pub next_index : ℕ
  pub world : W
  pub reached : ℕ

abbrev pub next_twice : Text
next_twice = codes "next() called multiple times in middleware"

-- Whether an optional flag is true.
abbrev pub is_set : Option Bool → Bool
is_set none = false
is_set (some b) = b

module _ {W : Type 0} where
  unfoldable pub run_program :
      Program W → (Execution W → Settled × Execution W) → Execution W → Settled × Execution W
  run_program (ends r) next s = (r, s)
  run_program (acts f rest) next s =
      run_program (rest s.world) next (record s { world = f s.world })
  run_program (calls_next rest) next s = run_program (rest (next s).0) next (next s).1

  -- The target's program has no `next` to call.
  unfoldable pub run_target : Program W → Execution W → Settled × Execution W
  unfolding run_program
  run_target target s =
      run_program target (λ s. (fulfilled, s)) (record s { reached = s.reached + 1 })

  -- `runner(i)`, with the middlewares from place `i` on.
  unfoldable pub runner :
      CommandContext → Program W → List (MiddlewareFn W) → ℕ → Execution W → Settled × Execution W
  unfolding run_program run_target
  runner ctx target [] i s =
      if ltb i s.next_index
      then (rejected next_twice, s)
      else run_target target (record s { next_index = i + 1 })
  runner ctx target (m ∷ ms) i s =
      if ltb i s.next_index
      then (rejected next_twice, s)
      else run_program (m ctx) (runner ctx target ms (i + 1)) (record s { next_index = i + 1 })

  unfoldable pub execute :
      List (MiddlewareFn W) → CommandContext → Program W → W → Settled × Execution W
  unfolding runner
  execute ms ctx target w =
      runner ctx target ms 0 (record { next_index = 0; world = w; reached = 0 })

  -- `await next()` at the end.
  abbrev pub pass : Program W
  pass = calls_next ends

  -- `await ctx.reply(text); return`.
  abbrev pub refuse : (Text → W → W) → Text → Program W
  refuse reply text = acts (reply text) (λ w. ends fulfilled)

  abbrev pub guard_command : (Text → W → W) → CommandContext → CommandDefinition → Program W
  guard_command reply ctx cmd =
      if is_set cmd.admin_only && not (is_set ctx.is_admin) && not (is_set ctx.is_owner)
      then refuse reply (codes "❌ Perintah ini hanya dapat digunakan oleh Admin Grup.")
      else if is_set cmd.owner_only && not (is_set ctx.is_owner)
      then refuse reply (codes "❌ Perintah ini hanya dapat digunakan oleh Bot Owner.")
      else pass

  abbrev pub guard_of : (Text → W → W) → CommandContext → Option CommandDefinition → Program W
  guard_of reply ctx none = pass
  guard_of reply ctx (some cmd) = guard_command reply ctx cmd

  -- `reply` is what `ctx.reply` does to the world.
  unfoldable pub create_admin_guard : (Text → W → W) → MiddlewareFn W
  create_admin_guard reply ctx = guard_of reply ctx ctx.command
