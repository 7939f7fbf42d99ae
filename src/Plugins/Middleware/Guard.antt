-- ===== src/Plugins/Middleware/Guard.antt =====
-- packages/wazeko/src/plugins/middleware.ts: what the admin guard keeps from running.
use wazeko.Prelude.{
  ℕ, ◌+◌, ◌≡◌, refl, Bool, false, not, ◌&&◌, ◌||◌, some, List, [], ◌∷◌, ◌++◌, ltb, if-cases, arith,
}
use wazeko.Text.{Text}
use wazeko.Plugins.Middleware.{
  Settled, Program, CommandDefinition, CommandContext, MiddlewareFn, Execution, is_set, run_program,
  runner, execute, guard_command, create_admin_guard,
}
use wazeko.Plugins.Middleware.Once.{run_program-keeps}

-- An owner may run any command, and another one those that are neither for owners nor, unless an
-- admin runs them, for admins.
abbrev pub may_run : CommandContext → CommandDefinition → Bool
may_run ctx cmd =
    is_set ctx.is_owner
    || (not (is_set cmd.owner_only) && (is_set ctx.is_admin || not (is_set cmd.admin_only)))

module _ {W : Type 0} (reply : Text → W → W) (ctx : CommandContext) (cmd : CommandDefinition)
    (target : Program W) where
  abbrev NotReached : Execution W → Type 0
  NotReached s = s.reached ≡ 0

  guard_command-refuses :
      (next : Execution W → Settled × Execution W) (s : Execution W)
      → may_run ctx cmd ≡ false
      → NotReached s
      → NotReached (run_program (guard_command reply ctx cmd) next s).1
  unfolding run_program
  guard_command-refuses next s refused h = ground arith

  runner-refuses :
      (ms ns : List (MiddlewareFn W)) (i : ℕ) (s : Execution W)
      → ctx.command ≡ some cmd
      → may_run ctx cmd ≡ false
      → NotReached s
      → NotReached (runner ctx target (ms ++ create_admin_guard reply ∷ ns) i s).1
  unfolding runner create_admin_guard
  runner-refuses [] ns i s c refused h =
      if-cases (λ (r : Settled × Execution W). NotReached r.1) (ltb i s.next_index) _ _ (λ again. h)
        (λ first. rw c (
          guard_command-refuses (runner ctx target ns (i + 1)) (record s { next_index = i + 1 })
            refused h))
  runner-refuses (m ∷ ms) ns i s c refused h =
      if-cases (λ (r : Settled × Execution W). NotReached r.1) (ltb i s.next_index) _ _ (λ again. h)
        (λ first.
          run_program-keeps NotReached (λ f s h. h) (m ctx) _ (record s { next_index = i + 1 })
            (λ s h. runner-refuses ms ns (i + 1) s c refused h) h)

-- With the admin guard anywhere among the middlewares, whatever the others do, a command that the
-- sender may not run is not run.
pub execute-refuses :
    {W : Type 0} (reply : Text → W → W) (ms ns : List (MiddlewareFn W)) (ctx : CommandContext)
    (cmd : CommandDefinition) (target : Program W) (w : W)
    → ctx.command ≡ some cmd
    → may_run ctx cmd ≡ false
    → (execute (ms ++ create_admin_guard reply ∷ ns) ctx target w).1.reached ≡ 0
unfolding execute
execute-refuses reply ms ns ctx cmd target w c refused =
    runner-refuses reply ctx cmd target ms ns 0 _ c refused refl
