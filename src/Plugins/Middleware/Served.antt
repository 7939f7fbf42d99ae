-- ===== src/Plugins/Middleware/Served.antt =====
-- packages/wazeko/src/plugins/middleware.ts: what the cooldown guard does with one command.
use wazeko.Prelude.{
  ℕ, ◌+◌, ◌-◌, ◌++◌, ◌*◌, ◌<◌, ◌≡◌, refl, ap, ◌∙◌, Bool, true, false, inl, inr, [], ◌∷◌, arith, ltb,
  ltb→lt, lt→ltb, if◌then◌else◌, if_true, if_false, Bool-cases,
}
use wazeko.Text.{codes, Text, text_eq}
use wazeko.Map.{Map, text_key, get-set}
use wazeko.Map as Maps
use wazeko.Queue.RateLimiter.{or_else}
use wazeko.Plugins.Middleware.{
  Settled, fulfilled, Program, ends, acts, calls_next, CommandContext, MiddlewareFn, Execution,
  run_program, run_target, runner, execute, pass, refuse,
}
use wazeko.Plugins.Middleware.Cooldown.{Clock, cooldown_of, cooldown_key, create_cooldown_guard}

module _ {W : Type 0} (clock : Clock W) where
  -- The map of the guard is its own: a write is read back, and nothing else writes it.
  abbrev pub IsOwn : Type 0
  IsOwn = (m : Map Text ℕ) (w : W) → clock.user_cooldowns (clock.set_user_cooldowns m w) ≡ m

  abbrev pub Keeps : (W → W) → Type 0
  Keeps f = (w : W) → clock.user_cooldowns (f w) ≡ clock.user_cooldowns w

  unfoldable pub IsApart : Program W → Type 0
  IsApart (ends r) = Unit
  IsApart (acts f rest) = Keeps f × ((w : W) → IsApart (rest w))
  IsApart (calls_next rest) = (r : Settled) → IsApart (rest r)

  abbrev stay : Execution W → Settled × Execution W
  stay s = (fulfilled, s)

  run_program-apart :
      (target : Program W) (s : Execution W)
      → IsApart target
      → ((run_program target stay s).1.reached ≡ s.reached)
        × (clock.user_cooldowns (run_program target stay s).1.world ≡ clock.user_cooldowns s.world)
  unfolding run_program IsApart
  run_program-apart (ends r) s h = (refl, refl)
  run_program-apart (acts f rest) s (h, hs) =
      let ih = run_program-apart (rest s.world) (record s { world = f s.world }) (hs s.world) in
      (ih.0, ih.1 ∙ h s.world)
  run_program-apart (calls_next rest) s h = run_program-apart (rest fulfilled) s (h fulfilled)

module _ {W : Type 0} (clock : Clock W) (to_fixed : ℕ → Text) (reply : Text → W → W) where
  abbrev guard : MiddlewareFn W
  guard = create_cooldown_guard clock to_fixed reply

  abbrev pub served : CommandContext → Program W → W → Execution W
  served ctx target w = (execute (guard ∷ []) ctx target w).1

  abbrev pub waits : CommandContext → W → Bool
  waits ctx w = ltb (clock.now w) (
      or_else (Maps.get (cooldown_key ctx) (clock.user_cooldowns w)) 0
      + 1000 * cooldown_of ctx.command)

  module _ (ctx : CommandContext) (target : Program W) where
    abbrev target_next : Execution W → Settled × Execution W
    target_next = runner ctx target [] 1

    -- What the guard does where the command has a cooldown, by whether it still runs.
    abbrev refusal : W → Program W
    refusal w = refuse reply (
        codes "⏳ Mohon tunggu "
        ++ (to_fixed (
              or_else (Maps.get (cooldown_key ctx) (clock.user_cooldowns w)) 0
              + 1000 * cooldown_of ctx.command
              - clock.now w)
            ++ codes " detik sebelum menggunakan perintah ini lagi."))

    abbrev passage : Program W
    passage =
        acts
          (λ w.
            clock.set_user_cooldowns
              (Maps.set (cooldown_key ctx) (clock.now w) (clock.user_cooldowns w)) w)
          (λ w. pass)

    guard-on :
        0 < 1000 * cooldown_of ctx.command
        → guard ctx ≡ acts (λ (w : W). w) (λ w. if waits ctx w then refusal w else passage)
    unfolding create_cooldown_guard
    guard-on pos = if_true _ _ _ (lt→ltb 0 (1000 * cooldown_of ctx.command) pos)

    start : W → Execution W
    start w = record { next_index = 1; world = w; reached = 0 }

    served-on :
        (w : W) (p : Program W)
        → 0 < 1000 * cooldown_of ctx.command
        → (if waits ctx w then refusal w else passage) ≡ p
        → served ctx target w ≡ (run_program p target_next (start w)).1
    unfolding execute runner run_program start
    served-on w p pos e =
        ap (λ (q : Program W). (run_program q target_next (start w)).1) (guard-on pos)
        ∙ ap (λ (q : Program W). (run_program q target_next (start w)).1) e

  module _ (own : IsOwn clock) (replies : (t : Text) → Keeps clock (reply t)) (ctx : CommandContext)
      (target : Program W) (apart : IsApart clock target) (w : W)
      (pos : 0 < 1000 * cooldown_of ctx.command) where
    pub served-waits :
        waits ctx w ≡ true
        → ((served ctx target w).reached ≡ 0)
          × (clock.user_cooldowns (served ctx target w).world ≡ clock.user_cooldowns w)
    unfolding run_program start
    served-waits e =
        rw (served-on ctx target w (refusal ctx target w) pos (if_true _ _ _ e)) (refl, replies _ w)

    pub served-runs :
        waits ctx w ≡ false
        → ((served ctx target w).reached ≡ 1)
          × (clock.user_cooldowns (served ctx target w).world
              ≡ Maps.set (cooldown_key ctx) (clock.now w) (clock.user_cooldowns w))
    unfolding run_program runner run_target start
    served-runs e =
        let m = Maps.set (cooldown_key ctx) (clock.now w) (clock.user_cooldowns w) in
        let ran =
          run_program-apart clock target
            (record { next_index = 2; world = clock.set_user_cooldowns m w; reached = 1 }) apart in
        rw (served-on ctx target w (passage ctx target) pos (if_false _ _ _ e))
          (ran.0, ran.1 ∙ own m w)

  module _ (own : IsOwn clock) (replies : (t : Text) → Keeps clock (reply t)) (ctx : CommandContext)
      (target : Program W) (apart : IsApart clock target) (w : W) where
    served-off :
        cooldown_of ctx.command ≡ 0
        → clock.user_cooldowns (served ctx target w).world ≡ clock.user_cooldowns w
    unfolding execute runner run_program run_target create_cooldown_guard start
    served-off e =
        let off : ltb 0 (1000 * cooldown_of ctx.command) ≡ false = rw e refl in
        let passes : guard ctx ≡ pass = if_false _ _ _ off in
        ap
          (λ (q : Program W).
            clock.user_cooldowns
              (run_program q (target_next ctx target) (start ctx target w)).1.world)
          passes
        ∙ (run_program-apart clock target (record { next_index = 2; world = w; reached = 1 })
            apart).1

    -- A request leaves the times of the other keys as they were.
    pub served-other :
        (key : Text)
        → text_eq (cooldown_key ctx) key ≡ false
        → Maps.get key (clock.user_cooldowns (served ctx target w).world)
          ≡ Maps.get key (clock.user_cooldowns w)
    served-other key other =
        let found = λ (m : Map Text ℕ). Maps.get key m in
        elim (Bool-cases (ltb 0 (1000 * cooldown_of ctx.command))) [
          | inl on ↦
              let pos = ltb→lt 0 _ on in
              elim (Bool-cases (waits ctx w)) [
                | inl e ↦ ap found (served-waits own replies ctx target apart w pos e).1
                | inr e ↦
                    ap found (served-runs own replies ctx target apart w pos e).1
                    ∙ get-set (cooldown_key ctx) key (clock.now w) (clock.user_cooldowns w)
                    ∙ if_false _ _ _ other
              ]
          | inr off ↦ ap found (served-off (ground arith))
        ]
