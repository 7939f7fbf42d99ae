-- ===== src/Plugins/Middleware/Spacing.antt =====
-- packages/wazeko/src/plugins/middleware.ts: how far apart the cooldown guard keeps the runs of a
-- command.
use wazeko.Prelude.{
  ℕ, ◌+◌, ◌*◌, ◌≤◌, ◌<◌, ◌≡◌, ap, ◌∙◌, true, false, ◌&&◌, inl, inr, Option, List, [], ◌∷◌, All,
  arith, ltb, ◌==◌, if◌then◌else◌, if_true, Bool-cases,
}
use wazeko.Text.{Text, text_eq, text_eq_iff}
use wazeko.Map.{Map, text_key, get-set}
use wazeko.Map as Maps
use wazeko.Queue.RateLimiter.{or_else}
use wazeko.Plugins.Middleware.{Program, CommandContext}
use wazeko.Plugins.Middleware.Cooldown.{Clock, cooldown_of, cooldown_key}
use wazeko.Plugins.Middleware.Served.{
  IsOwn, Keeps, IsApart, served, waits, served-waits, served-runs, served-other,
}

not_before : (a b : ℕ) → ltb a b ≡ false → b ≤ a
not_before a b e = ground arith

-- A command is asked for, after some time in which the world may have changed.
pub record Request (W : Type 0) : Type 0 where
  pub elapse : W → W
  pub ctx : CommandContext
  pub target : Program W

module _ {W : Type 0} (clock : Clock W) (to_fixed : ℕ → Text) (reply : Text → W → W) where
  -- The times at which the commands that a sender asked for by a key were run.
  unfoldable pub run_times : Text → List (Request W) → W → List ℕ
  run_times key [] w = []
  run_times key (r ∷ rs) w =
      let before = r.elapse w in
      let after = served clock to_fixed reply r.ctx r.target before in
      let rest = run_times key rs after.world in
      if text_eq (cooldown_key r.ctx) key && (after.reached == 1)
      then clock.now before ∷ rest
      else rest

  -- The times are apart by a number of seconds, the first one from the last time before.
  abbrev pub AreSpaced : ℕ → ℕ → List ℕ → Type 0
  AreSpaced seconds last [] = Unit
  AreSpaced seconds last (t ∷ ts) = (last + 1000 * seconds ≤ t) × AreSpaced seconds t ts

  abbrev pub IsGood : Text → ℕ → Request W → Type 0
  IsGood key seconds r =
      Keeps clock r.elapse
      × IsApart clock r.target
      × (text_eq (cooldown_key r.ctx) key ≡ true → cooldown_of r.ctx.command ≡ seconds)

  -- Behind the cooldown guard, the runs of a command that one sender asked for are apart by at least
  -- its cooldown, whatever else is asked for between and however the clock moves, where nothing but
  -- the guard writes its map.
  pub run_times-AreSpaced :
      IsOwn clock
      → ((t : Text) → Keeps clock (reply t))
      → (key : Text) (seconds last : ℕ) (rs : List (Request W)) (w : W) → 0 < seconds
      → All (IsGood key seconds) rs
      → or_else (Maps.get key (clock.user_cooldowns w)) 0 ≡ last
      → AreSpaced seconds last (run_times key rs w)
  unfolding run_times
  run_times-AreSpaced own replies key seconds last [] w pos h e = tt
  run_times-AreSpaced own replies key seconds last (r ∷ rs) w pos ((k, apart, is), hs) e =
      let before = r.elapse w in
      let after = (served clock to_fixed reply r.ctx r.target before).world in
      let found = λ (m : Map Text ℕ). or_else (Maps.get key m) 0 in
      let since = ap found (k w) ∙ e in
      elim (Bool-cases (text_eq (cooldown_key r.ctx) key)) [
        | inl same ↦
            let on : 0 < 1000 * cooldown_of r.ctx.command = rw (is same) (omega arith) in
            let named = (text_eq_iff (cooldown_key r.ctx) key).0 same in
            elim (Bool-cases (waits clock to_fixed reply r.ctx before)) [
              | inl early ↦
                  let x =
                    served-waits clock to_fixed reply own replies r.ctx r.target apart before on
                      early in
                  rw (same, x.0)
                    (run_times-AreSpaced own replies key seconds last rs after pos hs
                      (ap found x.1 ∙ since))
              | inr late ↦
                  let x =
                    served-runs clock to_fixed reply own replies r.ctx r.target apart before on
                      late in
                  let bound = not_before _ _ late in
                  rw (same, x.0)
                    (
                      rw (named, since, is same) at bound,
                      run_times-AreSpaced own replies key seconds (clock.now before) rs after pos hs
                          (ap found x.1
                            ∙ ap (λ (o : Option ℕ). or_else o 0)
                                (get-set (cooldown_key r.ctx) key (clock.now before)
                                    (clock.user_cooldowns before)
                                  ∙ if_true _ _ _ same)),
                    )
            ]
        | inr other ↦ rw other (
            run_times-AreSpaced own replies key seconds last rs after pos hs (
              ap (λ (o : Option ℕ). or_else o 0)
                (served-other clock to_fixed reply own replies r.ctx r.target apart before key
                  other)
              ∙ since))
      ]
