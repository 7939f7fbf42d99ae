-- ===== src/Transport/Reconnect.antt =====
-- packages/wazeko-transport/src/reconnect.ts. An interval is a number of a type `A`, which stands
-- for the double-precision numbers, with `Math.min` and the product as given operations.
pub mod Bounds
use wazeko.Prelude.{
  ℕ, zero, suc, ◌+◌, ◌-◌, ◌≤◌, ◌<◌, ◌≡◌, refl, sym, ap, ◌∙◌, subst, Bool, true, false, Option, none,
  some, List, [], ◌∷◌, arith, ltb, if◌then◌else◌, length, All,
}

pub record Number {ℓ} (A : Type ℓ) : Type ℓ where
  pub minimum : A → A → A
  pub times : A → A → A

pub record BackoffConfig {ℓ} (A : Type ℓ) : Type ℓ where
  pub initial_interval_ms : A
  pub max_interval_ms : A
  pub multiplier : A
  pub max_retries : Option ℕ

pub record ReconnectManager {ℓ} (A : Type ℓ) : Type ℓ where
  pub config : BackoffConfig A
  pub current_attempt : ℕ
  pub current_interval_ms : A

abbrev pub below : ℕ → Option ℕ → Bool
below attempt none = true
below attempt (some most) = ltb attempt most

module _ {ℓ} {A : Type ℓ} where
  unfoldable pub create : BackoffConfig A → ReconnectManager A
  create config = record {
    config = config;
    current_attempt = 0;
    current_interval_ms = config.initial_interval_ms;
  }

  unfoldable pub reset : ReconnectManager A → ReconnectManager A
  reset m = record m { current_attempt = 0; current_interval_ms = m.config.initial_interval_ms }

  unfoldable pub should_retry : ReconnectManager A → Bool
  should_retry m = below m.current_attempt m.config.max_retries

  -- The delay and the manager after the call; `none` is `null`, which changes nothing.
  unfoldable pub next_delay_ms : Number A → ReconnectManager A → Option A × ReconnectManager A
  unfolding should_retry
  next_delay_ms num m =
      if should_retry m
      then (
        some m.current_interval_ms,
        record m {
          current_attempt = m.current_attempt + 1;
          current_interval_ms =
              num.minimum (num.times m.current_interval_ms m.config.multiplier)
                m.config.max_interval_ms;
        },
      )
      else (none, m)

  abbrev pub follow : (ReconnectManager A → List A) → Option A × ReconnectManager A → List A
  follow rest (none, m) = []
  follow rest (some delay, m) = delay ∷ rest m

  -- The delays of `n` calls in a row, up to the first `null`.
  unfoldable pub delays : Number A → ℕ → ReconnectManager A → List A
  unfolding next_delay_ms
  delays num zero m = []
  delays num (suc n) m = follow (delays num n) (next_delay_ms num m)
