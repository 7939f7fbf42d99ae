-- ===== src/Transport/Reconnect/Bounds.antt =====
-- packages/wazeko-transport/src/reconnect.ts: how many delays there are, and how long.
use wazeko.Prelude.{
  ℕ, zero, suc, ◌+◌, ◌-◌, ◌≡◌, refl, sym, inl, inr, true, false, Option, none, some, arith, length,
  min, All, ◌∷◌, [], subst, ◌∙◌, Bool-cases, if_true, if_false, ap,
}
use wazeko.Transport.Reconnect.{
  Number, ReconnectManager, reset, below, should_retry, next_delay_ms, delays, follow,
}

-- How many of `n` calls yield a delay.
abbrev pub granted : ℕ → ℕ → Option ℕ → ℕ
granted n attempt none = n
granted n attempt (some most) = min n (most - attempt)

granted-zero : (attempt : ℕ) (o : Option ℕ) → granted 0 attempt o ≡ 0
granted-zero attempt none = refl
granted-zero attempt (some most) = omega arith

granted-over : (n attempt : ℕ) (o : Option ℕ) → below attempt o ≡ false → granted n attempt o ≡ 0
granted-over n attempt none e = cc
granted-over n attempt (some most) e = ground arith

granted-more :
    (n attempt : ℕ) (o : Option ℕ)
    → below attempt o ≡ true
    → granted (suc n) attempt o ≡ suc (granted n (attempt + 1) o)
granted-more n attempt none e = refl
granted-more n attempt (some most) e = ground arith

module _ {ℓ} {A : Type ℓ} (num : Number A) where
  abbrev advanced : ReconnectManager A → ReconnectManager A
  advanced m = record m {
    current_attempt = m.current_attempt + 1;
    current_interval_ms =
        num.minimum (num.times m.current_interval_ms m.config.multiplier) m.config.max_interval_ms;
  }

  delays-again :
      (n : ℕ) (m : ReconnectManager A)
      → below m.current_attempt m.config.max_retries ≡ true
      → delays num (suc n) m ≡ m.current_interval_ms ∷ delays num n (advanced m)
  unfolding delays next_delay_ms should_retry
  delays-again n m e = ap (follow (delays num n)) (if_true _ _ _ e)

  delays-over :
      (n : ℕ) (m : ReconnectManager A)
      → below m.current_attempt m.config.max_retries ≡ false
      → delays num (suc n) m ≡ []
  unfolding delays next_delay_ms should_retry
  delays-over n m e = ap (follow (delays num n)) (if_false _ _ _ e)

  -- A row of `n` calls of `nextDelayMs` yields a delay at each call until the retries that are
  -- left are used up, and at every call where there is no limit.
  pub length-delays :
      (n : ℕ) (m : ReconnectManager A)
      → length (delays num n m) ≡ granted n m.current_attempt m.config.max_retries
  unfolding delays
  length-delays zero m = sym (granted-zero m.current_attempt m.config.max_retries)
  length-delays (suc n) m = elim (Bool-cases (below m.current_attempt m.config.max_retries)) [
    | inl e ↦
        ap length (delays-again n m e)
        ∙ ap suc (length-delays n (advanced m))
        ∙ sym (granted-more n m.current_attempt m.config.max_retries e)
    | inr e ↦
        ap length (delays-over n m e)
        ∙ sym (granted-over (suc n) m.current_attempt m.config.max_retries e)
  ]

  delays-All :
      (Within : A → A → Type ℓ) (n : ℕ) (m : ReconnectManager A)
      → ((a b : A) → Within (num.minimum a b) b)
      → Within m.current_interval_ms m.config.max_interval_ms
      → All (λ d. Within d m.config.max_interval_ms) (delays num n m)
  unfolding delays
  delays-All Within zero m below_max h = tt
  delays-All Within (suc n) m below_max h =
      elim (Bool-cases (below m.current_attempt m.config.max_retries)) [
        | inl e ↦
            subst (All (λ d. Within d m.config.max_interval_ms)) (sym (delays-again n m e))
              (h, delays-All Within n (advanced m) below_max (below_max _ _))
        | inr e ↦ subst (All (λ d. Within d m.config.max_interval_ms)) (sym (delays-over n m e)) tt
      ]

  -- With `Math.min` at most its second argument, no delay after a reset is above the configured
  -- maximum, if the initial interval is not.
  pub delays-reset :
      (Within : A → A → Type ℓ) (n : ℕ) (m : ReconnectManager A)
      → ((a b : A) → Within (num.minimum a b) b)
      → Within m.config.initial_interval_ms m.config.max_interval_ms
      → All (λ d. Within d m.config.max_interval_ms) (delays num n (reset m))
  unfolding reset
  delays-reset Within n m below_max h = delays-All Within n (reset m) below_max h
