-- ===== src/Observability/Logger/Timing.antt =====
-- packages/wazeko/src/observability/logger.ts: an action that is timed.
use wazeko.Prelude.{◌++◌, ◌≡◌, refl, inl, inr, ◌⊎◌, Bool-cases, true, ap}
use wazeko.Text.{Text}
use wazeko.Map.{text_key, Map}
use wazeko.Observability.Logger.{
  LogLevel, Values, Runtime, returned, StructuredLogger, log, should_log, entry, Completion,
  on_failure, time, Action, Void, error, completed, info, raising, raised, settled, info_level,
  error_level, codes, with_duration,
}

module _ {v : Values} {W : Type 0} where
  -- Every entry has a text, and the destination takes every text.
  pub record Works (r : Runtime v W) (l : StructuredLogger v W) : Type 0 where
    pub written : Map Text v.Value → Text
    pub stringify : (m : Map Text v.Value) → r.stringify m ≡ returned (written m)
    pub destination : (s : Text) (w : W) → (l.destination s w).0 ≡ returned tt

module _ {v : Values} {W : Type 0} (r : Runtime v W) (l : StructuredLogger v W) where
  -- One line at the destination, or nothing.
  abbrev pub MayWrite : W → W → Type 0
  MayWrite w after = (after ≡ w) ⊎ ((s : Text) × (after ≡ (l.destination s w).1))

  log-returns :
      Works r l
      → (level : LogLevel) (message : Text) (meta : Map Text v.Value) (err : v.Value) (w : W)
      → ((log r l level message meta err w).0 ≡ returned tt)
        × MayWrite w (log r l level message meta err w).1
  unfolding log
  log-returns k level message meta err w =
      let m = entry v (r.iso_now w) level l.service message meta err in
      elim (Bool-cases (should_log l level)) [
        | inl e ↦ rw (e, k.stringify m) (k.destination (k.written m) w, inr (k.written m, refl))
        | inr e ↦ rw e (refl, inl refl)
      ]

  log-raises :
      (written : Map Text v.Value → Text)
      → ((m : Map Text v.Value) → r.stringify m ≡ returned (written m))
      → (e : v.Value) → ((s : Text) (w : W) → (l.destination s w).0 ≡ raised e)
      → (level : LogLevel) (message : Text) (meta : Map Text v.Value) (err : v.Value) (w : W)
      → should_log l level ≡ true
      → (log r l level message meta err w).0 ≡ raised e
  unfolding log
  log-raises written s e d level message meta err w h =
      let m = entry v (r.iso_now w) level l.service message meta err in
      rw (h, s m) (d (written m) w)

  module _ {A : Type 0} where
    raising-after :
        (err : v.Value) (x : Completion v.Value Void × W)
        → x.0 ≡ returned tt
        → raising r l {A = A} err x ≡ (raised err, x.1)
    raising-after err (returned u, w) e = refl
    raising-after err (raised other, w) e = cc

    completed-after :
        (name : Text) (meta : Map Text v.Value) (start : r.Time) (a : A)
        (x : Completion v.Value Void × W)
        → x.0 ≡ returned tt
        → completed r l name meta start a x ≡ (returned a, x.1)
    completed-after name meta start a (returned u, w) e = refl
    completed-after name meta start a (raised other, w) e = cc

    -- What `time` does once its action is over, for each of its two ends.
    settled-completes :
        Works r l
        → (name : Text) (meta : Map Text v.Value) (start : r.Time) (x : Completion v.Value A × W)
        → ((settled r l name meta start x).0 ≡ x.0) × MayWrite x.1 (settled r l name meta start x).1
    unfolding on_failure error info
    settled-completes k name meta start (returned a, w) =
        let fields = with_duration r l meta start w in
        let logged = log-returns k info_level (name ++ codes " completed") fields v.undefined w in
        let x = info r l (name ++ codes " completed") fields w in
        let e = completed-after name meta start a x logged.0 in
        (ap (λ (z : Completion v.Value A × W). z.0) e, rw e logged.1)
    settled-completes k name meta start (raised err, w) =
        let fields = with_duration r l meta start w in
        let logged = log-returns k error_level (name ++ codes " failed") fields err w in
        let e = raising-after err (error r l (name ++ codes " failed") err fields w) logged.0 in
        (ap (λ (z : Completion v.Value A × W). z.0) e, rw e logged.1)

    -- Where every entry has a text and the destination takes every text, the timing of an action
    -- returns what the action returns and raises what it raises, and, after all that the action
    -- does, at most one line is written.
    pub time-completes :
        Works r l
        → (name : Text) (fn : Action v W A) (meta : Map Text v.Value) (w : W)
        → ((time r l name fn meta w).0 ≡ (fn w).0) × MayWrite (fn w).1 (time r l name fn meta w).1
    unfolding time
    time-completes k name fn meta w = settled-completes k name meta (r.performance_now w) (fn w)

    raising-raised :
        (e err : v.Value) (x : Completion v.Value Void × W)
        → x.0 ≡ raised e
        → (raising r l {A = A} err x).0 ≡ raised e
    raising-raised e err (returned u, w) h = cc
    raising-raised e err (raised other, w) h = cc

    completed-raised :
        (e : v.Value) (name : Text) (meta : Map Text v.Value) (start : r.Time) (a : A)
        (x : Completion v.Value Void × W)
        → x.0 ≡ raised e
        → ((err : v.Value) (w : W) → (on_failure r l {A = A} name meta start err w).0 ≡ raised e)
        → (completed r l name meta start a x).0 ≡ raised e
    completed-raised e name meta start a (returned u, w) h k = cc
    completed-raised e name meta start a (raised err, w) h k = k err w

    settled-raised :
        (e : v.Value) (name : Text) (meta : Map Text v.Value) (start : r.Time) (a : A)
        (x : Completion v.Value A × W)
        → x.0 ≡ returned a
        → ((b : A) (w : W)
            → (completed r l name meta start b
                (info r l (name ++ codes " completed") (with_duration r l meta start w) w)).0
              ≡ raised e)
        → (settled r l name meta start x).0 ≡ raised e
    settled-raised e name meta start a (returned b, w) h k = k b w
    settled-raised e name meta start a (raised err, w) h k = cc

    -- Where every entry has a text and the destination throws at every text, the timing of an
    -- action that returned raises what the destination throws, if the logger writes at its level.
    pub time-loses :
        (written : Map Text v.Value → Text)
        → ((m : Map Text v.Value) → r.stringify m ≡ returned (written m))
        → (e : v.Value) → ((s : Text) (w : W) → (l.destination s w).0 ≡ raised e)
        → should_log l info_level ≡ true
        → should_log l error_level ≡ true
        → (name : Text) (fn : Action v W A) (meta : Map Text v.Value) (w : W) (a : A)
        → (fn w).0 ≡ returned a
        → (time r l name fn meta w).0 ≡ raised e
    unfolding time on_failure error info
    time-loses written s e d i x name fn meta w a h =
        let start = r.performance_now w in
        let failed = λ (u : W). with_duration r l meta start u in
        settled-raised e name meta start a (fn w) h (λ b u.
          completed-raised e name meta start b (info r l (name ++ codes " completed") (failed u) u)
            (log-raises written s e d info_level (name ++ codes " completed") (failed u) v.undefined
              u i)
            (λ err z.
              raising-raised e err (error r l (name ++ codes " failed") err (failed z) z) (
                log-raises written s e d error_level (name ++ codes " failed") (failed z) err z x)))
