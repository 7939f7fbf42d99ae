-- ===== src/Media/Cleanup/Timer.antt =====
-- packages/wazeko/src/media/ttl-cleanup.ts: the timer of a manager.
use mathlib.Core.Option.{some-injective}
use wazeko.Prelude.{
  subst, sym, ◌∙◌, append-nil, ap, ℕ, ◌+◌, ◌<◌, ◌≡◌, refl, ap, Bool, true, false, Option, none,
  some, List, [], ◌∷◌, ◌++◌, arith, All,
}
use wazeko.Media.Cleanup.{TempCleanupManager, Timers, start, stop, without, clear}

-- A call of a manager.
pub data TimerCall : Type 0 where
  to_start to_stop : TimerCall

unfoldable pub call : TimerCall → TempCleanupManager × Timers → TempCleanupManager × Timers
unfolding start stop
call to_start (m, t) = start m t
call to_stop (m, t) = stop m t

unfoldable pub call_all : List TimerCall → TempCleanupManager × Timers → TempCleanupManager × Timers
unfolding call
call_all [] x = x
call_all (c ∷ calls) x = call_all calls (call c x)

-- Whether the manager is on after the calls, when it was at first.
abbrev pub is_on : Bool → List TimerCall → Bool
is_on on [] = on
is_on on (to_start ∷ calls) = is_on true calls
is_on on (to_stop ∷ calls) = is_on false calls

abbrev pub on_of : Option ℕ → Bool
on_of none = false
on_of (some handle) = true

-- The timers that are on are those of others and the manager's own, the timer that it keeps, which
-- came last and has its interval.
abbrev pub own : Option ℕ → ℕ → List (ℕ × ℕ)
own none interval = []
own (some handle) interval = (handle, interval) ∷ []

abbrev pub IsBefore : ℕ → ℕ × ℕ → Type 0
IsBefore next (h, interval) = h < next

pub record IsTimed (others : List (ℕ × ℕ)) (interval : ℕ) (on : Bool)
    (x : TempCleanupManager × Timers) : Type 0 where
  pub active : x.1.active ≡ others ++ own x.0.timer interval
  pub kept : x.0.interval_ms ≡ interval
  pub switched : on_of x.0.timer ≡ on
  pub older : (h : ℕ) → x.0.timer ≡ some h → All (IsBefore h) others × (h < x.1.next)
  pub fresh : All (IsBefore x.1.next) others

IsBefore-mono :
    (a b : ℕ) (others : List (ℕ × ℕ))
    → a < b + 1
    → All (IsBefore a) others
    → All (IsBefore b) others
IsBefore-mono a b [] h k = tt
IsBefore-mono a b ((i, v) ∷ others) h (k, ks) = (omega arith, IsBefore-mono a b others h ks)

without-others :
    (handle interval : ℕ) (others : List (ℕ × ℕ))
    → All (IsBefore handle) others
    → without handle (others ++ (handle, interval) ∷ []) ≡ others
without-others handle interval [] k = ground arith
without-others handle interval ((i, v) ∷ others) (k, ks) =
    ground (arith, without-others handle interval others ks)

clear-next : (o : Option ℕ) (t : Timers) → (clear o t).next ≡ t.next
clear-next none t = refl
clear-next (some h) t = refl

module _ (others : List (ℕ × ℕ)) (interval : ℕ) where
  clear-active :
      (o : Option ℕ) (t : Timers)
      → t.active ≡ others ++ own o interval
      → ((h : ℕ) → o ≡ some h → All (IsBefore h) others × (h < t.next))
      → (clear o t).active ≡ others
  clear-active none t e k = e ∙ append-nil others
  clear-active (some h) t e k = rw e (without-others h interval others (k h refl).0)

  stop-IsTimed :
      (on : Bool) (m : TempCleanupManager) (t : Timers)
      → IsTimed others interval on (m, t)
      → IsTimed others interval false (stop m t)
  unfolding stop
  stop-IsTimed on m t h = record {
    active = clear-active m.timer t h.active h.older ∙ sym (append-nil others);
    kept = h.kept;
    switched = refl;
    older = λ i e. cc;
    fresh = rw (clear-next m.timer t) h.fresh;
  }

  start-IsTimed :
      (on : Bool) (m : TempCleanupManager) (t : Timers)
      → IsTimed others interval on (m, t)
      → IsTimed others interval true (start m t)
  unfolding start stop
  start-IsTimed on m t h =
      let next = t.next in
      record {
        active = rw (clear-active m.timer t h.active h.older, h.kept) refl;
        kept = h.kept;
        switched = refl;
        older = λ i e.
            let same : next ≡ i = some-injective _ i (ap some (sym (clear-next m.timer t)) ∙ e) in
            (
              subst (λ j. All (IsBefore j) others) same h.fresh,
              ground (arith, clear-next m.timer t),
            );
        fresh =
            IsBefore-mono t.next ((clear m.timer t).next + 1) others
              (omega (arith, clear-next m.timer t)) h.fresh;
      }

  -- Where no timer of a manager is on but the one that it keeps, this stays so whatever series of
  -- starts and stops follows, the timers of others go on, and the manager's own is on, with its
  -- interval, just if the last call was a start or, with no call, it was on before.
  pub call_all-IsTimed :
      (calls : List TimerCall) (on : Bool) (m : TempCleanupManager) (t : Timers)
      → IsTimed others interval on (m, t)
      → IsTimed others interval (is_on on calls) (call_all calls (m, t))
  unfolding call_all call
  call_all-IsTimed [] on m t h = h
  call_all-IsTimed (to_start ∷ calls) on m t h =
      call_all-IsTimed calls true _ _ (start-IsTimed on m t h)
  call_all-IsTimed (to_stop ∷ calls) on m t h =
      call_all-IsTimed calls false _ _ (stop-IsTimed on m t h)
