-- ===== src/Queue/RateLimiter/Window.antt =====
-- packages/wazeko/src/queue/rate-limiter.ts: how many messages a window holds.
use wazeko.Prelude.{
  ◌-◌, true, false, Bool, if◌then◌else◌, ℕ, ◌+◌, ◌≤◌, ◌<◌, ◌≡◌, refl, ap, ◌∙◌, sym, false, some,
  List, [], ◌∷◌, ◌++◌, arith, leb, if◌then◌else◌, length, length-append, append-nil, append_assoc,
}
use wazeko.Queue.RateLimiter.{
  AntiBanRateLimiter, Call, live, get_quota_wait_time, wait_for_oldest, quota_sleep, record_send,
  jitter_for, get_random_jitter, acquire, sleeps, reset,
}

length-live-le : (window now : ℕ) (ts : List ℕ) → length (live window now ts) ≤ length ts
unfolding live
length-live-le window now [] = omega arith
length-live-le window now (t ∷ ts) = ground (arith, length-live-le window now ts)

-- Time only takes timestamps out of the window.
length-live_mono :
    (window now later : ℕ) (ts : List ℕ)
    → now ≤ later
    → length (live window later ts) ≤ length (live window now ts)
unfolding live
length-live_mono window now later [] h = omega arith
length-live_mono window now later (t ∷ ts) h = ground (arith, length-live_mono window now later ts)

live-live :
    (window now later : ℕ) (ts : List ℕ)
    → now ≤ later
    → live window later (live window now ts) ≡ live window later ts
unfolding live
live-live window now later [] h = refl
live-live window now later (t ∷ ts) h = ground (arith, live-live window now later ts)

live-append :
    (window now : ℕ) (ts us : List ℕ)
    → live window now (ts ++ us) ≡ live window now ts ++ live window now us
unfolding live
live-append window now [] us = refl
live-append window now (t ∷ ts) us = ground (arith, live-append window now ts us)

length-live-one : (window now ts : ℕ) → now < ts + window → length (live window now (ts ∷ [])) ≡ 1
unfolding live
length-live-one window now ts h = ground arith

-- With `kept` in the window when the call begins, at its end the window holds no more than it may.
length-live-send :
    (window begins ends most : ℕ) (kept : List ℕ)
    → 0 < most
    → length kept ≤ most
    → begins
        + quota_sleep
            (if leb most (length kept) then wait_for_oldest window begins kept else some 0)
      ≤ ends
    → length (live window ends (kept ++ ends ∷ [])) ≤ most
length-live-send window begins ends most [] pos h sleep =
    omega (arith, length-live-le window ends (ends ∷ []))
length-live-send window begins ends most (oldest ∷ rest) pos h sleep =
    let here = length-live-le window ends (rest ++ ends ∷ []) in
    let longer = length-append rest (ends ∷ []) in
    unfold live quota_sleep in ground (arith, here, longer)

-- One uninterrupted call of `acquire` keeps the window within its limit.
length-live-acquire :
    (c : Call) (l : AntiBanRateLimiter)
    → 0 < l.max_messages
    → length (live l.window c.begins l.timestamps) ≤ l.max_messages
    → c.begins + sleeps c l ≤ c.ends
    → length (live l.window c.ends (acquire c l).1.timestamps) ≤ l.max_messages
unfolding acquire sleeps
length-live-acquire c l pos h sleep =
    length-live-send l.window c.begins c.ends l.max_messages (live l.window c.begins l.timestamps)
      pos h (omega arith)

-- Calls one after the other: none begins before the one ahead of it has ended, and each lasts at
-- least as long as it sleeps.
abbrev pub AreTimed : ℕ → AntiBanRateLimiter → List Call → Type 0
AreTimed now l [] = Unit {0}
AreTimed now l (c ∷ cs) =
    (now ≤ c.begins) × (c.begins + sleeps c l ≤ c.ends) × AreTimed c.ends (acquire c l).1 cs

unfoldable pub run : AntiBanRateLimiter → List Call → AntiBanRateLimiter
run l [] = l
run l (c ∷ cs) = run (acquire c l).1 cs

-- When the last of the calls ended, `now` if there is none.
abbrev pub last_end : ℕ → List Call → ℕ
last_end now [] = now
last_end now (c ∷ cs) = last_end c.ends cs

abbrev pub send_times : List Call → List ℕ
send_times [] = []
send_times (c ∷ cs) = c.ends ∷ send_times cs

-- What the limiter remembers of the sends `past` is what still counts at `now`.
record Remembers (now : ℕ) (past : List ℕ) (l : AntiBanRateLimiter) : Type 0 where
  positive : 0 < l.max_messages
  within : length (live l.window now l.timestamps) ≤ l.max_messages
  faithful : (later : ℕ) → now ≤ later → live l.window later l.timestamps ≡ live l.window later past

acquire-faithful :
    (c : Call) (l : AntiBanRateLimiter) (past : List ℕ) (now later : ℕ)
    → now ≤ c.begins
    → c.begins ≤ later
    → live l.window later l.timestamps ≡ live l.window later past
    → live l.window later (acquire c l).1.timestamps ≡ live l.window later (past ++ c.ends ∷ [])
unfolding acquire
acquire-faithful c l past now later h k same =
    live-append l.window later (live l.window c.begins l.timestamps) (c.ends ∷ [])
    ∙ ap (λ (ts : List ℕ). ts ++ live l.window later (c.ends ∷ []))
        (live-live l.window c.begins later l.timestamps k ∙ same)
    ∙ sym (live-append l.window later past (c.ends ∷ []))

acquire-Remembers :
    (c : Call) (l : AntiBanRateLimiter) (past : List ℕ) (now : ℕ)
    → now ≤ c.begins
    → c.begins + sleeps c l ≤ c.ends
    → Remembers now past l
    → Remembers c.ends (past ++ c.ends ∷ []) (acquire c l).1
acquire-Remembers c l past now h sleep r = record {
  positive = unfold acquire in r.positive;
  within =
      unfold acquire in
      (unfold sleeps in
        length-live-acquire c l r.positive
          (omega (arith, r.within, length-live_mono l.window now c.begins l.timestamps h)) sleep);
  faithful = λ later k.
      unfold acquire in
      acquire-faithful c l past now later h (omega arith) (r.faithful later (omega arith));
}

run-Remembers :
    (cs : List Call) (l : AntiBanRateLimiter) (past : List ℕ) (now : ℕ)
    → AreTimed now l cs
    → Remembers now past l
    → Remembers (last_end now cs) (past ++ send_times cs) (run l cs)
unfolding run
run-Remembers [] l past now timed r = rw (append-nil past) r
run-Remembers (c ∷ cs) l past now (after, slept, timed) r = rw append_assoc at (
    run-Remembers cs (acquire c l).1 (past ++ c.ends ∷ []) c.ends timed
      (acquire-Remembers c l past now after slept r))

run_settings :
    (cs : List Call) (l : AntiBanRateLimiter)
    → ((run l cs).window ≡ l.window) × ((run l cs).max_messages ≡ l.max_messages)
unfolding run acquire
run_settings [] l = (refl, refl)
run_settings (c ∷ cs) l = run_settings cs (acquire c l).1

-- Calls of `acquire` that follow one another on a limiter without past sends: of all their sends,
-- those in the window that ends with the last one are no more than the limit. Every send is the
-- last one of the calls up to it.
pub length-live-send_times :
    (cs : List Call) (l : AntiBanRateLimiter) (now : ℕ)
    → 0 < l.max_messages
    → AreTimed now (reset l) cs
    → length (live l.window (last_end now cs) (send_times cs)) ≤ l.max_messages
unfolding reset
length-live-send_times cs l now pos timed =
    let start : Remembers now [] (reset l) = record {
      positive = pos;
      within = unfold live in omega arith;
      faithful = λ later k. refl;
    } in
    let r = run-Remembers cs (reset l) [] now timed start in
    let (window, most) = run_settings cs (reset l) in
    let seen = r.faithful (last_end now cs) (omega arith) in rw (seen, window, most) at r.within

-- Two calls that overlap, as those of two workers may: with one place left in the window both
-- find it, neither sleeps for the quota, and the window then holds one message too many.
pub overlapping_sends :
    (l : AntiBanRateLimiter) (begins first second : ℕ)
    → 0 < l.window
    → length (live l.window second l.timestamps) + 1 ≡ l.max_messages
    → begins ≤ first
    → first ≤ second
    → second < first + l.window
    → length (live l.window begins l.timestamps) + 1 ≡ l.max_messages
    → let (wait, l₁) = get_quota_wait_time begins l in
      let (wait', l₂) = get_quota_wait_time begins l₁ in
      (quota_sleep wait ≡ 0)
      × (quota_sleep wait' ≡ 0)
      × (length (live l.window second (record_send second (record_send first l₂)).timestamps)
          ≡ l.max_messages + 1)
unfolding get_quota_wait_time quota_sleep record_send
overlapping_sends l begins first second w here h k near now =
    let again = live-live l.window begins begins l.timestamps (omega arith) in
    let later = live-live l.window begins second l.timestamps (omega arith) in
    let kept = live l.window begins l.timestamps in
    let room : leb l.max_messages (length kept) ≡ false = ground arith in
    rw (again, room)
      (
        refl,
        refl,
        ground (
          arith,
          later,
          live-append l.window second (kept ++ first ∷ []) (second ∷ []),
          live-append l.window second kept (first ∷ []),
          length-append (live l.window second (kept ++ first ∷ []))
              (live l.window second (second ∷ [])),
          length-append (live l.window second kept) (live l.window second (first ∷ [])),
          length-live-one l.window second first,
          length-live-one l.window second second,
        ),
      )

-- The jitter of a message of high priority lies between 50 and 199 milliseconds, and that of
-- another between the two bounds of the options.
pub jitter_bounds :
    (l : AntiBanRateLimiter) (is_high_priority : Bool) (draw : ℕ)
    → l.min_jitter ≤ l.max_jitter
    → draw < (if is_high_priority then 150 else l.max_jitter - l.min_jitter + 1)
    → ((if is_high_priority then 50 else l.min_jitter) ≤ jitter_for is_high_priority draw l)
      × (jitter_for is_high_priority draw l ≤ (if is_high_priority then 199 else l.max_jitter))
unfolding jitter_for get_random_jitter
jitter_bounds l true draw h d = omega arith
jitter_bounds l false draw h d = omega arith
