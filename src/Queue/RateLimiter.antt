-- ===== src/Queue/RateLimiter.antt =====
-- packages/wazeko/src/queue/rate-limiter.ts. Times are in milliseconds. A clock reading and a
-- random draw are arguments; a draw `d` stands for `Math.floor(Math.random() * n)`, so that `d < n`.
pub mod Window
use wazeko.Prelude.{
  ℕ, ◌+◌, ◌-◌, Bool, Option, none, some, List, [], ◌∷◌, ◌++◌, ltb, leb, if◌then◌else◌, length,
}

pub record RateLimiterOptions : Type 0 where
  pub min_jitter_ms : Option ℕ
  pub max_jitter_ms : Option ℕ
  pub max_messages_per_window : Option ℕ
  pub window_ms : Option ℕ

pub record AntiBanRateLimiter : Type 0 where
  pub min_jitter : ℕ
  pub max_jitter : ℕ
  pub max_messages : ℕ
  pub window : ℕ
  pub timestamps : List ℕ

-- `option ?? value`.
abbrev pub or_else {ℓ} : {A : Type ℓ} → Option A → A → A
or_else none value = value
or_else (some a) value = a

unfoldable pub create : RateLimiterOptions → AntiBanRateLimiter
create options = record {
  min_jitter = or_else options.min_jitter_ms 1500;
  max_jitter = or_else options.max_jitter_ms 4000;
  max_messages = or_else options.max_messages_per_window 30;
  window = or_else options.window_ms 60000;
  timestamps = [];
}

unfoldable pub get_random_jitter : ℕ → AntiBanRateLimiter → ℕ
get_random_jitter draw l = draw + l.min_jitter

-- `timestamps.filter((ts) => now - ts < windowMs)`.
unfoldable pub live : ℕ → ℕ → List ℕ → List ℕ
live window now [] = []
live window now (ts ∷ rest) =
    let kept = live window now rest in if ltb now (ts + window) then ts ∷ kept else kept

-- `Math.max(0, windowMs - (now - timestamps[0]))`; without a first timestamp it is NaN, `none`.
abbrev pub wait_for_oldest : ℕ → ℕ → List ℕ → Option ℕ
wait_for_oldest window now [] = none
wait_for_oldest window now (oldest ∷ rest) = some (window + oldest - now)

unfoldable pub get_quota_wait_time : ℕ → AntiBanRateLimiter → Option ℕ × AntiBanRateLimiter
unfolding live
get_quota_wait_time now l =
    let pruned = live l.window now l.timestamps in
    (
      (if leb l.max_messages (length pruned) then wait_for_oldest l.window now pruned else some 0),
      record l { timestamps = pruned },
    )

-- `quotaWait > 0` is false of NaN, and then there is no wait.
unfoldable pub quota_sleep : Option ℕ → ℕ
quota_sleep none = 0
quota_sleep (some wait) = wait

unfoldable pub jitter_for : Bool → ℕ → AntiBanRateLimiter → ℕ
unfolding get_random_jitter
jitter_for is_high_priority draw l =
    if is_high_priority then draw + 50 else get_random_jitter draw l

-- The end of `acquire`, when both waits are over.
unfoldable pub record_send : ℕ → AntiBanRateLimiter → AntiBanRateLimiter
record_send now l = record l { timestamps = l.timestamps ++ now ∷ [] }

-- A call of `acquire`: when it begins, when its waits are over, and what it draws.
pub record Call : Type 0 where
  pub begins : ℕ
  pub ends : ℕ
  pub is_high_priority : Bool
  pub draw : ℕ

-- A whole call that no other call interleaves with: the jitter returned, and the state.
unfoldable pub acquire : Call → AntiBanRateLimiter → ℕ × AntiBanRateLimiter
unfolding get_quota_wait_time jitter_for record_send
acquire c l =
    let pruned = (get_quota_wait_time c.begins l).1 in
    (jitter_for c.is_high_priority c.draw pruned, record_send c.ends pruned)

-- How long the call sleeps.
unfoldable pub sleeps : Call → AntiBanRateLimiter → ℕ
unfolding get_quota_wait_time quota_sleep jitter_for
sleeps c l =
    quota_sleep (get_quota_wait_time c.begins l).0
    + jitter_for c.is_high_priority c.draw (get_quota_wait_time c.begins l).1

unfoldable pub reset : AntiBanRateLimiter → AntiBanRateLimiter
reset l = record l { timestamps = [] }
