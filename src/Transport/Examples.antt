-- ===== src/Transport/Examples.antt =====
-- packages/wazeko-transport/src/reconnect.ts: the theorems at intervals that are whole numbers.
use wazeko.Prelude.{ℕ, ◌*◌, ◌≤◌, min, some, arith, All}
use wazeko.Transport.Reconnect.{Number, ReconnectManager, delays, reset}
use wazeko.Transport.Reconnect.Bounds.{delays-reset}

abbrev whole : Number ℕ
whole = record { minimum = λ a b. min a b; times = λ a b. a * b }

abbrev manager : ReconnectManager ℕ
manager = record {
  config = record {
    initial_interval_ms = 1000;
    max_interval_ms = 30000;
    multiplier = 2;
    max_retries = some 5;
  };
  current_attempt = 2;
  current_interval_ms = 4000;
}

delays-reset_example : All (λ d. d ≤ 30000) (delays whole 7 (reset manager))
delays-reset_example =
    delays-reset whole (λ a b. a ≤ b) 7 manager (λ a b. omega arith) (omega arith)
