-- ===== src/Queue/Examples.antt =====
-- packages/wazeko/src/queue: the theorems on the limiter and the queue at concrete calls.
use wazeko.Prelude.{◌≤◌, ◌≡◌, refl, true, false, none, some, List, [], ◌∷◌, arith, length}
use wazeko.Text.{codes}
use wazeko.Types.Jid.{text}
use wazeko.Types.Message.{MessageContent}
use wazeko.Queue.Job.{MessageJobOptions, high, low}
use wazeko.Queue.RateLimiter.{
  AntiBanRateLimiter, Call, live, get_quota_wait_time, quota_sleep, jitter_for, record_send,
  acquire, sleeps, reset,
}
use wazeko.Queue.RateLimiter.Window.{AreTimed, length-live-send_times, overlapping_sends}
use wazeko.Queue.MessageQueue.{
  MessageQueue, create, enqueue, trigger_processing, trigger_loop, fail, requeue, settle,
}
use wazeko.Queue.MessageQueue.Trigger.{Started, trigger_processing-Started}
use wazeko.Queue.Machine.{Event, step, enqueues, throws, wakes, settles, run}
use wazeko.Queue.Machine.Bounds.{IsBounded, run-IsBounded}
use wazeko.Queue.Machine.Busy.{IsBusy, run-IsBusy}
use wazeko.Queue.Machine.Balance.{IsBalanced, run-IsBalanced}

abbrev limiter : AntiBanRateLimiter
limiter = record {
  min_jitter = 10;
  max_jitter = 20;
  max_messages = 1;
  window = 100;
  timestamps = [];
}

abbrev calls : List Call
calls =
    record { begins = 0; ends = 15; is_high_priority = false; draw = 5 }
    ∷ record { begins = 20; ends = 200; is_high_priority = true; draw = 3 }
    ∷ []

calls-AreTimed : AreTimed 0 (reset limiter) calls
unfolding reset sleeps acquire get_quota_wait_time quota_sleep jitter_for record_send live
calls-AreTimed = (omega arith, omega arith, (omega arith, omega arith, tt))

length-live-send_times_example : length (live 100 200 (15 ∷ 200 ∷ [])) ≤ 1
length-live-send_times_example = length-live-send_times calls limiter 0 (omega arith) calls-AreTimed

overlapping_sends_example :
    let (wait, l₁) = get_quota_wait_time 0 limiter in
    let (wait', l₂) = get_quota_wait_time 0 l₁ in
    (quota_sleep wait ≡ 0)
    × (quota_sleep wait' ≡ 0)
    × (length (live 100 18 (record_send 18 (record_send 12 l₂)).timestamps) ≡ 2)
unfolding live
overlapping_sends_example =
    overlapping_sends limiter 0 12 18 (omega arith) refl (omega arith) (omega arith) (omega arith)
      refl

abbrev options : MessageJobOptions
options = record {
  priority = some high;
  max_retries = some 0;
  retry_delay_ms = none;
  timeout_ms = none;
  custom_id = none;
}

abbrev plain_options : MessageJobOptions
plain_options = record {
  priority = some low;
  max_retries = none;
  retry_delay_ms = none;
  timeout_ms = none;
  custom_id = none;
}

-- Two jobs, of which the urgent one fails for good and the other one is tried again.
abbrev events : List Event
events =
    enqueues (text (codes "62811")) (MessageContent.text (codes "hi")) plain_options (codes "a") 5
    ∷ enqueues (text (codes "62812")) (MessageContent.text (codes "otp")) options (codes "b") 6
    ∷ throws 0 (codes "offline")
    ∷ wakes 0
    ∷ settles 0
    ∷ throws 0 (codes "offline")
    ∷ settles 0
    ∷ []

run-IsBounded_example : IsBounded (run events (create none none))
run-IsBounded_example = run-IsBounded none none events

run-IsBalanced_example : IsBalanced (run events (create none none))
run-IsBalanced_example =
    run-IsBalanced none none events (tt, (tt, (tt, (tt, (tt, (tt, (tt, tt)))))))

run-IsBusy_example : IsBusy (run events (create none none))
unfolding run step create enqueue trigger_processing trigger_loop fail requeue settle
run-IsBusy_example = run-IsBusy none none events refl

abbrev waiting_queue : MessageQueue
unfolding create enqueue
waiting_queue =
    record (enqueue (text (codes "62811")) (MessageContent.text (codes "hi")) plain_options
      (codes "a") 5 (create (some 2) (some false))) { is_processing = true }

trigger_processing-Started_example : Started waiting_queue 2 (trigger_processing waiting_queue)
unfolding waiting_queue create enqueue
trigger_processing-Started_example = trigger_processing-Started waiting_queue refl
