-- ===== src/Queue/MessageQueue.antt =====
-- packages/wazeko/src/queue/message-queue.ts. The queue runs as a machine that takes one event at
-- a time: a call of a method, or the resumption of a job's `processJob` behind an `await`. A job
-- on which an event resumes is named by its place among the jobs in progress.
pub mod Trigger
pub mod Routing
use wazeko.Prelude.{
  ℕ, zero, suc, ◌+◌, ◌-◌, ◌*◌, ◌^◌, Bool, true, false, Option, none, some, List, [], ◌∷◌, ◌++◌, ltb,
  leb, if◌then◌else◌, length, remove_at, set_at,
}
use wazeko.Text.{Text}
use wazeko.Types.Jid.{JidOrText}
use wazeko.Types.Message.{Message, MessageContent}
use wazeko.Queue.Job.{
  MessagePriority, high, normal, low, pending, processing, completed, failed, MessageJobOptions,
  MessageJob, QueueStats, Effect, job_enqueued, job_processing, job_completed, job_retry,
  job_failed, resolve, reject,
}
use wazeko.Queue.RateLimiter.{or_else}

-- Where a job in progress waits: for the limiter and the sender, out its backoff, or, its
-- `processJob` over, for the handler of `finally`.
pub data Phase : Type 0 where
  dispatching finished : Phase
  backing_off : ℕ → Phase

pub record InProgress : Type 0 where
  pub job : MessageJob
  pub phase : Phase

pub record MessageQueue : Type 0 where
  pub high_queue : List MessageJob
  pub normal_queue : List MessageJob
  pub low_queue : List MessageJob
  pub running_workers : ℕ
  pub max_concurrency : ℕ
  pub is_processing : Bool
  pub completed_count : ℕ
  pub failed_count : ℕ
  pub processing_count : ℕ
  pub in_progress : List InProgress
  pub effects : List Effect

unfoldable pub create : Option ℕ → Option Bool → MessageQueue
create concurrency auto_start = record {
  high_queue = [];
  normal_queue = [];
  low_queue = [];
  running_workers = 0;
  max_concurrency = or_else concurrency 1;
  is_processing = or_else auto_start true;
  completed_count = 0;
  failed_count = 0;
  processing_count = 0;
  in_progress = [];
  effects = [];
}

abbrev pub emit : Effect → MessageQueue → MessageQueue
emit e q = record q { effects = q.effects ++ e ∷ [] }

-- The rest of `processJob`'s first part: it runs up to the first `await`.
abbrev pub started : MessageJob → MessageJob
started job = record job { status = processing }

unfoldable pub process_job : MessageJob → MessageQueue → MessageQueue
process_job job q = record (emit (job_processing (started job)) q) {
  in_progress = q.in_progress ++ record { job = started job; phase = dispatching } ∷ [];
}

-- `getNextJob`, over the three queues.
abbrev pub take_low : List MessageJob → MessageQueue → Option (MessageJob × MessageQueue)
take_low [] q = none
take_low (job ∷ rest) q = some (job, record q { low_queue = rest })

abbrev pub take_normal : List MessageJob → MessageQueue → Option (MessageJob × MessageQueue)
take_normal [] q = take_low q.low_queue q
take_normal (job ∷ rest) q = some (job, record q { normal_queue = rest })

abbrev pub take_high : List MessageJob → MessageQueue → Option (MessageJob × MessageQueue)
take_high [] q = take_normal q.normal_queue q
take_high (job ∷ rest) q = some (job, record q { high_queue = rest })

unfoldable pub get_next_job : MessageQueue → Option (MessageJob × MessageQueue)
get_next_job q = take_high q.high_queue q

unfoldable pub start_job : MessageJob → MessageQueue → MessageQueue
unfolding process_job
start_job job q = process_job job (record q {
  running_workers = q.running_workers + 1;
  processing_count = q.processing_count + 1;
})

abbrev pub pending_count : MessageQueue → ℕ
pending_count q = length q.high_queue + length q.normal_queue + length q.low_queue

-- The `while` loop of `triggerProcessing`. Each round takes a job off a queue, so that as many
-- rounds as jobs wait are enough.
unfoldable pub trigger_loop : ℕ → MessageQueue → MessageQueue
unfolding get_next_job start_job
trigger_loop zero q = q
trigger_loop (suc rounds) q =
    if ltb q.running_workers q.max_concurrency
    then elim (get_next_job q) [
      | none ↦ q
      | some (job, q') ↦ trigger_loop rounds (start_job job q')
    ]
    else q

unfoldable pub trigger_processing : MessageQueue → MessageQueue
unfolding trigger_loop
trigger_processing q = if q.is_processing then trigger_loop (pending_count q) q else q

-- `push` and `unshift` on the queue of the job's priority.
abbrev pub push_to : MessagePriority → MessageJob → MessageQueue → MessageQueue
push_to high job q = record q { high_queue = q.high_queue ++ job ∷ [] }
push_to normal job q = record q { normal_queue = q.normal_queue ++ job ∷ [] }
push_to low job q = record q { low_queue = q.low_queue ++ job ∷ [] }

abbrev pub unshift_to : MessagePriority → MessageJob → MessageQueue → MessageQueue
unshift_to high job q = record q { high_queue = job ∷ q.high_queue }
unshift_to normal job q = record q { normal_queue = job ∷ q.normal_queue }
unshift_to low job q = record q { low_queue = job ∷ q.low_queue }

-- `fresh_id` is the generated id, and `now` the clock.
unfoldable pub new_job : JidOrText → MessageContent → MessageJobOptions → Text → ℕ → MessageJob
new_job to content options fresh_id now = record {
  id = or_else options.custom_id fresh_id;
  to = to;
  content = content;
  priority = or_else options.priority normal;
  max_retries = or_else options.max_retries 3;
  retry_count = 0;
  retry_delay_ms = or_else options.retry_delay_ms 1000;
  timeout_ms = or_else options.timeout_ms 30000;
  created_at = now;
  status = pending;
}

unfoldable pub enqueue :
    JidOrText → MessageContent → MessageJobOptions → Text → ℕ → MessageQueue → MessageQueue
unfolding new_job trigger_processing
enqueue to content options fresh_id now q =
    let job = new_job to content options fresh_id now in
    trigger_processing (emit (job_enqueued job) (push_to job.priority job q))

-- The handler of `finally`, for the job at place `i`.
unfoldable pub settle : ℕ → MessageQueue → MessageQueue
unfolding trigger_processing
settle i q = trigger_processing (record q {
  running_workers = q.running_workers - 1;
  processing_count = q.processing_count - 1;
  in_progress = remove_at i q.in_progress;
})

abbrev pub move_to : ℕ → MessageJob → Phase → MessageQueue → MessageQueue
move_to i job phase q = record q {
  in_progress = set_at i (record { job = job; phase = phase }) q.in_progress;
}

-- The message was sent.
unfoldable pub complete : ℕ → MessageJob → Message → MessageQueue → MessageQueue
complete i job result q =
    let sent = record job { status = completed } in
    emit (resolve sent result) (
      emit (job_completed sent result)
        (move_to i sent finished (record q { completed_count = q.completed_count + 1 })))

-- `job.retryDelayMs * Math.pow(2, job.retryCount - 1)`.
unfoldable pub retry_delay : MessageJob → ℕ
retry_delay job = job.retry_delay_ms * 2 ^ (job.retry_count - 1)

-- The limiter or the sender threw.
unfoldable pub fail : ℕ → MessageJob → Text → MessageQueue → MessageQueue
unfolding retry_delay
fail i job error q =
    let counted = record job { retry_count = job.retry_count + 1 } in
    let given_up = record counted { status = failed } in
    if leb counted.retry_count counted.max_retries
    then emit (job_retry counted error counted.retry_count)
        (move_to i counted (backing_off (retry_delay counted)) q)
    else emit (reject given_up error) (
        emit (job_failed given_up error)
          (move_to i given_up finished (record q { failed_count = q.failed_count + 1 })))

-- The backoff is over.
unfoldable pub requeue : ℕ → MessageJob → MessageQueue → MessageQueue
requeue i job q = unshift_to job.priority job (move_to i job finished q)

unfoldable pub start : MessageQueue → MessageQueue
unfolding trigger_processing
start q = trigger_processing (record q { is_processing = true })

unfoldable pub pause : MessageQueue → MessageQueue
pause q = record q { is_processing = false }

unfoldable pub clear : MessageQueue → MessageQueue
clear q = record q { high_queue = []; normal_queue = []; low_queue = [] }

unfoldable pub get_stats : MessageQueue → QueueStats
get_stats q = record {
  pending_count = pending_count q;
  high_priority_count = length q.high_queue;
  normal_priority_count = length q.normal_queue;
  low_priority_count = length q.low_queue;
  processing_count = q.processing_count;
  completed_count = q.completed_count;
  failed_count = q.failed_count;
}
