-- ===== src/Queue/Machine/Bounds.antt =====
-- packages/wazeko/src/queue/message-queue.ts: the bounds that every reachable state keeps.
use wazeko.Prelude.{
  ℕ, ◌+◌, ◌≤◌, ◌≡◌, refl, sym, ap, ◌∙◌, subst, set_at, remove_at, ◌-◌, Bool, Option, true, List, [],
  ◌∷◌, arith, length, length-append, length-set_at, remove_at, ◌-◌, length-remove_at, leb→le,
  if-cases, All, All-append, All-set_at, remove_at, ◌-◌, All-remove_at, All-get_elem?,
}
use wazeko.Text.{Text}
use wazeko.Types.Jid.{JidOrText}
use wazeko.Types.Message.{Message, MessageContent}
use wazeko.Queue.Job.{
  MessagePriority, high, normal, low, job_enqueued, completed, failed, MessageJobOptions,
  MessageJob,
}
use wazeko.Queue.MessageQueue.{
  Phase, MessageQueue, InProgress, dispatching, finished, backing_off, create, new_job, push_to,
  unshift_to, start_job, trigger_processing, enqueue, complete, fail, requeue, settle, start, pause,
  clear, emit, move_to,
}
use wazeko.Queue.MessageQueue.Trigger.{waiting, begin, trigger_processing-preserves}
use wazeko.Queue.Machine.{Event, run}
use wazeko.Queue.Machine.Induction.{Stands, IsKept, run-keeps}
use wazeko.Queue.MessageQueue.Routing.{All-push_to, All-unshift_to}

abbrev pub CanRun : MessageJob → Type 0
CanRun job = job.retry_count ≤ job.max_retries

-- A job that is over may have used one attempt more than its retries.
abbrev pub CanStand : Phase → MessageJob → Type 0
CanStand dispatching job = CanRun job
CanStand (backing_off d) job = CanRun job
CanStand finished job = job.retry_count ≤ job.max_retries + 1

abbrev pub InBounds : InProgress → Type 0
InBounds p = CanStand p.phase p.job

pub record AreBounded (workers limit processing : ℕ) (jobs : List MessageJob)
    (running : List InProgress) : Type 0 where
  pub counted : workers ≡ length running
  pub tracked : processing ≡ workers
  pub bounded : workers ≤ limit
  pub waiting_retries : All CanRun jobs
  pub running_retries : All InBounds running

abbrev pub IsBounded : MessageQueue → Type 0
IsBounded q =
    AreBounded q.running_workers q.max_concurrency q.processing_count (waiting q) q.in_progress

with_waiting :
    {a b c : ℕ} {jobs : List MessageJob} {ps : List InProgress} (jobs' : List MessageJob)
    → AreBounded a b c jobs ps
    → All CanRun jobs'
    → AreBounded a b c jobs' ps
with_waiting jobs' k h = record {
  counted = k.counted;
  tracked = k.tracked;
  bounded = k.bounded;
  waiting_retries = h;
  running_retries = k.running_retries;
}

push_to-IsBounded :
    (priority : MessagePriority) (job : MessageJob) (q : MessageQueue)
    → CanRun job
    → IsBounded q
    → IsBounded (push_to priority job q)
push_to-IsBounded high job q h k =
    with_waiting _ k (All-push_to CanRun job q h k.waiting_retries high)
push_to-IsBounded normal job q h k =
    with_waiting _ k (All-push_to CanRun job q h k.waiting_retries normal)
push_to-IsBounded low job q h k =
    with_waiting _ k (All-push_to CanRun job q h k.waiting_retries low)

unshift_to-IsBounded :
    (priority : MessagePriority) (job : MessageJob) (q : MessageQueue)
    → CanRun job
    → IsBounded q
    → IsBounded (unshift_to priority job q)
unshift_to-IsBounded high job q h k =
    with_waiting _ k (All-unshift_to CanRun job q h k.waiting_retries high)
unshift_to-IsBounded normal job q h k =
    with_waiting _ k (All-unshift_to CanRun job q h k.waiting_retries normal)
unshift_to-IsBounded low job q h k =
    with_waiting _ k (All-unshift_to CanRun job q h k.waiting_retries low)

trigger_processing-IsBounded : (q : MessageQueue) → IsBounded q → IsBounded (trigger_processing q)
unfolding start_job
trigger_processing-IsBounded = trigger_processing-preserves IsBounded (λ q q₁ job free e same k.
    let (h, hs) = subst (All CanRun) e k.waiting_retries in
    record {
      counted = omega (
        arith,
        k.counted,
        same.same_running,
        ap length same.same_progress,
        length-append {0} q₁.in_progress (begin job ∷ []),
      );
      tracked = omega (arith, k.tracked, same.same_running, same.same_processing);
      bounded = omega (arith, free, same.same_running, same.same_max);
      waiting_retries = hs;
      running_retries =
          All-append InBounds q₁.in_progress (begin job ∷ [])
            (subst (All InBounds) (sym same.same_progress) k.running_retries) (h, tt);
    })

place :
    (q : MessageQueue) (i : ℕ) (p : InProgress) (phase : Phase)
    → Stands q i p phase
    → IsBounded q
    → CanStand phase p.job
place q i p phase s k =
    subst (λ ph. CanStand ph p.job) s.phased
      (All-get_elem? InBounds i q.in_progress s.found k.running_retries)

module _ (i : ℕ) (p : InProgress) (q : MessageQueue) (k : IsBounded q) where
  moved :
      (p' : InProgress)
      → InBounds p'
      → AreBounded q.running_workers q.max_concurrency q.processing_count
          (waiting q)
          (set_at i p' q.in_progress)
  moved p' h = record {
    counted = k.counted ∙ sym (length-set_at i p' q.in_progress);
    tracked = k.tracked;
    bounded = k.bounded;
    waiting_retries = k.waiting_retries;
    running_retries = All-set_at InBounds i p' q.in_progress h k.running_retries;
  }

  complete-IsBounded :
      (result : Message) → Stands q i p dispatching → IsBounded (complete i p.job result q)
  unfolding complete
  complete-IsBounded result s =
      moved (record { job = record p.job { status = completed }; phase = finished })
        (omega (arith, place q i p dispatching s k))

  fail-IsBounded : (error : Text) → Stands q i p dispatching → IsBounded (fail i p.job error q)
  unfolding fail
  fail-IsBounded error s =
      if-cases IsBounded _ _ _ (λ again. moved _ (leb→le _ _ again))
        (λ over.
          moved
            (record {
              job = record p.job { retry_count = p.job.retry_count + 1; status = failed };
              phase = finished;
            })
            (omega (arith, place q i p dispatching s k)))

  requeue-IsBounded : (d : ℕ) → Stands q i p (backing_off d) → IsBounded (requeue i p.job q)
  unfolding requeue
  requeue-IsBounded d s =
      let can_run = place q i p (backing_off d) s k in
      unshift_to-IsBounded p.job.priority p.job (move_to i p.job finished q) can_run
        (moved _ (omega (arith, can_run)))

  settle-IsBounded : Stands q i p finished → IsBounded (settle i q)
  unfolding settle
  settle-IsBounded s =
      trigger_processing-IsBounded
        (record q {
          running_workers = q.running_workers - 1;
          processing_count = q.processing_count - 1;
          in_progress = remove_at i q.in_progress;
        })
        (record {
          counted = omega (arith, k.counted, length-remove_at i q.in_progress s.found);
          tracked = omega (arith, k.tracked);
          bounded = omega (arith, k.bounded);
          waiting_retries = k.waiting_retries;
          running_retries = All-remove_at InBounds i q.in_progress k.running_retries;
        })

enqueue-IsBounded :
    (to : JidOrText) (content : MessageContent) (options : MessageJobOptions) (fresh_id : Text)
    (now : ℕ) (q : MessageQueue)
    → IsBounded q
    → IsBounded (enqueue to content options fresh_id now q)
unfolding enqueue new_job
enqueue-IsBounded to content options fresh_id now q k =
    let job = new_job to content options fresh_id now in
    let more = push_to-IsBounded job.priority job q (omega arith) k in
    trigger_processing-IsBounded (emit (job_enqueued job) (push_to job.priority job q)) more

abbrev pub Any : Event → Type 0
Any e = Unit

kept : IsKept IsBounded Any
unfolding start pause clear
kept = record {
  kept_enqueue = enqueue-IsBounded;
  kept_complete = λ i p result q s k. complete-IsBounded i p q k result s;
  kept_fail = λ i p error q s k. fail-IsBounded i p q k error s;
  kept_requeue = λ i p d q s k. requeue-IsBounded i p q k d s;
  kept_settle = λ i p q s k. settle-IsBounded i p q k s;
  kept_start = λ q k. trigger_processing-IsBounded (record q { is_processing = true }) k;
  kept_pause = λ q k. k;
  kept_clear = λ q a k. with_waiting [] k tt;
}

pub All-Any : (es : List Event) → All Any es
All-Any [] = tt
All-Any (e ∷ es) = (tt, All-Any es)

-- In every state that the queue reaches, the running workers are as many as the jobs in progress
-- and at most `maxConcurrency`, the processing count is theirs, and no job that waits or runs has
-- failed more often than its retries, one whose `processJob` is over at most once more.
pub run-IsBounded :
    (concurrency : Option ℕ) (auto_start : Option Bool) (es : List Event)
    → IsBounded (run es (create concurrency auto_start))
unfolding create
run-IsBounded concurrency auto_start es = run-keeps IsBounded Any kept es _ (All-Any es) (record {
  counted = refl;
  tracked = refl;
  bounded = omega arith;
  waiting_retries = tt;
  running_retries = tt;
})
