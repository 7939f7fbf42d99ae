-- ===== src/Queue/Machine/Balance.antt =====
-- packages/wazeko/src/queue/message-queue.ts: where the jobs are that were handed to the queue.
use wazeko.Prelude.{
  ℕ, ◌+◌, ◌-◌, ◌≡◌, refl, ap, Bool, true, Option, List, [], ◌∷◌, ◌++◌, arith, length, length-append,
  total, total-append, total-set_at, total-remove_at, set_at, remove_at, if-cases, All,
}
use wazeko.Text.{Text}
use wazeko.Types.Jid.{JidOrText}
use wazeko.Types.Message.{Message, MessageContent}
use wazeko.Queue.Job.{
  MessagePriority, high, normal, low, completed, failed, MessageJobOptions, MessageJob, Effect,
  job_enqueued, job_processing, job_completed, job_retry, job_failed, resolve, reject,
}
use wazeko.Queue.MessageQueue.{
  Phase, MessageQueue, InProgress, dispatching, finished, backing_off, create, new_job, push_to,
  unshift_to, start_job, trigger_processing, enqueue, complete, fail, requeue, settle, start, pause,
  emit, move_to, pending_count, process_job, started, retry_delay,
}
use wazeko.Queue.MessageQueue.Trigger.{length-waiting, begin, trigger_processing-preserves}
use wazeko.Queue.Machine.{Event, clears, run}
use wazeko.Queue.Machine.Induction.{Stands, IsKept, run-keeps}

abbrev pub enqueued_one : Effect → ℕ
enqueued_one (job_enqueued job) = 1
enqueued_one _ = 0

abbrev pub resolved_one : Effect → ℕ
resolved_one (resolve job result) = 1
resolved_one _ = 0

abbrev pub rejected_one : Effect → ℕ
rejected_one (reject job error) = 1
rejected_one _ = 0

abbrev pub active : Phase → ℕ
active dispatching = 1
active finished = 0
active (backing_off d) = 1

abbrev pub active_one : InProgress → ℕ
active_one p = active p.phase

pub record AreBalanced (pending : ℕ) (running : List InProgress) (sent given_up : ℕ)
    (effects : List Effect) : Type 0 where
  pub accounted : total enqueued_one effects ≡ pending + total active_one running + sent + given_up
  pub resolved : total resolved_one effects ≡ sent
  pub rejected : total rejected_one effects ≡ given_up

abbrev pub IsBalanced : MessageQueue → Type 0
IsBalanced q =
    AreBalanced (pending_count q) q.in_progress q.completed_count q.failed_count q.effects

-- An effect more.
total-emit :
    (f : Effect → ℕ) (e : Effect) (es : List Effect) → total f (es ++ e ∷ []) ≡ total f es + f e
total-emit f e es = omega (arith, total-append f es (e ∷ []))

-- What an effect more and other parts do to the balance.
balance :
    {pending sent given_up : ℕ} {running : List InProgress} {effects : List Effect} (e : Effect)
    (pending' sent' given_up' : ℕ) (running' : List InProgress)
    → AreBalanced pending running sent given_up effects
    → enqueued_one e + (pending + total active_one running + sent + given_up)
      ≡ pending' + total active_one running' + sent' + given_up'
    → resolved_one e + sent ≡ sent'
    → rejected_one e + given_up ≡ given_up'
    → AreBalanced pending' running' sent' given_up' (effects ++ e ∷ [])
balance {effects = es} e pending' sent' given_up' running' b x y z = record {
  accounted = omega (arith, total-emit enqueued_one e es, b.accounted, x);
  resolved = omega (arith, total-emit resolved_one e es, b.resolved, y);
  rejected = omega (arith, total-emit rejected_one e es, b.rejected, z);
}

-- Only the places of jobs change.
rearranged :
    {pending sent given_up : ℕ} {running : List InProgress} {effects : List Effect} (pending' : ℕ)
    (running' : List InProgress)
    → AreBalanced pending running sent given_up effects
    → pending + total active_one running ≡ pending' + total active_one running'
    → AreBalanced pending' running' sent given_up effects
rearranged pending' running' b x = record {
  accounted = omega (arith, b.accounted, x);
  resolved = b.resolved;
  rejected = b.rejected;
}

pending_count-push_to :
    (priority : MessagePriority) (job : MessageJob) (q : MessageQueue)
    → pending_count (push_to priority job q) ≡ pending_count q + 1
pending_count-push_to high job q = omega (arith, length-append {0} q.high_queue (job ∷ []))
pending_count-push_to normal job q = omega (arith, length-append {0} q.normal_queue (job ∷ []))
pending_count-push_to low job q = omega (arith, length-append {0} q.low_queue (job ∷ []))

enqueued-IsBalanced :
    (priority : MessagePriority) (job : MessageJob) (q : MessageQueue)
    → IsBalanced q
    → IsBalanced (emit (job_enqueued job) (push_to priority job q))
enqueued-IsBalanced high job q b =
    balance (job_enqueued job) _ _ _ _ b (omega (arith, pending_count-push_to high job q))
      (omega arith) (omega arith)
enqueued-IsBalanced normal job q b =
    balance (job_enqueued job) _ _ _ _ b (omega (arith, pending_count-push_to normal job q))
      (omega arith) (omega arith)
enqueued-IsBalanced low job q b =
    balance (job_enqueued job) _ _ _ _ b (omega (arith, pending_count-push_to low job q))
      (omega arith) (omega arith)

unshift_to-IsBalanced :
    (priority : MessagePriority) (job : MessageJob) (q : MessageQueue) (running : List InProgress)
    → AreBalanced (pending_count q) running q.completed_count q.failed_count q.effects
    → total active_one running ≡ total active_one q.in_progress + 1
    → IsBalanced (unshift_to priority job q)
unshift_to-IsBalanced high job q running b h = rearranged _ _ b (omega (arith, h))
unshift_to-IsBalanced normal job q running b h = rearranged _ _ b (omega (arith, h))
unshift_to-IsBalanced low job q running b h = rearranged _ _ b (omega (arith, h))

trigger_processing-IsBalanced :
    (q : MessageQueue) → IsBalanced q → IsBalanced (trigger_processing q)
unfolding start_job process_job
trigger_processing-IsBalanced = trigger_processing-preserves IsBalanced (λ q q₁ job free e same b.
    let shorter = ap length e in
    rw (same.same_progress, same.same_completed, same.same_failed, same.same_effects)
      (balance (job_processing (started job)) (pending_count q₁) q.completed_count q.failed_count
        (q.in_progress ++ begin job ∷ []) b
        (omega (
          arith,
          shorter,
          length-waiting q,
          length-waiting q₁,
          total-append active_one q.in_progress (begin job ∷ []),
        ))
        (omega arith) (omega arith)))

module _ (i : ℕ) (p : InProgress) (q : MessageQueue) (b : IsBalanced q) where
  moved :
      (phase : Phase) (p' : InProgress)
      → Stands q i p phase
      → total active_one (set_at i p' q.in_progress) + active phase
        ≡ total active_one q.in_progress + active_one p'
  moved phase p' s =
      let was = ap active s.phased in
      omega (arith, total-set_at active_one i p' q.in_progress s.found, was)

  complete-IsBalanced :
      (result : Message) → Stands q i p dispatching → IsBalanced (complete i p.job result q)
  unfolding complete
  complete-IsBalanced result s =
      let sent = record p.job { status = completed } in
      let p' : InProgress = record { job = sent; phase = finished } in
      balance (resolve sent result) _ _ _ _
        (balance (job_completed sent result) (pending_count q) q.completed_count q.failed_count
          q.in_progress b (omega arith) (omega arith) (omega arith))
        (omega (arith, moved dispatching p' s)) (omega arith) (omega arith)

  fail-IsBalanced : (error : Text) → Stands q i p dispatching → IsBalanced (fail i p.job error q)
  unfolding fail
  fail-IsBalanced error s =
      let counted = record p.job { retry_count = p.job.retry_count + 1 } in
      let given_up = record counted { status = failed } in
      let waits : InProgress = record {
        job = counted;
        phase = backing_off (retry_delay counted);
      } in
      let over : InProgress = record { job = given_up; phase = finished } in
      if-cases IsBalanced _ _ _
        (λ again.
          balance (job_retry counted error counted.retry_count) _ _ _ _ b
            (omega (arith, moved dispatching waits s)) (omega arith) (omega arith))
        (λ last.
          balance (reject given_up error) _ _ _ _
            (balance (job_failed given_up error) (pending_count q) q.completed_count q.failed_count
              q.in_progress b (omega arith) (omega arith) (omega arith))
            (omega (arith, moved dispatching over s)) (omega arith) (omega arith))

  requeue-IsBalanced : (d : ℕ) → Stands q i p (backing_off d) → IsBalanced (requeue i p.job q)
  unfolding requeue
  requeue-IsBalanced d s =
      unshift_to-IsBalanced p.job.priority p.job (move_to i p.job finished q) q.in_progress b
        (omega (arith, moved (backing_off d) (record { job = p.job; phase = finished }) s))

  settle-IsBalanced : Stands q i p finished → IsBalanced (settle i q)
  unfolding settle
  settle-IsBalanced s =
      let was = ap active s.phased in
      trigger_processing-IsBalanced
        (record q {
          running_workers = q.running_workers - 1;
          processing_count = q.processing_count - 1;
          in_progress = remove_at i q.in_progress;
        })
        (rearranged _ _ b (omega (arith, total-remove_at active_one i q.in_progress s.found, was)))

enqueue-IsBalanced :
    (to : JidOrText) (content : MessageContent) (options : MessageJobOptions) (fresh_id : Text)
    (now : ℕ) (q : MessageQueue)
    → IsBalanced q
    → IsBalanced (enqueue to content options fresh_id now q)
unfolding enqueue
enqueue-IsBalanced to content options fresh_id now q b =
    let job = new_job to content options fresh_id now in
    trigger_processing-IsBalanced (emit (job_enqueued job) (push_to job.priority job q))
      (enqueued-IsBalanced job.priority job q b)

-- Events other than `clear`, which drops jobs.
abbrev pub Keeps : Event → Type 0
Keeps clears = ⊥
Keeps _ = Unit

kept : IsKept IsBalanced Keeps
unfolding start pause
kept = record {
  kept_enqueue = enqueue-IsBalanced;
  kept_complete = λ i p result q s b. complete-IsBalanced i p q b result s;
  kept_fail = λ i p error q s b. fail-IsBalanced i p q b error s;
  kept_requeue = λ i p d q s b. requeue-IsBalanced i p q b d s;
  kept_settle = λ i p q s b. settle-IsBalanced i p q b s;
  kept_start = λ q b. trigger_processing-IsBalanced (record q { is_processing = true }) b;
  kept_pause = λ q b. b;
  kept_clear = λ q a b. absurd a;
}

-- As long as the queue is not cleared, the jobs that were handed to it are as many as those that
-- wait, those that are tried or back off, those that completed and those that failed, as many
-- promises were resolved as jobs completed, and as many were rejected as jobs failed.
pub run-IsBalanced :
    (concurrency : Option ℕ) (auto_start : Option Bool) (es : List Event)
    → All Keeps es
    → IsBalanced (run es (create concurrency auto_start))
unfolding create
run-IsBalanced concurrency auto_start es h =
    run-keeps IsBalanced Keeps kept es _ h
      (record { accounted = refl; resolved = refl; rejected = refl })
