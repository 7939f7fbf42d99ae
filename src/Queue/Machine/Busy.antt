-- ===== src/Queue/Machine/Busy.antt =====
-- packages/wazeko/src/queue/message-queue.ts: when a job waits although a worker is free.
use wazeko.Prelude.{
  ℕ, zero, suc, take, ◌+◌, ◌-◌, ◌≤◌, ◌<◌, ◌≡◌, refl, ap, ◌∙◌, ◌⊎◌, inl, inr, Bool, true, Option,
  List, [], ◌∷◌, arith, length, drop, total, total-set_at, set_at, remove_at, leb, Bool-cases,
}
use wazeko.Text.{Text}
use wazeko.Types.Message.{Message}
use wazeko.Queue.Job.{MessagePriority, high, normal, low, MessageJob, job_enqueued}
use wazeko.Queue.MessageQueue.{
  Phase, MessageQueue, InProgress, dispatching, finished, backing_off, create, new_job, push_to,
  unshift_to, trigger_processing, enqueue, complete, fail, requeue, settle, start, pause, clear,
  emit, move_to, pending_count, retry_delay,
}
use wazeko.Queue.MessageQueue.Trigger.{waiting, length-waiting, trigger_processing-Started}
use wazeko.Queue.Machine.{Event, run}
use wazeko.Queue.Machine.Induction.{Stands, IsKept, run-keeps}
use wazeko.Queue.Machine.Bounds.{Any, All-Any}

abbrev pub over : Phase → ℕ
over dispatching = 0
over finished = 1
over (backing_off d) = 0

abbrev pub over_one : InProgress → ℕ
over_one p = over p.phase

-- All workers are taken, or nothing waits, or a `processJob` is over whose `finally` is to come.
abbrev pub IsBusy : MessageQueue → Type 0
IsBusy q =
    (q.max_concurrency ≤ q.running_workers)
    ⊎ ((pending_count q ≡ 0) ⊎ (0 < total over_one q.in_progress))

abbrev IsBusyOn : MessageQueue → Type 0
IsBusyOn q = q.is_processing ≡ true → IsBusy q

-- Taking stops short only where nothing is left.
take-or_nothing {ℓ} :
    {A : Type ℓ} (n : ℕ) (xs : List A) → (n ≤ length (take n xs)) ⊎ (drop n xs ≡ [])
take-or_nothing zero xs = inl (omega arith)
take-or_nothing (suc n) [] = inr refl
take-or_nothing (suc n) (x ∷ xs) = elim (take-or_nothing n xs) [
  | inl h ↦ inl (omega (arith, h))
  | inr e ↦ inr e
]

trigger_processing-IsBusy :
    (q : MessageQueue) → q.is_processing ≡ true → IsBusy (trigger_processing q)
trigger_processing-IsBusy q on =
    let s = trigger_processing-Started q on in
    elim (take-or_nothing (q.max_concurrency - q.running_workers) (waiting q)) [
      | inl h ↦ inl (omega (arith, h, s.running, s.same_limit))
      | inr e ↦
          let none_left = ap length (s.left ∙ e) in
          inr (inl (omega (arith, none_left, length-waiting (trigger_processing q))))
    ]

-- A queue that is paused stays so.
trigger_processing-IsBusyOn : (q : MessageQueue) → IsBusyOn (trigger_processing q)
unfolding trigger_processing
trigger_processing-IsBusyOn q = elim (Bool-cases q.is_processing) [
  | inl on ↦ λ _. trigger_processing-IsBusy q on
  | inr off ↦ rw off (λ on. let no = off in cc)
]

unshift_to-IsBusyOn :
    (priority : MessagePriority) (job : MessageJob) (q : MessageQueue)
    → 0 < total over_one q.in_progress
    → IsBusyOn (unshift_to priority job q)
unshift_to-IsBusyOn high job q h on = inr (inr h)
unshift_to-IsBusyOn normal job q h on = inr (inr h)
unshift_to-IsBusyOn low job q h on = inr (inr h)

module _ (i : ℕ) (p : InProgress) (q : MessageQueue) (b : IsBusyOn q) where
  moved :
      (phase : Phase) (p' : InProgress)
      → Stands q i p phase
      → total over_one (set_at i p' q.in_progress) + over phase
        ≡ total over_one q.in_progress + over_one p'
  moved phase p' s =
      let was = ap over s.phased in
      omega (arith, total-set_at over_one i p' q.in_progress s.found, was)

  -- A job that was not over is.
  ends_one :
      (phase : Phase) (job : MessageJob)
      → Stands q i p phase
      → over phase ≡ 0
      → 0 < total over_one (set_at i (record { job = job; phase = finished }) q.in_progress)
  ends_one phase job s e = omega (arith, e, moved phase (record { job = job; phase = finished }) s)

  backs_off-IsBusyOn :
      (job : MessageJob) (d : ℕ)
      → Stands q i p dispatching
      → IsBusyOn (move_to i job (backing_off d) q)
  backs_off-IsBusyOn job d s on = elim (b on) [
    | inl h ↦ inl h
    | inr (inl h) ↦ inr (inl h)
    | inr (inr h) ↦
        inr (
          inr (omega (arith, h, moved dispatching (record { job = job; phase = backing_off d }) s)))
  ]

  complete-IsBusyOn :
      (result : Message) → Stands q i p dispatching → IsBusyOn (complete i p.job result q)
  unfolding complete
  complete-IsBusyOn result s on = inr (inr (ends_one dispatching _ s refl))

  fail-IsBusyOn : (error : Text) → Stands q i p dispatching → IsBusyOn (fail i p.job error q)
  unfolding fail
  fail-IsBusyOn error s =
      let counted = record p.job { retry_count = p.job.retry_count + 1 } in
      elim (Bool-cases (leb counted.retry_count counted.max_retries)) [
        | inl again ↦ rw again (backs_off-IsBusyOn counted (retry_delay counted) s)
        | inr last ↦ rw last (λ on. inr (inr (ends_one dispatching _ s refl)))
      ]

  requeue-IsBusyOn : (d : ℕ) → Stands q i p (backing_off d) → IsBusyOn (requeue i p.job q)
  unfolding requeue
  requeue-IsBusyOn d s =
      unshift_to-IsBusyOn p.job.priority p.job (move_to i p.job finished q)
        (ends_one (backing_off d) p.job s refl)

kept : IsKept IsBusyOn Any
unfolding enqueue settle start pause clear
kept = record {
  kept_enqueue = λ to content options fresh_id now q b.
      let job = new_job to content options fresh_id now in
      trigger_processing-IsBusyOn (emit (job_enqueued job) (push_to job.priority job q));
  kept_complete = λ i p result q s b. complete-IsBusyOn i p q b result s;
  kept_fail = λ i p error q s b. fail-IsBusyOn i p q b error s;
  kept_requeue = λ i p d q s b. requeue-IsBusyOn i p q b d s;
  kept_settle = λ i p q s b. trigger_processing-IsBusyOn (record q {
    running_workers = q.running_workers - 1;
    processing_count = q.processing_count - 1;
    in_progress = remove_at i q.in_progress;
  });
  kept_start = λ q b. trigger_processing-IsBusyOn (record q { is_processing = true });
  kept_pause = λ q b on. cc;
  kept_clear = λ q a b on. inr (inl refl);
}

-- In every state that the queue reaches and in which it is not paused, all workers that
-- `maxConcurrency` allows are taken, or no job waits, or the `processJob` of some job is over and
-- its handler of `finally` has yet to run.
pub run-IsBusy :
    (concurrency : Option ℕ) (auto_start : Option Bool) (es : List Event)
    → (run es (create concurrency auto_start)).is_processing ≡ true
    → IsBusy (run es (create concurrency auto_start))
unfolding create
run-IsBusy concurrency auto_start es =
    run-keeps IsBusyOn Any kept es _ (All-Any es) (λ on. inr (inl refl))
