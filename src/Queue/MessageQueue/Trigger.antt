-- ===== src/Queue/MessageQueue/Trigger.antt =====
-- packages/wazeko/src/queue/message-queue.ts: which jobs `triggerProcessing` starts. Its abstract
-- view is one list of the waiting jobs, the urgent ones first.
use wazeko.Prelude.{
  ℕ, zero, suc, ◌+◌, ◌-◌, ◌≤◌, ◌<◌, ◌≡◌, refl, sym, ap, subst, ◌∙◌, ◌⊎◌, inl, inr, true, Option,
  none, some, List, [], ◌∷◌, ◌++◌, map, append-nil, append_assoc, arith, ltb, length, length-append,
  take, drop, take-nil, drop-nil, nil_of_length, Bool-cases, if_true, if_false,
}
use wazeko.Queue.Job.{MessageJob}
use wazeko.Queue.MessageQueue.{
  take_low, take_normal, take_high, MessageQueue, InProgress, dispatching, started, get_next_job,
  start_job, pending_count, trigger_loop, trigger_processing,
}

abbrev pub waiting : MessageQueue → List MessageJob
waiting q = q.high_queue ++ (q.normal_queue ++ q.low_queue)

pub length-waiting : (q : MessageQueue) → length (waiting q) ≡ pending_count q
length-waiting q = omega (
  arith,
  length-append {0} q.high_queue (q.normal_queue ++ q.low_queue),
  length-append {0} q.normal_queue q.low_queue,
)

-- All but the three lists is the same.
pub record SameBut (q q' : MessageQueue) : Type 0 where
  pub same_running : q'.running_workers ≡ q.running_workers
  pub same_max : q'.max_concurrency ≡ q.max_concurrency
  pub same_processing : q'.processing_count ≡ q.processing_count
  pub same_progress : q'.in_progress ≡ q.in_progress
  pub same_completed : q'.completed_count ≡ q.completed_count
  pub same_failed : q'.failed_count ≡ q.failed_count
  pub same_effects : q'.effects ≡ q.effects

untouched :
    (q q' : MessageQueue)
    → q'.running_workers ≡ q.running_workers
    → q'.max_concurrency ≡ q.max_concurrency
    → q'.processing_count ≡ q.processing_count
    → q'.in_progress ≡ q.in_progress
    → q'.completed_count ≡ q.completed_count
    → q'.failed_count ≡ q.failed_count
    → q'.effects ≡ q.effects
    → SameBut q q'
untouched q q' a b c d e f g = record {
  same_running = a;
  same_max = b;
  same_processing = c;
  same_progress = d;
  same_completed = e;
  same_failed = f;
  same_effects = g;
}

abbrev Next : MessageQueue → List MessageJob → Option (MessageJob × MessageQueue) → Type 0
Next q jobs r =
    ((jobs ≡ []) × (r ≡ none))
    ⊎ ((job : MessageJob) × (q' : MessageQueue) × (r ≡ some (job, q'))
        × (jobs ≡ job ∷ waiting q')
        × SameBut q q')

take_low-Next :
    (l : List MessageJob) (q : MessageQueue)
    → q.high_queue ≡ []
    → q.normal_queue ≡ []
    → Next q l (take_low l q)
take_low-Next [] q eh en = inl (refl, refl)
take_low-Next (job ∷ rest) q eh en = inr (
  job,
  record q { low_queue = rest },
  refl,
  rw (eh, en) refl,
  untouched _ _ refl refl refl refl refl refl refl,
)

take_normal-Next :
    (n : List MessageJob) (q : MessageQueue)
    → q.high_queue ≡ []
    → q.normal_queue ≡ n
    → Next q (n ++ q.low_queue) (take_normal n q)
take_normal-Next [] q eh en = take_low-Next q.low_queue q eh en
take_normal-Next (job ∷ rest) q eh en = inr (
  job,
  record q { normal_queue = rest },
  refl,
  rw eh refl,
  untouched _ _ refl refl refl refl refl refl refl,
)

take_high-Next :
    (h : List MessageJob) (q : MessageQueue)
    → q.high_queue ≡ h
    → Next q (h ++ (q.normal_queue ++ q.low_queue)) (take_high h q)
take_high-Next [] q eh = take_normal-Next q.normal_queue q eh refl
take_high-Next (job ∷ rest) q eh = inr (
  job,
  record q { high_queue = rest },
  refl,
  refl,
  untouched _ _ refl refl refl refl refl refl refl,
)

-- The next job is the first of those waiting, and there is one unless none waits.
get_next_job-Next : (q : MessageQueue) → Next q (waiting q) (get_next_job q)
unfolding get_next_job
get_next_job-Next q = take_high-Next q.high_queue q refl

abbrev pub begin : MessageJob → InProgress
begin job = record { job = started job; phase = dispatching }

-- `q'` is `q` after the first `free` of the waiting jobs were started.
pub record Started (q : MessageQueue) (free : ℕ) (q' : MessageQueue) : Type 0 where
  pub left : waiting q' ≡ drop free (waiting q)
  pub begun : q'.in_progress ≡ q.in_progress ++ map begin (take free (waiting q))
  pub running : q'.running_workers ≡ q.running_workers + length (take free (waiting q))
  pub counted : q'.processing_count ≡ q.processing_count + length (take free (waiting q))
  pub same_limit : q'.max_concurrency ≡ q.max_concurrency

abbrev free_slots : MessageQueue → ℕ
free_slots q = q.max_concurrency - q.running_workers

-- Where no job can be started, the loop is over.
Started-none : (q : MessageQueue) (free : ℕ) → (free ≡ 0) ⊎ (waiting q ≡ []) → Started q free q
Started-none q free (inl e) = record {
  left = rw e refl;
  begun = rw e (sym (append-nil q.in_progress));
  running = rw e (omega arith);
  counted = rw e (omega arith);
  same_limit = refl;
}
Started-none q free (inr e) = record {
  left = rw (e, drop-nil {0} {A = MessageJob} free) refl;
  begun = rw (e, take-nil {0} {A = MessageJob} free) (sym (append-nil q.in_progress));
  running = rw (e, take-nil {0} {A = MessageJob} free) (omega arith);
  counted = rw (e, take-nil {0} {A = MessageJob} free) (omega arith);
  same_limit = refl;
}

Started-one :
    (q q₁ q' : MessageQueue) (job : MessageJob) (free : ℕ)
    → waiting q ≡ job ∷ waiting q₁
    → SameBut q q₁
    → Started (start_job job q₁) free q'
    → Started q (suc free) q'
unfolding start_job
Started-one q q₁ q' job free e same r = record {
  left = rw e r.left;
  begun =
      rw (e, ← same.same_progress)
        (r.begun
          ∙ append_assoc q₁.in_progress (begin job ∷ []) (map begin (take free (waiting q₁))));
  running = rw e (omega (arith, r.running, same.same_running));
  counted = rw e (omega (arith, r.counted, same.same_processing));
  same_limit = r.same_limit ∙ same.same_max;
}

length-waiting_less :
    (q q₁ : MessageQueue) (job : MessageJob) (rounds : ℕ)
    → waiting q ≡ job ∷ waiting q₁
    → length (waiting q) ≤ suc rounds
    → length (waiting q₁) ≤ rounds
length-waiting_less q q₁ job rounds e h = let longer = ap length e in omega arith

free_slots-start_job :
    (q q₁ : MessageQueue) (job : MessageJob)
    → SameBut q q₁
    → q.running_workers < q.max_concurrency
    → free_slots q ≡ suc (free_slots (start_job job q₁))
unfolding start_job
free_slots-start_job q q₁ job same h = omega arith

trigger_loop-Started :
    (rounds : ℕ) (q : MessageQueue)
    → length (waiting q) ≤ rounds
    → Started q (free_slots q) (trigger_loop rounds q)
unfolding trigger_loop
trigger_loop-Started zero q h = Started-none q _ (inr (nil_of_length _ h))
trigger_loop-Started (suc rounds) q h =
    elim (Bool-cases (ltb q.running_workers q.max_concurrency)) [
      | inr full ↦ rw full (Started-none q _ (inl (ground arith)))
      | inl free ↦ elim (get_next_job-Next q) [
        | inl (e, nothing) ↦ rw (free, nothing) (Started-none q _ (inr e))
        | inr (job, q₁, found, e, same) ↦
            rw (free, found, free_slots-start_job q q₁ job same (ground arith))
              (Started-one q q₁ _ job _ e same (
                trigger_loop-Started rounds (start_job job q₁)
                  (unfold start_job in length-waiting_less q q₁ job rounds e h)))
      ]
    ]

-- While the queue runs, `triggerProcessing` starts the first waiting jobs in the order of their
-- priorities, as many as there are free workers, and leaves the others waiting in their order.
pub trigger_processing-Started :
    (q : MessageQueue)
    → q.is_processing ≡ true
    → Started q (q.max_concurrency - q.running_workers) (trigger_processing q)
unfolding trigger_processing
trigger_processing-Started q on =
    let started = trigger_loop-Started (pending_count q) q (omega (arith, length-waiting q)) in
    subst (Started q _) (sym (if_true _ _ _ on)) started

-- What the start of a job keeps, `triggerProcessing` keeps.
module _ {ℓ} (P : MessageQueue → Type ℓ)
    (start_job-P : (q q₁ : MessageQueue) (job : MessageJob)
      → q.running_workers < q.max_concurrency
      → waiting q ≡ job ∷ waiting q₁
      → SameBut q q₁
      → P q
      → P (start_job job q₁)) where
  trigger_loop-preserves : (rounds : ℕ) (q : MessageQueue) → P q → P (trigger_loop rounds q)
  unfolding trigger_loop
  trigger_loop-preserves zero q h = h
  trigger_loop-preserves (suc rounds) q h =
      elim (Bool-cases (ltb q.running_workers q.max_concurrency)) [
        | inr full ↦ rw full h
        | inl free ↦ elim (get_next_job-Next q) [
          | inl (e, nothing) ↦ rw (free, nothing) h
          | inr (job, q₁, found, e, same) ↦
              rw (free, found)
                (trigger_loop-preserves rounds (start_job job q₁)
                  (start_job-P q q₁ job (ground arith) e same h))
        ]
      ]

  pub trigger_processing-preserves : (q : MessageQueue) → P q → P (trigger_processing q)
  unfolding trigger_processing
  trigger_processing-preserves q h = elim (Bool-cases q.is_processing) [
    | inl on ↦ subst P (sym (if_true _ _ _ on)) (trigger_loop-preserves _ q h)
    | inr off ↦ subst P (sym (if_false _ _ _ off)) h
  ]
