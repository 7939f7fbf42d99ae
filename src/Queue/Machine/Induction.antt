-- ===== src/Queue/Machine/Induction.antt =====
-- packages/wazeko/src/queue/message-queue.ts: what every operation of the queue keeps holds in
-- every state that the queue reaches. `Allowed` says which events are considered.
use wazeko.Prelude.{ℕ, ◌≡◌, refl, ◌⊎◌, inl, inr, Option, none, some, List, [], ◌∷◌, get_elem?, All}
use wazeko.Text.{Text}
use wazeko.Types.Jid.{JidOrText}
use wazeko.Types.Message.{Message, MessageContent}
use wazeko.Queue.Job.{MessageJobOptions}
use wazeko.Queue.MessageQueue.{
  Phase, MessageQueue, InProgress, dispatching, finished, backing_off, enqueue, complete, fail,
  requeue, settle, start, pause, clear,
}
use wazeko.Queue.Machine.{
  Event, enqueues, sends, throws, wakes, settles, starts, pauses, clears, resume_sent,
  resume_thrown, resume_woken, resume_settled, step, run,
}

-- The job in progress at place `i` is `p`, in a phase.
pub record Stands (q : MessageQueue) (i : ℕ) (p : InProgress) (phase : Phase) : Type 0 where
  pub found : get_elem? q.in_progress i ≡ some p
  pub phased : p.phase ≡ phase

pub record IsKept {ℓ} (P : MessageQueue → Type ℓ) (Allowed : Event → Type 0) : Type ℓ where
  pub kept_enqueue :
      (to : JidOrText) (content : MessageContent) (options : MessageJobOptions) (fresh_id : Text)
      (now : ℕ) (q : MessageQueue)
      → P q
      → P (enqueue to content options fresh_id now q)
  pub kept_complete :
      (i : ℕ) (p : InProgress) (result : Message) (q : MessageQueue)
      → Stands q i p dispatching
      → P q
      → P (complete i p.job result q)
  pub kept_fail :
      (i : ℕ) (p : InProgress) (error : Text) (q : MessageQueue)
      → Stands q i p dispatching
      → P q
      → P (fail i p.job error q)
  pub kept_requeue :
      (i : ℕ) (p : InProgress) (d : ℕ) (q : MessageQueue)
      → Stands q i p (backing_off d)
      → P q
      → P (requeue i p.job q)
  pub kept_settle :
      (i : ℕ) (p : InProgress) (q : MessageQueue) → Stands q i p finished → P q → P (settle i q)
  pub kept_start : (q : MessageQueue) → P q → P (start q)
  pub kept_pause : (q : MessageQueue) → P q → P (pause q)
  pub kept_clear : (q : MessageQueue) → Allowed clears → P q → P (clear q)

Phase-cases :
    (phase : Phase)
    → (phase ≡ dispatching) ⊎ ((phase ≡ finished) ⊎ ((d : ℕ) × (phase ≡ backing_off d)))
Phase-cases dispatching = inl refl
Phase-cases finished = inr (inl refl)
Phase-cases (backing_off d) = inr (inr (d, refl))

module _ {ℓ} (P : MessageQueue → Type ℓ) (Allowed : Event → Type 0) (keeps : IsKept P Allowed) where
  resume_sent-keeps :
      (i : ℕ) (result : Message) (o : Option InProgress) (q : MessageQueue)
      → get_elem? q.in_progress i ≡ o
      → P q
      → P (resume_sent i result o q)
  resume_sent-keeps i result none q e h = h
  resume_sent-keeps i result (some p) q e h = elim (Phase-cases p.phase) [
    | inl k ↦ rw k (keeps.kept_complete i p result q (record { found = e; phased = k }) h)
    | inr (inl k) ↦ rw k h
    | inr (inr (d, k)) ↦ rw k h
  ]

  resume_thrown-keeps :
      (i : ℕ) (error : Text) (o : Option InProgress) (q : MessageQueue)
      → get_elem? q.in_progress i ≡ o
      → P q
      → P (resume_thrown i error o q)
  resume_thrown-keeps i error none q e h = h
  resume_thrown-keeps i error (some p) q e h = elim (Phase-cases p.phase) [
    | inl k ↦ rw k (keeps.kept_fail i p error q (record { found = e; phased = k }) h)
    | inr (inl k) ↦ rw k h
    | inr (inr (d, k)) ↦ rw k h
  ]

  resume_woken-keeps :
      (i : ℕ) (o : Option InProgress) (q : MessageQueue)
      → get_elem? q.in_progress i ≡ o
      → P q
      → P (resume_woken i o q)
  resume_woken-keeps i none q e h = h
  resume_woken-keeps i (some p) q e h = elim (Phase-cases p.phase) [
    | inl k ↦ rw k h
    | inr (inl k) ↦ rw k h
    | inr (inr (d, k)) ↦ rw k (keeps.kept_requeue i p d q (record { found = e; phased = k }) h)
  ]

  resume_settled-keeps :
      (i : ℕ) (o : Option InProgress) (q : MessageQueue)
      → get_elem? q.in_progress i ≡ o
      → P q
      → P (resume_settled i o q)
  resume_settled-keeps i none q e h = h
  resume_settled-keeps i (some p) q e h = elim (Phase-cases p.phase) [
    | inl k ↦ rw k h
    | inr (inl k) ↦ rw k (keeps.kept_settle i p q (record { found = e; phased = k }) h)
    | inr (inr (d, k)) ↦ rw k h
  ]

  pub step-keeps : (e : Event) (q : MessageQueue) → Allowed e → P q → P (step e q)
  unfolding step
  step-keeps (enqueues to content options fresh_id now) q a h =
      keeps.kept_enqueue to content options fresh_id now q h
  step-keeps (sends i result) q a h = resume_sent-keeps i result _ q refl h
  step-keeps (throws i error) q a h = resume_thrown-keeps i error _ q refl h
  step-keeps (wakes i) q a h = resume_woken-keeps i _ q refl h
  step-keeps (settles i) q a h = resume_settled-keeps i _ q refl h
  step-keeps starts q a h = keeps.kept_start q h
  step-keeps pauses q a h = keeps.kept_pause q h
  step-keeps clears q a h = keeps.kept_clear q a h

  pub run-keeps : (es : List Event) (q : MessageQueue) → All Allowed es → P q → P (run es q)
  unfolding run
  run-keeps [] q a h = h
  run-keeps (e ∷ es) q (a, rest) h = run-keeps es (step e q) rest (step-keeps e q a h)
