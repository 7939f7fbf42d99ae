-- ===== src/Queue/Machine.antt =====
-- packages/wazeko/src/queue/message-queue.ts: the events that a queue lives through.
pub mod Induction
pub mod Bounds
pub mod Balance
pub mod Busy
use wazeko.Prelude.{ℕ, Option, none, some, List, [], ◌∷◌, get_elem?}
use wazeko.Text.{Text}
use wazeko.Types.Jid.{JidOrText}
use wazeko.Types.Message.{Message, MessageContent}
use wazeko.Queue.Job.{MessageJobOptions}
use wazeko.Queue.MessageQueue.{
  MessageQueue, InProgress, dispatching, finished, backing_off, enqueue, complete, fail, requeue,
  settle, start, pause, clear,
}

-- What can happen to a queue next.
pub data Event : Type 0 where
  enqueues : JidOrText → MessageContent → MessageJobOptions → Text → ℕ → Event
  sends : ℕ → Message → Event
  throws : ℕ → Text → Event
  wakes settles : ℕ → Event
  starts pauses clears : Event

-- A job can be sent or throw while it is dispatched, wake while it backs off, and be settled when
-- it is finished; an event that names no such job changes nothing.
abbrev pub resume_sent : ℕ → Message → Option InProgress → MessageQueue → MessageQueue
resume_sent i result none q = q
resume_sent i result (some p) q = elim p.phase [
  | dispatching ↦ complete i p.job result q
  | finished ↦ q
  | backing_off d ↦ q
]

abbrev pub resume_thrown : ℕ → Text → Option InProgress → MessageQueue → MessageQueue
resume_thrown i error none q = q
resume_thrown i error (some p) q = elim p.phase [
  | dispatching ↦ fail i p.job error q
  | finished ↦ q
  | backing_off d ↦ q
]

abbrev pub resume_woken : ℕ → Option InProgress → MessageQueue → MessageQueue
resume_woken i none q = q
resume_woken i (some p) q = elim p.phase [
  | dispatching ↦ q
  | finished ↦ q
  | backing_off d ↦ requeue i p.job q
]

abbrev pub resume_settled : ℕ → Option InProgress → MessageQueue → MessageQueue
resume_settled i none q = q
resume_settled i (some p) q = elim p.phase [
  | dispatching ↦ q
  | finished ↦ settle i q
  | backing_off d ↦ q
]

unfoldable pub step : Event → MessageQueue → MessageQueue
unfolding enqueue complete fail requeue settle start pause clear
step (enqueues to content options fresh_id now) q = enqueue to content options fresh_id now q
step (sends i result) q = resume_sent i result (get_elem? q.in_progress i) q
step (throws i error) q = resume_thrown i error (get_elem? q.in_progress i) q
step (wakes i) q = resume_woken i (get_elem? q.in_progress i) q
step (settles i) q = resume_settled i (get_elem? q.in_progress i) q
step starts q = start q
step pauses q = pause q
step clears q = clear q

unfoldable pub run : List Event → MessageQueue → MessageQueue
run [] q = q
run (e ∷ es) q = run es (step e q)
