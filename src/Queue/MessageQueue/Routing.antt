-- ===== src/Queue/MessageQueue/Routing.antt =====
-- packages/wazeko/src/queue/message-queue.ts: what holds of all waiting jobs when one is added.
use wazeko.Prelude.{List, [], ◌∷◌, ◌++◌, All, All-append, All-append_left, All-append_right}
use wazeko.Queue.Job.{MessagePriority, high, normal, low, MessageJob}
use wazeko.Queue.MessageQueue.{MessageQueue, push_to, unshift_to}
use wazeko.Queue.MessageQueue.Trigger.{waiting}

module _ (P : MessageJob → Type 0) (job : MessageJob) (q : MessageQueue) (h : P job)
    (k : All P (waiting q)) where
  highs : All P q.high_queue
  highs = All-append_left P q.high_queue _ k

  normals : All P q.normal_queue
  normals = All-append_left P q.normal_queue q.low_queue (All-append_right P q.high_queue _ k)

  lows : All P q.low_queue
  lows = All-append_right P q.normal_queue q.low_queue (All-append_right P q.high_queue _ k)

  three : (a b c : List MessageJob) → All P a → All P b → All P c → All P (a ++ (b ++ c))
  three a b c x y z = All-append P a (b ++ c) x (All-append P b c y z)

  pub All-push_to : (priority : MessagePriority) → All P (waiting (push_to priority job q))
  All-push_to high =
      three (q.high_queue ++ job ∷ []) _ _ (All-append P q.high_queue _ highs (h, tt)) normals lows
  All-push_to normal =
      three _ (q.normal_queue ++ job ∷ []) _ highs (All-append P q.normal_queue _ normals (h, tt))
        lows
  All-push_to low =
      three _ _ (q.low_queue ++ job ∷ []) highs normals (All-append P q.low_queue _ lows (h, tt))

  pub All-unshift_to : (priority : MessagePriority) → All P (waiting (unshift_to priority job q))
  All-unshift_to high = three (job ∷ q.high_queue) _ _ (h, highs) normals lows
  All-unshift_to normal = three _ (job ∷ q.normal_queue) _ highs (h, normals) lows
  All-unshift_to low = three _ _ (job ∷ q.low_queue) highs normals (h, lows)
