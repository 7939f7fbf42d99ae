-- ===== src/Observability/Monitoring/Numbers.antt =====
-- packages/wazeko/src/observability/monitoring-server.ts: the numbers of a queue that are shown.
use wazeko.Prelude.{ℕ, ◌+◌, ◌≤◌, ◌≡◌, refl, Bool, Option, some, List, All, arith, total, length}
use wazeko.Text.{codes, text_eq}
use wazeko.Queue.MessageQueue.{MessageQueue, create, get_stats}
use wazeko.Queue.MessageQueue.Trigger.{waiting, length-waiting}
use wazeko.Queue.Machine.{Event, run}
use wazeko.Queue.Machine.Balance.{
  enqueued_one, active_one, resolved_one, rejected_one, Keeps, run-IsBalanced,
}
use wazeko.Queue.Machine.Bounds.{run-IsBounded}
use wazeko.Observability.Reports.{at, number, stats_object}
use wazeko.Observability.Monitoring.{Process, MonitoringServer, health, metrics}

-- The numbers of a queue that its monitor shows.
pub record Shown {W : Type 0} (p : Process) (m : MonitoringServer W) (q : MessageQueue)
    : Type 0 where
  pub metrics_pending :
      at (codes "wazeko_queue_pending") (metrics p m) ≡ number (length (waiting q))
  pub metrics_completed :
      at (codes "wazeko_queue_completed") (metrics p m) ≡ number (total resolved_one q.effects)
  pub metrics_failed :
      at (codes "wazeko_queue_failed") (metrics p m) ≡ number (total rejected_one q.effects)
  pub health_pending :
      at (codes "pendingCount") (at (codes "queue") (health p m)) ≡ number (length (waiting q))
  pub health_processing :
      at (codes "processingCount") (at (codes "queue") (health p m)) ≡ number (length q.in_progress)
  pub accounted :
      total enqueued_one q.effects
      ≡ length (waiting q)
        + total active_one q.in_progress
        + total resolved_one q.effects
        + total rejected_one q.effects
  pub bounded : length q.in_progress ≤ q.max_concurrency

module _ {W : Type 0} (p : Process) (m : MonitoringServer W) where
  -- Whatever happened to a new queue but `clear`, its monitor shows under /metrics and /health how
  -- many jobs wait, under /metrics as completed how many promises were resolved and as failed how
  -- many were rejected, and under /health how many jobs are in progress, which are at most the
  -- concurrency. The jobs that wait, those that are tried or back off and the promises that were
  -- resolved or rejected are together as many as the jobs that were handed to the queue.
  pub metrics-Shown :
      (concurrency : Option ℕ) (auto_start : Option Bool) (es : List Event)
      → All Keeps es
      → m.queue ≡ some (run es (create concurrency auto_start))
      → Shown p m (run es (create concurrency auto_start))
  unfolding metrics health get_stats stats_object text_eq
  metrics-Shown concurrency auto_start es h e =
      let q = run es (create concurrency auto_start) in
      let balance = run-IsBalanced concurrency auto_start es h in
      let bounds = run-IsBounded concurrency auto_start es in
      let in_progress_count : q.processing_count ≡ length q.in_progress =
        omega (arith, bounds.counted, bounds.tracked) in
      record {
        metrics_pending = rw (e, length-waiting q) refl;
        metrics_completed = rw (e, balance.resolved) refl;
        metrics_failed = rw (e, balance.rejected) refl;
        health_pending = rw (e, length-waiting q) refl;
        health_processing = rw (e, ← in_progress_count) refl;
        accounted =
            omega (arith, balance.accounted, balance.resolved, balance.rejected, length-waiting q);
        bounded = omega (arith, bounds.counted, bounds.tracked, bounds.bounded);
      }
