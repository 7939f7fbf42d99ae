-- ===== src/Observability/Monitoring.antt =====
-- packages/wazeko/src/observability/monitoring-server.ts. A request sees the client, the queue and
-- the registry as they are then. Clock, memory and what the URL of a request is parsed to are
-- arguments. An error that no one catches ends the process.
pub mod Page
pub mod Routes
pub mod Numbers
pub mod States
pub mod Server
mod Examples
use wazeko.Prelude.{
  ℕ, ◌+◌, ◌-◌, ◌/◌, Bool, true, false, ◌||◌, Option, none, some, List, [], ◌∷◌, ◌++◌, length, ◌==◌,
  if◌then◌else◌,
}
use wazeko.Text.{Text, codes, text_eq}
use wazeko.Types.Jid.{Jid}
use wazeko.Types.Events.{
  ConnectionState, disconnected, connecting, authenticating, connected, reconnecting, logged_out,
}
use wazeko.Queue.RateLimiter.{or_else}
use wazeko.Queue.Job.{QueueStats}
use wazeko.Queue.MessageQueue.{MessageQueue, get_stats}
use wazeko.Core.Errors.{◌>>=◌, Thrown, Result, ok, threw, plain_error}
use wazeko.Plugins.CommandRegistry.{CommandRegistry, list_commands}
use wazeko.Client.{Wazeko}
use wazeko.Observability.Reports.{
  Json, Fields, undefined, null, number, decimal, string, object, end, field, state_name,
  conn_state, authenticated_user, stats_object, queue_stats, counter, command_count, current_qr,
  qr_or_null,
}

-- What the process and the language give: times in milliseconds and sizes in bytes.
pub record Process : Type 0 where
  pub now : ℕ
  pub iso_now : Text
  pub rss : ℕ
  pub heap_used : ℕ
  pub heap_total : ℕ
  pub stringify : Json → Text
  pub stringify_by : ℕ → Json → Text
  pub to_upper_case : Text → Text
  pub pathname : Text → Text → Result Text

pub record MonitoringServerOptions (W : Type 0) : Type 0 where
  pub port : Option ℕ
  pub host : Option Text
  pub client : Option Wazeko
  pub queue : Option MessageQueue
  pub registry : Option (CommandRegistry W)
  pub qr_code_supplier : Option (Option Text)

-- `qr_code_supplier` is what the supplier returns at the time. A server of node is its number.
pub record MonitoringServer (W : Type 0) : Type 0 where
  pub server : Option ℕ
  pub port : ℕ
  pub host : Text
  pub start_time : ℕ
  pub client : Option Wazeko
  pub queue : Option MessageQueue
  pub registry : Option (CommandRegistry W)
  pub qr_code_supplier : Option (Option Text)

pub record Response : Type 0 where
  pub status : ℕ
  pub content_type : Text
  pub body : Text

module _ {W : Type 0} where
  unfoldable pub new_server : ℕ → MonitoringServerOptions W → MonitoringServer W
  new_server now options = record {
    server = none;
    port = or_else options.port 3000;
    host = or_else options.host (codes "0.0.0.0");
    start_time = now;
    client = options.client;
    queue = options.queue;
    registry = options.registry;
    qr_code_supplier = options.qr_code_supplier;
  }

  unfoldable pub set_qr_supplier : Option Text → MonitoringServer W → MonitoringServer W
  set_qr_supplier supplier m = record m { qr_code_supplier = some supplier }

module _ {W : Type 0} (p : Process) (m : MonitoringServer W) where
  -- The object of `renderHealth`.
  unfoldable pub health : Json
  unfolding get_stats stats_object
  health = object (
      field (codes "status") (string (codes "healthy")) (
        field (codes "timestamp") (string p.iso_now) (
          field (codes "uptimeSeconds") (number ((p.now - m.start_time) / 1000)) (
            field (codes "connection")
              (object (
                field (codes "state") (string (conn_state m.client))
                  (field (codes "authenticatedUser") (authenticated_user m.client) end)))
              (field (codes "memory")
                (object (
                  field (codes "rssMb") (decimal p.rss) (
                    field (codes "heapUsedMb") (decimal p.heap_used)
                      (field (codes "heapTotalMb") (decimal p.heap_total) end))))
                (field (codes "queue") (queue_stats m.queue) end))))))

  unfoldable pub render_health : Response
  unfolding health
  render_health = record {
    status = 200;
    content_type = codes "application/json";
    body = p.stringify_by 2 health;
  }

  -- The object of `renderMetrics`.
  unfoldable pub metrics : Json
  unfolding get_stats list_commands
  metrics = object (
      field (codes "wazeko_uptime_seconds") (number ((p.now - m.start_time) / 1000)) (
        field (codes "wazeko_memory_heap_used_bytes") (number p.heap_used) (
          field (codes "wazeko_memory_rss_bytes") (number p.rss) (
            field (codes "wazeko_registered_commands") (number (command_count m.registry)) (
              field (codes "wazeko_queue_pending") (number (counter (λ s. s.pending_count) m.queue))
                (field (codes "wazeko_queue_completed")
                  (number (counter (λ s. s.completed_count) m.queue))
                  (field (codes "wazeko_queue_failed")
                    (number (counter (λ s. s.failed_count) m.queue)) end)))))))

  unfoldable pub render_metrics : Response
  unfolding metrics
  render_metrics = record {
    status = 200;
    content_type = codes "application/json";
    body = p.stringify_by 2 metrics;
  }

  unfoldable pub render_qr_json : Response
  render_qr_json = record {
    status = 200;
    content_type = codes "application/json";
    body = p.stringify (
        object (
          field (codes "qr") (qr_or_null (current_qr m.qr_code_supplier))
            (field (codes "state") (string (conn_state m.client)) end)));
  }

  -- The page up to the text of the QR code, and from there on.
  unfoldable pub page_before : Text
  page_before =
      let state = conn_state m.client in
      Page.page_style
      ++ Page.page_header
      ++ Page.badge_start
      ++ state
      ++ Page.badge_label
      ++ p.to_upper_case state
      ++ Page.badge_end
      ++ (if text_eq state (codes "connected") then Page.connected_box else Page.canvas_box)
      ++ Page.instructions
      ++ Page.script_start

  abbrev pub page_after : Text
  page_after = Page.script_draw ++ Page.script_poll

  unfoldable pub render_qr_page : Response
  unfolding page_before
  render_qr_page = record {
    status = 200;
    content_type = codes "text/html; charset=utf-8";
    body = page_before ++ or_else (current_qr m.qr_code_supplier) [] ++ page_after;
  }

  abbrev pub not_found : Text → Response
  not_found pathname = record {
    status = 404;
    content_type = codes "application/json";
    body = p.stringify (
        object (
          field (codes "error") (string (codes "Not Found"))
            (field (codes "path") (string pathname) end)));
  }

  -- The branches of `handleRequest`.
  unfoldable pub respond : Text → Response
  unfolding render_health render_metrics render_qr_page render_qr_json
  respond pathname =
      if text_eq pathname (codes "/health") || text_eq pathname (codes "/status")
      then render_health
      else if text_eq pathname (codes "/metrics")
      then render_metrics
      else if text_eq pathname (codes "/qr") || text_eq pathname (codes "/login")
      then render_qr_page
      else if text_eq pathname (codes "/api/qr")
      then render_qr_json
      else not_found pathname

  -- `url` and `host` are those of the request, where it has them.
  unfoldable pub handle_request : Option Text → Option Text → Result Response
  unfolding respond
  handle_request url host =
      p.pathname (or_else url (codes "/")) (codes "http://" ++ or_else host (codes "localhost"))
      >>= λ pathname. ok (respond pathname)
