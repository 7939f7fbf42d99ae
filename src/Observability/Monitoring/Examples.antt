-- ===== src/Observability/Monitoring/Examples.antt =====
-- A monitor, its requests and its server.
use wazeko.Prelude.{
  ◌+◌, inr, length, ℕ, ◌≡◌, refl, none, some, List, [], ◌∷◌, arith, if◌then◌else◌, true, false,
}
use wazeko.Text.{codes, text_eq}
use wazeko.Core.Errors.{ok, threw, plain_error}
use wazeko.Types.Jid.{text}
use wazeko.Types.Message.{MessageContent}
use wazeko.Queue.MessageQueue.{create}
use wazeko.Queue.Machine.{Event, enqueues, starts, run}
use wazeko.Observability.Monitoring.{Process, MonitoringServer, respond, handle_request, health}
use wazeko.Types.Events.{disconnected}
use wazeko.Client.{Wazeko, by_neither}
use wazeko.Client.Announced.{Request, connects, disconnects, serve_all, announced}
use wazeko.Observability.Reports.{at, string, state_name}
use wazeko.Observability.Monitoring.States.{health-announced}
use wazeko.Observability.Monitoring.Numbers.{Shown, metrics-Shown}
use wazeko.Observability.Monitoring.Server.{Sockets, Lives, start-Lives}

abbrev process : Process
process = record {
  now = 5000;
  iso_now = codes "2025";
  rss = 3;
  heap_used = 2;
  heap_total = 4;
  stringify = λ j. codes "{}";
  stringify_by = λ n j. codes "{ }";
  to_upper_case = λ t. t;
  pathname = λ url host.
      if text_eq host (codes "http://a b")
      then threw (plain_error (codes "Invalid URL"))
      else ok url;
}

abbrev some_events : List Event
some_events =
    starts
    ∷ enqueues (text (codes "1")) (MessageContent.text (codes "hi"))
        (record {
          priority = none;
          max_retries = none;
          retry_delay_ms = none;
          timeout_ms = none;
          custom_id = none;
        })
        (codes "job") 7
    ∷ []

abbrev monitor : MonitoringServer ℕ
monitor = record {
  server = none;
  port = 3000;
  host = codes "0.0.0.0";
  start_time = 1000;
  client = none;
  queue = some (run some_events (create none none));
  registry = none;
  qr_code_supplier = some (some (codes "2@x"));
}

respond_login :
    (respond process monitor (codes "/login")).content_type ≡ codes "text/html; charset=utf-8"
unfolding respond text_eq
respond_login = refl

handle_request_bad_host :
    handle_request process monitor none (some (codes "a b"))
    ≡ threw (plain_error (codes "Invalid URL"))
unfolding handle_request text_eq
handle_request_bad_host = refl

metrics-Shown_example : Shown process monitor (run some_events (create none none))
metrics-Shown_example = metrics-Shown process monitor none none some_events (tt, (tt, tt)) refl

abbrev sockets : Sockets
sockets = record { listening = (0, 80) ∷ []; next = 1 }

abbrev next_port : List (ℕ × ℕ) → ℕ
next_port servers = 40000 + length servers

start-Lives_example : Lives next_port monitor sockets
start-Lives_example =
    start-Lives next_port monitor sockets (omega arith, tt) (omega arith) (inr refl)

abbrev idle_client : Wazeko
idle_client = record {
  credentials = record { me = none; registered = true };
  state = disconnected;
  event_queue = record { queue = []; waiters = []; closed = false; asked = 0; deliveries = [] };
  encoder = record { buffer = [] };
  emitted = [];
}

abbrev requests : List Request
requests = connects none by_neither ∷ disconnects (codes "bye") ∷ []

health-announced_example :
    at (codes "state") (
      at
        (codes "connection")
        (health process (record monitor { client = some (serve_all requests idle_client) })))
    ≡ string (state_name (announced disconnected (serve_all requests idle_client).emitted))
health-announced_example =
    health-announced process (record monitor { client = some (serve_all requests idle_client) })
      requests idle_client refl refl
