-- ===== src/Client/Wiring.antt =====
-- packages/wazeko/src/client.ts: how the constructor puts the parts of a client together, and the
-- methods that hand a call on. The commands of the plugins act on the client, on its queue and on a
-- world outside, so that what they send is part of what the listener of messages does. A command
-- runs to its end where the listener is called; what it would do behind an `await` that takes time,
-- and what it does to the registry, the logger and the monitor, is not modelled, nor are the
-- listeners that a program adds. `S` is the type of stores that a program may bring.
pub mod Shutdown
pub mod Quiet
mod Examples
use wazeko.Prelude.{ℕ, Option, none, some, List, [], ◌∷◌, ◌++◌, get_elem?, false}
use wazeko.Text.{Text, codes}
use wazeko.Map.{Map}
use wazeko.Types.Jid.{JidOrText, jid}
use wazeko.Types.Message.{Message, MessageContent, MediaSource}
use wazeko.Types.Events.{ConnectionState, disconnected, QrCodeEvent, message}
use wazeko.Events as Queues
use wazeko.Protocol.Encoder.{BinaryEncoder, Encoded, encoded, failed, encode}
use wazeko.Queue.RateLimiter.{or_else}
use wazeko.Auth.Pairing.{QrCodeManager}
use wazeko.Queue.Job.{MessageJobOptions}
use wazeko.Queue.MessageQueue.{MessageQueue, InProgress, dispatching, finished, backing_off}
use wazeko.Queue.MessageQueue as MessageQueues
use wazeko.Queue.Machine.{step, sends, throws}
use wazeko.Plugins.Middleware.{fulfilled, rejected, Execution}
use wazeko.Plugins.CommandRegistry.{CommandRegistry}
use wazeko.Plugins.CommandRegistry.Dispatch.{Handled, ignored, ran, handle_message}
use wazeko.Observability.Logger.{
  Values, Runtime, Action, Completion, returned, raised, StructuredLogger, new_logger, error,
}
use wazeko.Observability.Monitoring.{MonitoringServer, new_server}
use wazeko.Observability.Monitoring.Server.{Sockets, Ending, stop}
use wazeko.Client.{Wazeko, Credentials, Failure, Outcome, bad_node, disconnect_with}
use wazeko.Client.Messaging as Messaging
use wazeko.Client.Builder.{ClientConfig, ChosenStore, chosen_store}

-- What a command reaches of a client, and the world outside.
pub record Inside (W : Type 0) : Type 0 where
  pub client : Wazeko
  pub queue : MessageQueue
  pub outside : W

-- The parts of a client. `unhandled` is what promises were rejected with that no one handles.
pub record Parts (v : Values) (W S : Type 0) : Type 0 where
  pub config : ClientConfig
  pub auth_store : ChosenStore S
  pub client : Wazeko
  pub qr_manager : QrCodeManager
  pub queue : MessageQueue
  pub plugins : CommandRegistry (Inside W)
  pub logger : StructuredLogger v W
  pub monitor : MonitoringServer (Inside W)
  pub sockets : Sockets
  pub world : W
  pub unhandled : List v.Value

-- A client that nothing has happened to; credentials are those of `initCredentials`.
unfoldable pub new_client : BinaryEncoder → Wazeko
unfolding Queues.create
new_client encoder = record {
  credentials = record { me = none; registered = false };
  state = disconnected;
  event_queue = Queues.create;
  encoder = encoder;
  emitted = [];
}

abbrev pub raw_of : Option QrCodeEvent → Option Text
raw_of none = none
raw_of (some event) = some event.raw

module _ {v : Values} {W S : Type 0} where
  -- `registry` is what `new CommandRegistry()` makes, `encoder` a new encoder, and `stdout` writes to
  -- the standard output.
  unfoldable pub construct :
      (Text → Action v W (Unit {0}))
      → CommandRegistry (Inside W)
      → BinaryEncoder
      → ℕ
      → ClientConfig
      → Option S
      → Sockets
      → W
      → Parts v W S
  unfolding new_client new_logger new_server
  construct stdout registry encoder now config custom_store sockets world = record {
    config = config;
    auth_store = chosen_store config custom_store;
    client = new_client encoder;
    qr_manager = record { current_qr = none };
    queue = MessageQueues.create none none;
    plugins = registry;
    logger =
        new_logger v W stdout
          (record { level = none; service = some (codes "wazeko-client"); destination = none });
    monitor = new_server now (record {
      port = none;
      host = none;
      client = none;
      queue = none;
      registry = none;
      qr_code_supplier = none;
    });
    sockets = sockets;
    world = world;
    unhandled = [];
  }

  -- The monitor with the parts that it was made with, as they are now.
  unfoldable pub seen_by_monitor : Parts v W S → MonitoringServer (Inside W)
  seen_by_monitor a = record a.monitor {
    client = some a.client;
    queue = some a.queue;
    registry = some a.plugins;
    qr_code_supplier = some (raw_of a.qr_manager.current_qr);
  }

module _ {v : Values} {W S : Type 0} (r : Runtime v W) (to_lower_case resolve : Text → Text) where
  abbrev pub logged : Completion v.Value (Unit {0}) × W → Parts v W S → Parts v W S
  logged (returned _, w) a = record a { world = w }
  logged (raised e, w) a = record a { world = w; unhandled = a.unhandled ++ e ∷ [] }

  abbrev pub inside : Parts v W S → Inside W
  inside a = record { client = a.client; queue = a.queue; outside = a.world }

  abbrev pub left_by : Inside W → Parts v W S → Parts v W S
  left_by i a = record a { client = i.client; queue = i.queue; world = i.outside }

  abbrev pub handled : Handled (Inside W) → Parts v W S → Parts v W S
  handled ignored a = a
  handled (ran fulfilled s) a = left_by s.world a
  handled (ran (rejected e) s) a =
      logged
        (error r a.logger (codes "Plugin handler execution failed") (v.text e) [] s.world.outside)
        (left_by s.world a)

  -- The listener of the constructor.
  unfoldable pub on_message : Message → Parts v W S → Parts v W S
  unfolding handle_message error
  on_message m a = handled (handle_message to_lower_case resolve m a.plugins (inside a)) a

  -- `emitEvent("message", m)`: the listener runs, with all that it sends, before the event is pushed.
  unfoldable pub announce : Message → Parts v W S → Parts v W S
  unfolding on_message Queues.push
  announce m a =
      let told = record a {
        client = record a.client { emitted = a.client.emitted ++ message m ∷ [] };
      } in
      let heard = on_message m told in
      record heard {
        client = record heard.client {
          event_queue = Queues.push (message m) heard.client.event_queue;
        };
      }

  abbrev pub after_encoding :
      Message → Encoded × BinaryEncoder → Parts v W S → Outcome Message × Parts v W S
  after_encoding m (encoded out, encoder) a =
      (Outcome.returned m, announce m (record a { client = record a.client { encoder = encoder } }))
  after_encoding m (failed e, encoder) a =
      (Outcome.rejected (bad_node e), record a { client = record a.client { encoder = encoder } })

  unfoldable pub send_message :
      JidOrText → MessageContent → Text → ℕ → Parts v W S → Outcome Message × Parts v W S
  unfolding announce encode Messaging.new_message Messaging.message_node
  send_message to content hex now a =
      let m = Messaging.new_message to content hex now a.client in
      after_encoding m (encode a.client.encoder (Messaging.message_node m)) a

  unfoldable pub send_image :
      JidOrText
      → MediaSource
      → Option Text
      → Option Text
      → Text
      → ℕ
      → Parts v W S
      → Outcome Message × Parts v W S
  unfolding send_message
  send_image to image caption mimetype =
      send_message to
        (MessageContent.image image (some (or_else mimetype (codes "image/jpeg"))) caption)

  unfoldable pub reply : Message → Text → Text → ℕ → Parts v W S → Outcome Message × Parts v W S
  unfolding send_message Messaging.quoted_text
  reply original t =
      send_message (jid original.source.chat)
        (MessageContent.reply original.id (Messaging.quoted_text original.content) t)

  -- The sender of the queue: what the job at place `i` waits for is settled as its send is.
  abbrev pub job_settled : (Failure → Text) → ℕ → Outcome Message × Parts v W S → Parts v W S
  job_settled text_of i (Outcome.returned m, a) = record a { queue = step (sends i m) a.queue }
  job_settled text_of i (Outcome.rejected f, a) = record a {
    queue = step (throws i (text_of f)) a.queue;
  }

  abbrev pub job_sent :
      (Failure → Text) → ℕ → Option InProgress → Text → ℕ → Parts v W S → Parts v W S
  job_sent text_of i none hex now a = a
  job_sent text_of i (some p) hex now a = elim p.phase [
    | dispatching ↦ job_settled text_of i (send_message p.job.to p.job.content hex now a)
    | finished ↦ a
    | backing_off d ↦ a
  ]

  unfoldable pub send_job : (Failure → Text) → ℕ → Text → ℕ → Parts v W S → Parts v W S
  unfolding send_message step
  send_job text_of i hex now a = job_sent text_of i (get_elem? a.queue.in_progress i) hex now a

module _ {v : Values} {W S : Type 0} where
  unfoldable pub enqueue_message :
      JidOrText → MessageContent → MessageJobOptions → Text → ℕ → Parts v W S → Parts v W S
  unfolding MessageQueues.enqueue
  enqueue_message to content options fresh_id now a = record a {
    queue = MessageQueues.enqueue to content options fresh_id now a.queue;
  }

  abbrev pub monitor_stopped :
      Ending × MonitoringServer (Inside W) × Sockets → Parts v W S → Ending × Parts v W S
  monitor_stopped (ending, m, s) a = (ending, record a { monitor = m; sockets = s })

  unfoldable pub disconnect : Text → Parts v W S → Ending × Parts v W S
  unfolding disconnect_with stop
  disconnect reason a =
      monitor_stopped (stop a.monitor a.sockets)
        (record a { client = disconnect_with reason a.client })
