-- ===== src/Client/Wiring/Examples.antt =====
-- packages/wazeko/src/client.ts: a client with its parts, a job that it sends, and its end.
use wazeko.Prelude.{ℕ, true, none, List, [], ◌∷◌, ◌++◌, length}
use wazeko.Text.{Text, codes}
use wazeko.Types.Jid.{text}
use wazeko.Types.Message.{MessageContent}
use wazeko.Queue.Job.{MessageJobOptions}
use wazeko.Queue.MessageQueue.{InProgress, dispatching, started, new_job}
use wazeko.Plugins.CommandRegistry.{CommandRegistry, literal}
use wazeko.Observability.Logger.{Values, Runtime, Action, returned}
use wazeko.Observability.Monitoring.Server.{Sockets}
use wazeko.Client.Builder.{default_client_config}
use wazeko.Client.{Failure}
use wazeko.Client.Wiring.{Parts, Inside, construct, enqueue_message}

abbrev texts : Values
texts = record {
  Value = Text;
  undefined = [];
  text = λ t. t;
  object = λ m. codes "{}";
  is_truthy = λ t. true;
  as_error = λ t. none;
  to_text = λ t. t;
}

abbrev runtime : Runtime texts (List Text)
runtime = record {
  Time = ℕ;
  iso_now = λ w. codes "2025";
  performance_now = length;
  elapsed = λ start w. codes "1.5";
  stringify = λ m. returned (codes "{}");
}

abbrev registry : CommandRegistry (Inside (List Text))
registry = record {
  commands = [];
  aliases = [];
  file_map = [];
  pipeline = [];
  prefix = literal (codes "!");
  owner_jids = [];
  emitted = [];
}

abbrev sockets : Sockets
sockets = record { listening = []; next = 0 }

abbrev appends : Text → Action texts (List Text) (Unit {0})
appends line w = (returned tt, w ++ line ∷ [])

abbrev options : MessageJobOptions
options = record {
  priority = none;
  max_retries = none;
  retry_delay_ms = none;
  timeout_ms = none;
  custom_id = none;
}

-- A client with one job, which is sent.
abbrev bot : Parts texts (List Text) ℕ
bot =
    enqueue_message (text (codes "62811")) (MessageContent.text (codes "!ping")) options (codes "j")
      7000
      (construct appends registry (record { buffer = [] }) 5 (default_client_config 1) none sockets
        [])

abbrev job : InProgress
job = record {
  job = started (
      new_job (text (codes "62811")) (MessageContent.text (codes "!ping")) options (codes "j")
        7000);
  phase = dispatching;
}

abbrev told : Failure → Text
told f = codes "failed"
