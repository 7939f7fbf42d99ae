-- ===== src/Observability/Reports.antt =====
-- packages/wazeko/src/observability/monitoring-server.ts: the values that its answers are made of.
use wazeko.Prelude.{if◌then◌else◌, ℕ, Option, none, some, length}
use wazeko.Text.{Text, codes, text_eq}
use wazeko.Types.Jid.{Jid}
use wazeko.Types.Events.{
  ConnectionState, disconnected, connecting, authenticating, connected, reconnecting, logged_out,
}
use wazeko.Queue.Job.{QueueStats}
use wazeko.Queue.MessageQueue.{MessageQueue, get_stats}
use wazeko.Plugins.CommandRegistry.{CommandRegistry, list_commands}
use wazeko.Client.{Wazeko, get_me, get_connection_state}

-- A value that `JSON.stringify` is given. `decimal` is what `Number` makes of a size in megabytes.
mutual
  pub data Json : Type 0 where
    undefined null : Json
    number decimal : ℕ → Json
    string : Text → Json
    object : Fields → Json

  pub data Fields : Type 0 where
    end : Fields
    field : Text → Json → Fields → Fields

abbrev pub state_name : ConnectionState → Text
state_name disconnected = codes "disconnected"
state_name connecting = codes "connecting"
state_name authenticating = codes "authenticating"
state_name connected = codes "connected"
state_name reconnecting = codes "reconnecting"
state_name logged_out = codes "logged_out"

-- The `state` of a client that may be absent.
abbrev pub conn_state : Option Wazeko → Text
conn_state none = codes "unknown"
conn_state (some c) = state_name (get_connection_state c)

abbrev user_of : Option Jid → Json
user_of none = null
user_of (some me) = string me.user

-- `this.client?.getMe()?.user ?? null`.
abbrev pub authenticated_user : Option Wazeko → Json
authenticated_user none = null
authenticated_user (some c) = user_of (get_me c)

unfoldable pub stats_object : QueueStats → Json
stats_object s = object (
    field (codes "pendingCount") (number s.pending_count) (
      field (codes "highPriorityCount") (number s.high_priority_count) (
        field (codes "normalPriorityCount") (number s.normal_priority_count) (
          field (codes "lowPriorityCount") (number s.low_priority_count) (
            field (codes "processingCount") (number s.processing_count) (
              field (codes "completedCount") (number s.completed_count)
                (field (codes "failedCount") (number s.failed_count) end)))))))

abbrev pub queue_stats : Option MessageQueue → Json
queue_stats none = undefined
queue_stats (some q) = stats_object (get_stats q)

abbrev pub counter : (QueueStats → ℕ) → Option MessageQueue → ℕ
counter f none = 0
counter f (some q) = f (get_stats q)

abbrev pub command_count : {W : Type 0} → Option (CommandRegistry W) → ℕ
command_count none = 0
command_count (some r) = length (list_commands r)

abbrev pub current_qr : Option (Option Text) → Option Text
current_qr none = none
current_qr (some qr) = qr

abbrev pub qr_or_null : Option Text → Json
qr_or_null none = null
qr_or_null (some qr) = string qr

-- A field of an object.
abbrev pub field_of : Text → Fields → Json
field_of k end = undefined
field_of k (field name value more) = if text_eq name k then value else field_of k more

abbrev pub at : Text → Json → Json
at k (object fields) = field_of k fields
at k undefined = undefined
at k null = undefined
at k (number n) = undefined
at k (decimal n) = undefined
at k (string t) = undefined
