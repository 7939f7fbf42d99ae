-- ===== src/Client.antt =====
-- packages/wazeko/src/client.ts: the state of the client that its own methods, the groups and the
-- messaging reach. `emitted` is what the listeners of the `EventEmitter` were called with. No other
-- call comes between the load of the credentials and the rest of `connect`; what is printed and the
-- stop of the monitor have no effect on this state. What the listeners do when they are called is not
-- part of it: Client/Wiring has the listener that the constructor sets, which runs commands.
pub mod Lifecycle
pub mod Announced
pub mod Groups
pub mod Messaging
pub mod Builder
pub mod Wiring
pub mod Examples
use wazeko.Prelude.{Bool, Option, none, some, List, [], ◌∷◌, ◌++◌, if◌then◌else◌}
use wazeko.Text.{Text, codes}
use wazeko.Types.Jid.{Jid, JidError}
use wazeko.Types.Message.{Message}
use wazeko.Types.Events.{
  ConnectionState, disconnected, connecting, authenticating, connected, QrCodeEvent,
  PairingCodeEvent, WazekoEvent, connection_update, qr, pairing_code, authenticated, message,
  disconnect,
}
use wazeko.Protocol.Node.{ProtocolNode}
use wazeko.Protocol.Encoder.{BinaryEncoder, EncodeError, Encoded, encoded, failed, encode}
use wazeko.Events as Queues

-- The two fields of the credentials that the client reads.
pub record Credentials : Type 0 where
  pub me : Option Jid
  pub registered : Bool

pub record Wazeko : Type 0 where
  pub credentials : Credentials
  pub state : ConnectionState
  pub event_queue : Queues.AsyncEventQueue WazekoEvent
  pub encoder : BinaryEncoder
  pub emitted : List WazekoEvent

pub data Failure : Type 0 where
  bad_jid : JidError → Failure
  bad_node : EncodeError → Failure

-- What the promise of a call is settled with.
pub data Outcome {ℓ} (A : Type ℓ) : Type ℓ where
  returned : A → Outcome A
  rejected : Failure → Outcome A

abbrev pub get_me : Wazeko → Option Jid
get_me c = c.credentials.me

abbrev pub get_connection_state : Wazeko → ConnectionState
get_connection_state c = c.state

abbrev pub events : Wazeko → Queues.AsyncEventQueue WazekoEvent
events c = c.event_queue

unfoldable pub emit_event : WazekoEvent → Wazeko → Wazeko
unfolding Queues.push
emit_event event c = record c {
  emitted = c.emitted ++ event ∷ [];
  event_queue = Queues.push event c.event_queue;
}

unfoldable pub set_state : ConnectionState → Wazeko → Wazeko
unfolding emit_event
set_state new_state c = emit_event (connection_update new_state) (record c { state = new_state })

-- The two ways to log in, each with the event that its manager makes.
pub data Login : Type 0 where
  by_qr : QrCodeEvent → Login
  by_pairing_code : PairingCodeEvent → Login
  by_neither : Login

abbrev pub announce_me : Option Jid → Wazeko → Wazeko
announce_me none c = c
announce_me (some me) c = emit_event (authenticated me) c

abbrev pub announce_login : Login → Wazeko → Wazeko
announce_login (by_qr event) c = emit_event (qr event) c
announce_login (by_pairing_code event) c = emit_event (pairing_code event) c
announce_login by_neither c = c

unfoldable pub run_connection_lifecycle : Login → Wazeko → Wazeko
unfolding set_state
run_connection_lifecycle login c =
    if c.credentials.registered
    then announce_me c.credentials.me (set_state connected c)
    else announce_login login (set_state authenticating c)

abbrev pub load_credentials : Option Credentials → Wazeko → Wazeko
load_credentials none c = c
load_credentials (some saved) c = record c { credentials = saved }

-- `saved` is what the store of credentials loads.
unfoldable pub connect : Option Credentials → Login → Wazeko → Wazeko
unfolding set_state run_connection_lifecycle
connect saved login c =
    run_connection_lifecycle login (load_credentials saved (set_state connecting c))

unfoldable pub disconnect_with : Text → Wazeko → Wazeko
unfolding set_state emit_event Queues.close
disconnect_with reason c =
    let told = emit_event (disconnect reason) (set_state disconnected c) in
    record told { event_queue = Queues.close (disconnect (codes "queue closed")) told.event_queue }

abbrev pub emit_message : Option Message → Wazeko → Wazeko
unfolding emit_event
emit_message none c = c
emit_message (some m) c = emit_event (message m) c

abbrev pub dispatched {ℓ} :
    {A : Type ℓ} → A → Option Message → Wazeko → Encoded × BinaryEncoder → Outcome A × Wazeko
dispatched a m c (encoded out, encoder) =
    (returned a, emit_message m (record c { encoder = encoder }))
dispatched a m c (failed e, encoder) = (rejected (bad_node e), record c { encoder = encoder })

-- `await dispatchNode(node, message)`, and then `a` is returned.
unfoldable pub dispatch_node {ℓ} :
    {A : Type ℓ} → ProtocolNode → Option Message → A → Wazeko → Outcome A × Wazeko
unfolding encode
dispatch_node n m a c = dispatched a m c (encode c.encoder n)
