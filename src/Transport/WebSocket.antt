-- ===== src/Transport/WebSocket.antt =====
-- packages/wazeko-transport/src/websocket.ts. The sockets of the package `ws` are numbered in the order
-- in which `connect` makes them, and what they do are events; `step` is the listener that runs. Data
-- that is no buffer comes as the text that it is turned into.
pub mod Settling
mod Examples
use wazeko.Prelude.{
  ℕ, zero, suc, ◌+◌, Bool, true, false, ◌&&◌, Option, none, some, List, [], ◌∷◌, ◌++◌,
  if◌then◌else◌, length, get_elem?, set_at,
}
use wazeko.Text.{Text, codes}
use wazeko.Text.Decimal.{decimal}
use wazeko.Text.Utf8.{utf8_encode, buffer_text}
use wazeko.Core.Errors.{Thrown, connection_error}
use wazeko.Core.Crypto.{Bytes}

pub data Data : Type 0 where
  buffer : Bytes → Data
  array_buffer : Bytes → Data
  other_data : Text → Data

pub data Emitted : Type 0 where
  open_event : Emitted
  message_event : Bytes → Emitted
  close_event : ℕ → Text → Emitted
  error_event : Text → Emitted

pub data Settlement : Type 0 where
  resolved : Settlement
  rejected : Thrown → Settlement

-- A call of `connect`: its variable `settled`, and the calls of `resolve` and `reject` so far. Where
-- no socket could be made, nothing else can settle the promise, and `settled` is true.
pub record Attempt : Type 0 where
  pub settled : Bool
  pub settlements : List Settlement

pub record WebSocketTransport : Type 0 where
  pub ws : Option ℕ
  pub is_connected_flag : Bool
  pub attempts : List Attempt
  pub has_error_listener : Bool
  pub crashed : Bool
  pub emitted : List Emitted

abbrev pub create : WebSocketTransport
create = record {
  ws = none;
  is_connected_flag = false;
  attempts = [];
  has_error_listener = false;
  crashed = false;
  emitted = [];
}

-- `is_open` says which sockets have the ready state OPEN.
abbrev pub open_socket : (ℕ → Bool) → Option ℕ → Bool
open_socket is_open (some socket) = is_open socket
open_socket is_open none = false

unfoldable pub is_connected : (ℕ → Bool) → WebSocketTransport → Bool
is_connected is_open t = t.is_connected_flag && open_socket is_open t.ws

unfoldable pub settle : Settlement → Attempt → Attempt
settle settlement a =
    if a.settled
    then a
    else record { settled = true; settlements = a.settlements ++ settlement ∷ [] }

-- The attempt that made a socket.
unfoldable pub settle_at : ℕ → Settlement → List Attempt → List Attempt
unfolding settle
settle_at i settlement [] = []
settle_at zero settlement (a ∷ as') = settle settlement a ∷ as'
settle_at (suc i) settlement (a ∷ as') = a ∷ settle_at i settlement as'

abbrev pub bytes_of : Data → Bytes
bytes_of (buffer b) = b
bytes_of (array_buffer b) = b
bytes_of (other_data t) = utf8_encode t

-- What happens to a transport: calls of `connect`, with the error where the socket cannot be made,
-- events of the sockets, calls of `close`, and the program that sets a listener for errors.
pub data Event : Type 0 where
  connect : Event
  connect_fails : Text → Event
  opened : ℕ → Event
  message : ℕ → Data → Event
  closed : ℕ → ℕ → Bytes → Event
  listens_for_errors : Event
  errored : ℕ → Text → Event
  close : Event

unfoldable pub close_socket : WebSocketTransport → WebSocketTransport
close_socket t = record t { ws = none; is_connected_flag = false }

-- To emit `error` throws where no one listens for it: nothing more of the listener runs, and the
-- exception, which nobody catches, ends the process.
unfoldable pub step : Event → WebSocketTransport → WebSocketTransport
unfolding close_socket settle_at utf8_encode buffer_text decimal
step connect t = record t {
  ws = some (length t.attempts);
  attempts = t.attempts ++ record { settled = false; settlements = [] } ∷ [];
}
step (connect_fails e) t = record t {
  attempts =
      t.attempts
      ++ record {
        settled = true;
        settlements =
            rejected (connection_error (codes "Failed to initialize WebSocket: " ++ e)) ∷ [];
      }
        ∷ [];
}
step (opened i) t = record t {
  is_connected_flag = true;
  emitted = t.emitted ++ open_event ∷ [];
  attempts = settle_at i resolved t.attempts;
}
step (message i data') t = record t { emitted = t.emitted ++ message_event (bytes_of data') ∷ [] }
step (closed i code reason) t = record t {
  is_connected_flag = false;
  emitted = t.emitted ++ close_event code (buffer_text reason) ∷ [];
  attempts =
      settle_at i
        (rejected (
          connection_error
            (codes "WebSocket closed before connected (code: " ++ (decimal code ++ codes ")"))))
        t.attempts;
}
step (errored i e) t =
    if t.has_error_listener
    then record t {
      emitted = t.emitted ++ error_event e ∷ [];
      attempts =
          settle_at i (rejected (connection_error (codes "WebSocket connection error: " ++ e)))
            t.attempts;
    }
    else record t { crashed = true }
step listens_for_errors t = record t { has_error_listener = true }
step close t = close_socket t

unfoldable pub run : List Event → WebSocketTransport → WebSocketTransport
unfolding step
run [] t = t
run (e ∷ es) t = run es (if t.crashed then t else step e t)

-- What `send` ends with: it throws, or hands the bytes to a socket, which answers with an error or
-- none.
abbrev pub answered : Option Text → Settlement
answered none = resolved
answered (some e) = rejected (connection_error (codes "Failed to send packet: " ++ e))

unfoldable pub send : (ℕ → Bool) → Option Text → WebSocketTransport → Settlement
unfolding is_connected
send is_open answer t =
    if is_connected is_open t
    then answered answer
    else rejected (connection_error (codes "Cannot send data: WebSocket is not connected"))
