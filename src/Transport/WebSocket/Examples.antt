-- ===== src/Transport/WebSocket/Examples.antt =====
-- packages/wazeko-transport/src/websocket.ts: an old socket closes after a new one was opened.
use wazeko.Prelude.{some, get_elem?, ◌≡◌, refl, true, false, List, [], ◌∷◌}
use wazeko.Text.{codes}
use wazeko.Transport.WebSocket.{
  create, WebSocketTransport, listens_for_errors, errored, Event, connect, opened, closed, close,
  close_socket, step, run, is_connected,
}
use wazeko.Transport.WebSocket.Settling.{attempt_by, first_of, run-settles}

abbrev late_close : List Event
late_close = connect ∷ opened 0 ∷ close ∷ connect ∷ opened 1 ∷ closed 0 1000 [] ∷ []

abbrev dialing : WebSocketTransport
unfolding step
dialing = step connect create

-- The socket fails before it opens, and closes after that.
abbrev failing : List Event
failing =
    listens_for_errors ∷ connect ∷ opened 1 ∷ errored 0 (codes "refused") ∷ closed 0 1006 [] ∷ []

run-settles_example :
    get_elem? (run failing dialing).attempts 0 ≡ some (attempt_by (first_of 0 false failing))
unfolding dialing step
run-settles_example = run-settles 0 failing dialing refl refl

-- The new socket is open, and the transport says that it is not connected.
late_close_disconnects : is_connected (λ i. true) (run late_close create) ≡ false
unfolding is_connected run step close_socket
late_close_disconnects = refl
