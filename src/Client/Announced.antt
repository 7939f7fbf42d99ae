-- ===== src/Client/Announced.antt =====
-- packages/wazeko/src/client.ts: the state of a client and what its listeners were told of it.
use wazeko.Prelude.{◌≡◌, refl, ◌∙◌, Option, none, some, List, [], ◌∷◌, ◌++◌, if-cases}
use wazeko.Text.{Text}
use wazeko.Types.Message.{Message}
use wazeko.Types.Events.{
  ConnectionState, disconnected, connecting, authenticating, connected, WazekoEvent,
  connection_update, qr, pairing_code, authenticated, message, message_receipt, message_delete,
  group_update, presence_update, error, disconnect,
}
use wazeko.Protocol.Node.{ProtocolNode}
use wazeko.Protocol.Encoder.{BinaryEncoder, Encoded, encoded, failed, encode}
use wazeko.Client.{
  Wazeko, Credentials, Login, by_qr, by_pairing_code, by_neither, emit_event, set_state,
  run_connection_lifecycle, connect, disconnect_with, dispatch_node, dispatched, Jid,
  announce_login, load_credentials, announce_me,
}

-- The state that a row of events announces last, after `s`.
abbrev pub announced : ConnectionState → List WazekoEvent → ConnectionState
announced s [] = s
announced s (connection_update t ∷ es) = announced t es
announced s (qr _ ∷ es) = announced s es
announced s (pairing_code _ ∷ es) = announced s es
announced s (authenticated _ ∷ es) = announced s es
announced s (message _ ∷ es) = announced s es
announced s (message_receipt _ ∷ es) = announced s es
announced s (message_delete _ _ ∷ es) = announced s es
announced s (group_update _ ∷ es) = announced s es
announced s (presence_update _ _ ∷ es) = announced s es
announced s (error _ ∷ es) = announced s es
announced s (disconnect _ ∷ es) = announced s es

announced-append :
    (s : ConnectionState) (es fs : List WazekoEvent)
    → announced s (es ++ fs) ≡ announced (announced s es) fs
announced-append s [] fs = refl
announced-append s (connection_update t ∷ es) fs = announced-append t es fs
announced-append s (qr _ ∷ es) fs = announced-append s es fs
announced-append s (pairing_code _ ∷ es) fs = announced-append s es fs
announced-append s (authenticated _ ∷ es) fs = announced-append s es fs
announced-append s (message _ ∷ es) fs = announced-append s es fs
announced-append s (message_receipt _ ∷ es) fs = announced-append s es fs
announced-append s (message_delete _ _ ∷ es) fs = announced-append s es fs
announced-append s (group_update _ ∷ es) fs = announced-append s es fs
announced-append s (presence_update _ _ ∷ es) fs = announced-append s es fs
announced-append s (error _ ∷ es) fs = announced-append s es fs
announced-append s (disconnect _ ∷ es) fs = announced-append s es fs

-- What a program can ask of a client: the requests of groups and the messages are dispatched nodes.
pub data Request : Type 0 where
  connects : Option Credentials → Login → Request
  disconnects : Text → Request
  dispatches : ProtocolNode → Option Message → Request

unfoldable pub serve : Request → Wazeko → Wazeko
unfolding connect disconnect_with dispatch_node
serve (connects saved login) c = connect saved login c
serve (disconnects reason) c = disconnect_with reason c
serve (dispatches n m) c = (dispatch_node n m (let u : Unit {0} = tt in u) c).1

unfoldable pub serve_all : List Request → Wazeko → Wazeko
unfolding serve
serve_all [] c = c
serve_all (q ∷ qs) c = serve_all qs (serve q c)

-- The state of the client is the one that its listeners were told last.
abbrev pub IsAnnounced : Wazeko → Type 0
IsAnnounced c = announced disconnected c.emitted ≡ c.state

emit_event-IsAnnounced :
    (e : WazekoEvent) (c : Wazeko)
    → announced c.state (e ∷ []) ≡ c.state
    → IsAnnounced c
    → IsAnnounced (emit_event e c)
unfolding emit_event
emit_event-IsAnnounced e c k h = announced-append disconnected c.emitted (e ∷ []) ∙ rw h k

-- Whatever the client was, an announcement tells its state.
set_state-IsAnnounced : (s : ConnectionState) (c : Wazeko) → IsAnnounced (set_state s c)
unfolding set_state emit_event
set_state-IsAnnounced s c = announced-append disconnected c.emitted (connection_update s ∷ [])

announce_me-IsAnnounced :
    (o : Option Jid) (c : Wazeko) → IsAnnounced c → IsAnnounced (announce_me o c)
announce_me-IsAnnounced none c h = h
announce_me-IsAnnounced (some me) c h = emit_event-IsAnnounced (authenticated me) c refl h

announce_login-IsAnnounced :
    (login : Login) (c : Wazeko) → IsAnnounced c → IsAnnounced (announce_login login c)
announce_login-IsAnnounced (by_qr e) c h = emit_event-IsAnnounced (qr e) c refl h
announce_login-IsAnnounced (by_pairing_code e) c h =
    emit_event-IsAnnounced (pairing_code e) c refl h
announce_login-IsAnnounced by_neither c h = h

dispatched-IsAnnounced :
    (m : Option Message) (c : Wazeko) (r : Encoded × BinaryEncoder)
    → IsAnnounced c
    → IsAnnounced (dispatched (let u : Unit {0} = tt in u) m c r).1
unfolding emit_event
dispatched-IsAnnounced none c (encoded out, encoder) h = h
dispatched-IsAnnounced (some m) c (encoded out, encoder) h =
    emit_event-IsAnnounced (message m) (record c { encoder = encoder }) refl h
dispatched-IsAnnounced m c (failed e, encoder) h = h

run_connection_lifecycle-IsAnnounced :
    (login : Login) (c : Wazeko) → IsAnnounced (run_connection_lifecycle login c)
unfolding run_connection_lifecycle
run_connection_lifecycle-IsAnnounced login c =
    if-cases IsAnnounced c.credentials.registered _ _
      (λ _.
        announce_me-IsAnnounced c.credentials.me (set_state connected c)
          (set_state-IsAnnounced connected c))
      (λ _.
        announce_login-IsAnnounced login (set_state authenticating c)
          (set_state-IsAnnounced authenticating c))

serve-IsAnnounced : (q : Request) (c : Wazeko) → IsAnnounced c → IsAnnounced (serve q c)
unfolding serve connect
serve-IsAnnounced (connects saved login) c h =
    run_connection_lifecycle-IsAnnounced login (load_credentials saved (set_state connecting c))
serve-IsAnnounced (disconnects reason) c h =
    emit_event-IsAnnounced (disconnect reason) (set_state disconnected c) refl
      (set_state-IsAnnounced disconnected c)
serve-IsAnnounced (dispatches n m) c h = dispatched-IsAnnounced m c (encode c.encoder n) h

-- After any requests of a program, the state of a client is the one that its listeners were told
-- last, if it was so before.
pub serve_all-IsAnnounced :
    (qs : List Request) (c : Wazeko) → IsAnnounced c → IsAnnounced (serve_all qs c)
unfolding serve_all
serve_all-IsAnnounced [] c h = h
serve_all-IsAnnounced (q ∷ qs) c h = serve_all-IsAnnounced qs (serve q c) (serve-IsAnnounced q c h)
