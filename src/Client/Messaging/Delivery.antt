-- ===== src/Client/Messaging/Delivery.antt =====
-- packages/wazeko/src/messaging.ts: what becomes of a message.
use wazeko.Prelude.{◌≡◌, [], ◌∷◌, ◌++◌}
use wazeko.Text.{Text, codes}
use wazeko.Types.Jid.{jid_to_string}
use wazeko.Types.Message.{Message}
use wazeko.Types.Events.{message}
use wazeko.Events as Queues
use wazeko.Protocol.Encoder.{Encoded, encoded, failed}
use wazeko.Protocol.Node.{ProtocolNode, undefined, node}
use wazeko.Client.{Wazeko, Outcome, returned, rejected, bad_node}

-- What a receiver is to read of a message.
abbrev pub announced : Message → ProtocolNode
announced m =
    node (codes "message")
      ((codes "id", m.id)
        ∷ (codes "to", jid_to_string m.source.chat)
        ∷ (codes "type", codes "text")
        ∷ [])
      undefined

-- By what the encoder gives for the node of the message: the promise is fulfilled with the message,
-- which the listeners and the event queue get, and the encoder keeps the bytes; or it is rejected for
-- the reason that the encoder gives, and the listeners and the queue get nothing.
abbrev pub Settles : Wazeko → Message → Encoded → Outcome Message × Wazeko → Type 0
Settles c m (encoded out) r =
    (r.0 ≡ returned m)
    × (r.1.emitted ≡ c.emitted ++ message m ∷ [])
    × (r.1.event_queue ≡ Queues.push (message m) c.event_queue)
    × (r.1.encoder.buffer ≡ out)
Settles c m (failed e) r =
    (r.0 ≡ rejected (bad_node e)) × (r.1.emitted ≡ c.emitted) × (r.1.event_queue ≡ c.event_queue)
