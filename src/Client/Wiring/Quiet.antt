-- ===== src/Client/Wiring/Quiet.antt =====
-- packages/wazeko/src/client.ts: a send of which no command takes notice.
use wazeko.Prelude.{ℕ, ◌≡◌, refl, some, ap, ◌++◌, ◌∷◌, []}
use wazeko.Text.{Text}
use wazeko.Types.Jid.{JidOrText}
use wazeko.Types.Message.{Message, MessageContent}
use wazeko.Protocol.Encoder.{BinaryEncoder, Encoded, encoded, failed, encode}
use wazeko.Plugins.CommandRegistry.Dispatch.{ignored, handle_message}
use wazeko.Observability.Logger.{Values, Runtime}
use wazeko.Types.Events.{message}
use wazeko.Events as Queues
use wazeko.Client.{dispatched, dispatch_node, emit_message, emit_event}
use wazeko.Client.Messaging as Messaging
use wazeko.Client.Wiring.{
  Parts, Inside, inside, handled, on_message, announce, after_encoding, send_message,
}

module _ {v : Values} {W S : Type 0} (r : Runtime v W) (to_lower_case resolve : Text → Text)
    (a : Parts v W S) (m : Message)
    (quiet : (w : Inside W) → handle_message to_lower_case resolve m a.plugins w ≡ ignored) where
  on_message-quiet :
      (b : Parts v W S)
      → handle_message to_lower_case resolve m b.plugins (inside r to_lower_case resolve b)
        ≡ ignored
      → on_message r to_lower_case resolve m b ≡ b
  unfolding on_message
  on_message-quiet b h = ap (λ x. handled r to_lower_case resolve x b) h

  after_encoding-quiet :
      (x : Encoded × BinaryEncoder)
      → ((after_encoding r to_lower_case resolve m x a).0 ≡ (dispatched m (some m) a.client x).0)
        × ((after_encoding r to_lower_case resolve m x a).1.client
            ≡ (dispatched m (some m) a.client x).1)
  unfolding announce emit_message emit_event
  after_encoding-quiet (encoded out, encoder) =
      let told = record a {
        client = record a.client {
          encoder = encoder;
          emitted = a.client.emitted ++ message m ∷ [];
        };
      } in
      (
        refl,
        ap
            (λ (b : Parts v W S). record b.client {
              event_queue = Queues.push (message m) b.client.event_queue;
            })
            (on_message-quiet told (quiet (inside r to_lower_case resolve told))),
      )
  after_encoding-quiet (failed e, encoder) = (refl, refl)

module _ {v : Values} {W S : Type 0} (r : Runtime v W) (to_lower_case resolve : Text → Text) where
  -- Where the plugins run nothing for a message, a send of the client is that of its messaging.
  pub send_message-quiet :
      (to : JidOrText) (content : MessageContent) (hex : Text) (now : ℕ) (a : Parts v W S)
      → ((w : Inside W)
          → handle_message to_lower_case resolve
              (Messaging.new_message to content hex now a.client)
              a.plugins
              w
            ≡ ignored)
      → ((send_message r to_lower_case resolve to content hex now a).0
          ≡ (Messaging.send_message to content hex now a.client).0)
        × ((send_message r to_lower_case resolve to content hex now a).1.client
            ≡ (Messaging.send_message to content hex now a.client).1)
  unfolding send_message Messaging.send_message dispatch_node
  send_message-quiet to content hex now a quiet =
      after_encoding-quiet r to_lower_case resolve a
        (Messaging.new_message to content hex now a.client) quiet
        (encode a.client.encoder
          (Messaging.message_node (Messaging.new_message to content hex now a.client)))
