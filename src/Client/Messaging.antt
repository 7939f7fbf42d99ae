-- ===== src/Client/Messaging.antt =====
-- packages/wazeko/src/messaging.ts. `hex` is the random part of a message's id, sixteen upper-case
-- hexadecimal digits, and the clock is an argument, in milliseconds.
pub mod Delivery
use wazeko.Prelude.{ℕ, ◌/◌, true, Bool, Option, none, some, ◌++◌, if◌then◌else◌}
use wazeko.Text.{Text, codes, text_eq}
use wazeko.Types.Jid.{Jid, JidOrText, jid, text, group_server, jid_user, jid_to_string}
use wazeko.Types.Message.{Message, MessageContent, MediaSource, pending}
use wazeko.Protocol.Node.{ProtocolNode, create, attr, build}
use wazeko.Queue.RateLimiter.{or_else}
use wazeko.Client.{Wazeko, Outcome, get_me, dispatch_node}

-- `typeof to === "string" ? jidUser(to) : to`.
unfoldable pub recipient : JidOrText → Jid
unfolding jid_user
recipient (jid j) = j
recipient (text t) = jid_user t

unfoldable pub new_message : JidOrText → MessageContent → Text → ℕ → Wazeko → Message
unfolding recipient jid_user
new_message to content hex now c = record {
  id = codes "3EB0" ++ hex;
  source = record {
    chat = recipient to;
    sender = or_else (get_me c) (jid_user (codes "0"));
    is_from_me = true;
    is_group = text_eq (recipient to).server group_server;
  };
  content = content;
  timestamp = now / 1000;
  status = pending;
}

unfoldable pub message_node : Message → ProtocolNode
unfolding create attr build jid_to_string
message_node m = build (
    attr (codes "type") (codes "text") (
      attr (codes "to") (jid_to_string m.source.chat)
        (attr (codes "id") m.id (create (codes "message")))))

unfoldable pub send_message :
    JidOrText → MessageContent → Text → ℕ → Wazeko → Outcome Message × Wazeko
unfolding new_message message_node dispatch_node
send_message to content hex now c =
    let m = new_message to content hex now c in dispatch_node (message_node m) (some m) m c

-- The options of `sendImage` are the caption and the type of the image.
unfoldable pub send_image :
    JidOrText
    → MediaSource
    → Option Text
    → Option Text
    → Text
    → ℕ
    → Wazeko
    → Outcome Message × Wazeko
unfolding send_message
send_image to image caption mimetype =
    send_message to
      (MessageContent.image image (some (or_else mimetype (codes "image/jpeg"))) caption)

unfoldable pub quoted_text : MessageContent → Text
quoted_text (MessageContent.text t) = t
quoted_text (MessageContent.reply quoted_id quoted t) = t
quoted_text _ = codes "[Media]"

unfoldable pub reply : Message → Text → Text → ℕ → Wazeko → Outcome Message × Wazeko
unfolding quoted_text send_message
reply original t =
    send_message (jid original.source.chat)
      (MessageContent.reply original.id (quoted_text original.content) t)
