-- ===== src/Types/Message.antt =====
-- packages/wazeko-types/src/message.ts. Times are whole numbers.
use wazeko.Prelude.{ℕ, Bool, Option, List}
use wazeko.Text.{Text}
use wazeko.Types.Jid.{Jid}

pub data MessageStatus : Type 0 where
  pending server_ack delivery_ack read played : MessageStatus

pub record MessageSource : Type 0 where
  pub chat : Jid
  pub sender : Jid
  pub is_from_me : Bool
  pub is_group : Bool

-- `Uint8Array | Buffer | { url: string }`.
pub data MediaSource : Type 0 where
  bytes : List ℕ → MediaSource
  url : Text → MediaSource

-- The arguments stand in the order of the source's fields.
pub data MessageContent : Type 0 where
  text : Text → MessageContent
  image : MediaSource → Option Text → Option Text → MessageContent
  video : MediaSource → Option Text → Option Text → MessageContent
  audio : MediaSource → Option Text → Option Bool → MessageContent
  document : MediaSource → Option Text → Option Text → MessageContent
  react : Text → Text → MessageContent
  reply : Text → Text → Text → MessageContent

pub record Message : Type 0 where
  pub id : Text
  pub source : MessageSource
  pub content : MessageContent
  pub timestamp : ℕ
  pub status : MessageStatus
