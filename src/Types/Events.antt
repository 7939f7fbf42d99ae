-- ===== src/Types/Events.antt =====
-- packages/wazeko-types/src/events.ts. An event is its name with its data; an `Error` is its text.
use wazeko.Prelude.{ℕ, Option}
use wazeko.Text.{Text}
use wazeko.Types.Jid.{Jid}
use wazeko.Types.Message.{Message, MessageStatus}
use wazeko.Types.Group.{GroupMetadata}

pub data ConnectionState : Type 0 where
  disconnected connecting authenticating connected reconnecting logged_out : ConnectionState

pub record QrCodeEvent : Type 0 where
  pub raw : Text
  pub attempts : ℕ
  pub timeout_seconds : ℕ

pub record PairingCodeEvent : Type 0 where
  pub code : Text
  pub expires_in_seconds : ℕ

pub record MessageReceiptEvent : Type 0 where
  pub message_id : Text
  pub chat : Jid
  pub sender : Option Jid
  pub status : MessageStatus
  pub timestamp : ℕ

pub data WazekoEvent : Type 0 where
  connection_update : ConnectionState → WazekoEvent
  qr : QrCodeEvent → WazekoEvent
  pairing_code : PairingCodeEvent → WazekoEvent
  authenticated : Jid → WazekoEvent
  message : Message → WazekoEvent
  message_receipt : MessageReceiptEvent → WazekoEvent
  message_delete : Text → Jid → WazekoEvent
  group_update : GroupMetadata → WazekoEvent
  presence_update : Jid → Text → WazekoEvent
  error : Text → WazekoEvent
  disconnect : Text → WazekoEvent
