-- ===== src/Core/Errors.antt =====
-- packages/wazeko-core/src/errors.ts. The cause of an error, which nothing reads, is left out.
use wazeko.Text.{Text}

pub data WazekoErrorCode : Type 0 where
  connection authentication protocol session message media : WazekoErrorCode

-- What code of this repository or a library throws; an `Error` of neither class is its message.
pub data Thrown : Type 0 where
  wazeko_error : WazekoErrorCode → Text → Thrown
  plain_error : Text → Thrown

abbrev pub connection_error : Text → Thrown
connection_error = wazeko_error connection

abbrev pub authentication_error : Text → Thrown
authentication_error = wazeko_error authentication

abbrev pub protocol_error : Text → Thrown
protocol_error = wazeko_error protocol

abbrev pub session_error : Text → Thrown
session_error = wazeko_error session

abbrev pub message_error : Text → Thrown
message_error = wazeko_error message

-- What a call returns or throws.
pub data Result {ℓ} (A : Type ℓ) : Type ℓ where
  ok : A → Result A
  threw : Thrown → Result A

-- The `void` of TypeScript.
abbrev pub Void : Type 0
Void = Unit {0}

infixl 5 ◌>>=◌
abbrev pub ◌>>=◌ {ℓ κ} : {A : Type ℓ} {B : Type κ} → Result A → (A → Result B) → Result B
ok a >>= f = f a
threw e >>= f = threw e
