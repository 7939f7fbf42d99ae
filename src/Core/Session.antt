-- ===== src/Core/Session.antt =====
-- packages/wazeko-core/src/session.ts and packages/wazeko-core/src/device.ts. Random bytes and draws
-- are arguments.
use wazeko.Prelude.{ℕ, Bool, false, Option, none}
use wazeko.Text.{Text, codes}
use wazeko.Types.Jid.{Jid}
use wazeko.Core.Crypto.{Bytes, KeyPair}
use wazeko.Core.Signal.{SignedPreKey}

pub record Credentials : Type 0 where
  pub me : Option Jid
  pub client_id : Text
  pub client_token : Option Text
  pub server_token : Option Text
  pub enc_key : Option Bytes
  pub mac_key : Option Bytes
  pub noise_key : Option KeyPair
  pub identity_key : Option KeyPair
  pub signed_pre_key : Option SignedPreKey
  pub registration_id : ℕ
  pub registered : Bool

-- `to_base64` is `toString("base64")` of a `Buffer`; `registration_id` is the random number below
-- 65535.
unfoldable pub init_credentials : (Bytes → Text) → Bytes → ℕ → Credentials
init_credentials to_base64 random registration_id = record {
  me = none;
  client_id = to_base64 random;
  client_token = none;
  server_token = none;
  enc_key = none;
  mac_key = none;
  noise_key = none;
  identity_key = none;
  signed_pre_key = none;
  registration_id = registration_id;
  registered = false;
}

pub record DeviceIdentity : Type 0 where
  pub name : Text
  pub os : Text
  pub client_version : ℕ × ℕ × ℕ
  pub device_id : ℕ
  pub registration_id : ℕ

unfoldable pub default_device_identity : ℕ → DeviceIdentity
default_device_identity registration_id = record {
  name = codes "Wazeko Client";
  os = codes "Node.js / TypeScript";
  client_version = (2, 3000, 1015901307);
  device_id = 0;
  registration_id = registration_id;
}
