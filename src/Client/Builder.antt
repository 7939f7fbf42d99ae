-- ===== src/Client/Builder.antt =====
-- packages/wazeko/src/builder.ts and packages/wazeko/src/config.ts, and the store that the constructor
-- of packages/wazeko/src/client.ts chooses. `S` is the type of stores that a program may bring.
use wazeko.Prelude.{ℕ, Bool, true, Option, none, some, [], ◌∷◌}
use wazeko.Text.{Text, codes}
use wazeko.Auth.Store.{AuthMethod, qr, pairing_code}
use wazeko.Core.Session.{DeviceIdentity, default_device_identity}

pub record ClientConfig : Type 0 where
  pub ws_url : Text
  pub auth_store_path : Option Text
  pub auth_method : AuthMethod
  pub pairing_phone_number : Option Text
  pub connect_timeout_ms : ℕ
  pub auto_reconnect : Bool
  pub print_qr : Bool
  pub device : DeviceIdentity

abbrev pub default_wa_web_ws_url : Text
default_wa_web_ws_url = codes "wss://web.whatsapp.com/ws/chat"

-- `registration_id` is the random one of the device.
unfoldable pub default_client_config : ℕ → ClientConfig
unfolding default_device_identity
default_client_config registration_id = record {
  ws_url = default_wa_web_ws_url;
  auth_store_path = none;
  auth_method = qr;
  pairing_phone_number = none;
  connect_timeout_ms = 30000;
  auto_reconnect = true;
  print_qr = true;
  device = default_device_identity registration_id;
}

pub record WazekoBuilder (S : Type 0) : Type 0 where
  pub config : ClientConfig
  pub custom_store : Option S

-- A call of one of the methods that return the builder.
pub data Setting (S : Type 0) : Type 0 where
  auth_store : Text → Setting S
  custom_auth_store : S → Setting S
  auth_method : AuthMethod → Setting S
  pairing_phone_number : Text → Setting S
  ws_url : Text → Setting S
  auto_reconnect : Bool → Setting S
  print_qr : Bool → Setting S
  connect_timeout : ℕ → Setting S
  device : DeviceIdentity → Setting S

-- The store of a client.
pub data ChosenStore (S : Type 0) : Type 0 where
  custom : S → ChosenStore S
  atomic_file : Text → ChosenStore S
  memory : ChosenStore S

module _ {S : Type 0} where
  unfoldable pub builder : ℕ → WazekoBuilder S
  unfolding default_client_config
  builder registration_id = record {
    config = default_client_config registration_id;
    custom_store = none;
  }

  unfoldable pub set : Setting S → WazekoBuilder S → WazekoBuilder S
  set (auth_store path) b = record b { config = record b.config { auth_store_path = some path } }
  set (custom_auth_store store) b = record b { custom_store = some store }
  set (auth_method method) b = record b { config = record b.config { auth_method = method } }
  set (pairing_phone_number phone) b = record b {
    config = record b.config { pairing_phone_number = some phone; auth_method = pairing_code };
  }
  set (ws_url url) b = record b { config = record b.config { ws_url = url } }
  set (auto_reconnect enable) b = record b { config = record b.config { auto_reconnect = enable } }
  set (print_qr enable) b = record b { config = record b.config { print_qr = enable } }
  set (connect_timeout ms) b = record b { config = record b.config { connect_timeout_ms = ms } }
  set (device d) b = record b { config = record b.config { device = d } }

  -- An empty path is no path.
  abbrev pub by_path : Option Text → ChosenStore S
  by_path none = memory
  by_path (some []) = memory
  by_path (some (c ∷ cs)) = atomic_file (c ∷ cs)

  abbrev pub chosen_store : ClientConfig → Option S → ChosenStore S
  chosen_store config (some store) = custom store
  chosen_store config none = by_path config.auth_store_path

  -- What the constructor of the client is given, and the store that it takes.
  unfoldable pub build : WazekoBuilder S → ClientConfig × ChosenStore S
  build b = (b.config, chosen_store b.config b.custom_store)
