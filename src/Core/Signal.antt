-- ===== src/Core/Signal.antt =====
-- packages/wazeko-core/src/signal.ts. Key pairs and random bytes that the code generates are
-- arguments. A session is shared by reference: the store has a heap of sessions, and its map gives
-- places in it.
pub mod Sessions
pub mod PreKeys
pub mod Store
use wazeko.Prelude.{
  ℕ, zero, suc, ◌+◌, Option, none, some, List, [], ◌∷◌, ◌++◌, if◌then◌else◌, ◌==◌, length, take,
  drop, get_elem?, set_at,
}
use wazeko.Text.{Text, codes}
use wazeko.Text.Decimal.{decimal}
use wazeko.Map.{Map, text_key, number_key}
use wazeko.Map as Maps
use wazeko.Types.Jid.{Jid, JidOrText, jid, text, jid_to_string}
use wazeko.Queue.RateLimiter.{or_else}
use wazeko.Core.Errors.{Result, ok, threw}
use wazeko.Core.Bytes.{zeros}
use wazeko.Core.Crypto.{
  Bytes, CryptoModule, KeyPair, sha256, hmac_sha256, hkdf, aes_cbc_encrypt, aes_cbc_decrypt,
}

pub record PreKey : Type 0 where
  pub key_id : ℕ
  pub key_pair : KeyPair

pub record SignedPreKey : Type 0 where
  pub key_id : ℕ
  pub key_pair : KeyPair
  pub signature : Bytes

pub record PreKeyManager : Type 0 where
  pub pre_keys : Map ℕ KeyPair
  pub signed_pre_keys : Map ℕ SignedPreKey
  pub current_signed_pre_key_id : ℕ

abbrev pub create_manager : PreKeyManager
create_manager = record { pre_keys = []; signed_pre_keys = []; current_signed_pre_key_id = 1 }

-- The loop from `i` on, with the pairs that it generates.
abbrev pub number_keys : ℕ → List KeyPair → List PreKey
number_keys i [] = []
number_keys i (kp ∷ kps) = record { key_id = i; key_pair = kp } ∷ number_keys (i + 1) kps

unfoldable pub store_keys : List PreKey → Map ℕ KeyPair → Map ℕ KeyPair
unfolding Maps.set
store_keys [] keys = keys
store_keys (k ∷ ks) keys = store_keys ks (Maps.set k.key_id k.key_pair keys)

-- `pairs` are the generated key pairs, as many as `count`.
unfoldable pub generate_initial_pre_keys :
    List KeyPair → PreKeyManager → List PreKey × PreKeyManager
unfolding store_keys
generate_initial_pre_keys pairs p =
    (number_keys 1 pairs, record p { pre_keys = store_keys (number_keys 1 pairs) p.pre_keys })

unfoldable pub get_pre_key : ℕ → PreKeyManager → Option KeyPair
unfolding Maps.get
get_pre_key key_id p = Maps.get key_id p.pre_keys

unfoldable pub get_signed_pre_key : ℕ → PreKeyManager → Option SignedPreKey
unfolding Maps.get
get_signed_pre_key key_id p = Maps.get key_id p.signed_pre_keys

pub data MessageType : Type 0 where
  msg pkmsg : MessageType

pub record SignalEncryptedMessage : Type 0 where
  pub type' : MessageType
  pub registration_id : ℕ
  pub ciphertext : Bytes

pub record SignalSession : Type 0 where
  pub shared_secret : Bytes
  pub root_key : Bytes
  pub chain_key : Bytes
  pub sequence : ℕ

module _ (m : CryptoModule) where
  unfoldable pub generate_signed_pre_key :
      KeyPair → KeyPair → PreKeyManager → SignedPreKey × PreKeyManager
  unfolding hmac_sha256 Maps.set
  generate_signed_pre_key identity_key_pair key_pair p =
      let signed_pre_key : SignedPreKey = record {
        key_id = p.current_signed_pre_key_id;
        key_pair = key_pair;
        signature = hmac_sha256 m identity_key_pair.private_key key_pair.public_key;
      } in
      (
        signed_pre_key,
        record p {
          current_signed_pre_key_id = p.current_signed_pre_key_id + 1;
          signed_pre_keys = Maps.set p.current_signed_pre_key_id signed_pre_key p.signed_pre_keys;
        },
      )

  unfoldable pub rotate_signed_pre_key :
      KeyPair → KeyPair → PreKeyManager → SignedPreKey × PreKeyManager
  unfolding generate_signed_pre_key
  rotate_signed_pre_key identity_key_pair key_pair p =
      generate_signed_pre_key identity_key_pair key_pair p

  unfoldable pub create_session : Bytes → SignalSession
  unfolding hkdf
  create_session shared_secret =
      let root = hkdf m shared_secret 32 (zeros 32) (codes "Signal-Root") in
      record {
        shared_secret = shared_secret;
        root_key = root;
        chain_key = hkdf m root 32 (zeros 32) (codes "Signal-Chain");
        sequence = 0;
      }

  unfoldable pub message_key : SignalSession → Bytes
  unfolding hkdf
  message_key s = hkdf m s.chain_key 32 (zeros 32) (codes "Signal-Msg-" ++ decimal s.sequence)

  unfoldable pub advance : SignalSession → SignalSession
  unfolding sha256
  advance s = record s { sequence = s.sequence + 1; chain_key = sha256 m s.chain_key }

  abbrev pub packed :
      Bytes → Result Bytes → SignalSession → Result SignalEncryptedMessage × SignalSession
  packed iv (threw e) s = (threw e, s)
  packed iv (ok ciphertext) s = (
    ok (record {
      type' = if (advance s).sequence == 1 then pkmsg else msg;
      registration_id = 1000;
      ciphertext = iv ++ ciphertext;
    }),
    advance s,
  )

  -- `iv` is the random vector.
  unfoldable pub encrypt :
      Bytes → Bytes → SignalSession → Result SignalEncryptedMessage × SignalSession
  unfolding message_key advance aes_cbc_encrypt
  encrypt iv plaintext s = packed iv (aes_cbc_encrypt m (message_key s) iv plaintext) s

  abbrev pub unpacked : Result Bytes → SignalSession → Result Bytes × SignalSession
  unpacked (threw e) s = (threw e, s)
  unpacked (ok plaintext) s = (ok plaintext, advance s)

  unfoldable pub decrypt : SignalEncryptedMessage → SignalSession → Result Bytes × SignalSession
  unfolding message_key advance aes_cbc_decrypt
  decrypt message s =
      unpacked
        (aes_cbc_decrypt m (message_key s) (take 16 message.ciphertext)
          (drop 16 message.ciphertext))
        s

pub record SignalSessionStore : Type 0 where
  pub sessions : Map Text ℕ
  pub heap : List SignalSession

abbrev pub session_key : JidOrText → Text
unfolding jid_to_string
session_key (text t) = t
session_key (jid j) = jid_to_string j

module _ (m : CryptoModule) where
  abbrev pub get_or_insert : Option ℕ → Text → Bytes → SignalSessionStore → ℕ × SignalSessionStore
  get_or_insert (some place) key secret s = (place, s)
  get_or_insert none key secret s = (
    length s.heap,
    record {
      sessions = Maps.set key (length s.heap) s.sessions;
      heap = s.heap ++ create_session m secret ∷ [];
    },
  )

  -- `random` is the secret that the code draws where none is given.
  unfoldable pub get_or_create_session :
      JidOrText → Option Bytes → Bytes → SignalSessionStore → ℕ × SignalSessionStore
  unfolding create_session Maps.get Maps.set session_key
  get_or_create_session remote shared_secret random s =
      get_or_insert (Maps.get (session_key remote) s.sessions) (session_key remote)
        (or_else shared_secret random) s
