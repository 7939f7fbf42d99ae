-- ===== src/Core/Noise.antt =====
-- packages/wazeko-core/src/noise.ts. A key pair that the code generates is an argument. The cipher
-- state that a handshake ends with is a value here: a frame cipher does not change the handshake's.
pub mod Handshake
pub mod Frames
use wazeko.Prelude.{
  ℕ, ◌+◌, ◌-◌, ◌/◌, Bool, true, false, Option, none, some, List, [], ◌∷◌, ◌++◌, ltb, ◌==◌,
  if◌then◌else◌, length, take, drop,
}
use wazeko.Text.{codes}
use wazeko.Text.Utf8.{utf8_encode}
use wazeko.Core.Errors.{Result, ok, threw, authentication_error}
use wazeko.Core.Bytes.{subarray, all_but_last, last_of, zeros, low_bytes}
use wazeko.Core.Crypto.{
  Bytes, Sealed, CryptoModule, KeyPair, sha256, hkdf, aes_gcm_encrypt, aes_gcm_decrypt,
}

pub record CipherState : Type 0 where
  pub enc_key : Bytes
  pub dec_key : Bytes
  pub enc_counter : ℕ
  pub dec_counter : ℕ

pub record NoiseHandshake : Type 0 where
  pub ephemeral_key_pair : KeyPair
  pub static_key_pair : KeyPair
  pub hash : Bytes
  pub chaining_key : Bytes
  pub is_complete : Bool
  pub cipher_state : Option CipherState

abbrev pub client_ephemeral_public : NoiseHandshake → Bytes
client_ephemeral_public h = h.ephemeral_key_pair.public_key

abbrev pub completed : NoiseHandshake → Bool
completed h = h.is_complete

abbrev pub state : NoiseHandshake → Option CipherState
state h = h.cipher_state

-- "Noise_XX_25519_AESGCM_SHA256" and four zeros.
abbrev pub protocol_name : Bytes
unfolding utf8_encode
protocol_name = utf8_encode (codes "Noise_XX_25519_AESGCM_SHA256" ++ zeros 4)

-- Four zeros, and the counter in 64 bits.
unfoldable pub counter_to_iv : ℕ → Bytes
unfolding low_bytes
counter_to_iv counter = zeros 4 ++ low_bytes 8 counter

pub record Finished : Type 0 where
  pub client_finish : Bytes
  pub cipher_state : CipherState

pub record ServerHello : Type 0 where
  pub server_ephemeral : Bytes
  pub server_payload_enc : Bytes

module _ (m : CryptoModule) where
  unfoldable pub create : KeyPair → KeyPair → NoiseHandshake
  unfolding sha256 protocol_name
  create static_key_pair ephemeral_key_pair = record {
    static_key_pair = static_key_pair;
    ephemeral_key_pair = ephemeral_key_pair;
    hash = sha256 m protocol_name;
    chaining_key = sha256 m protocol_name;
    is_complete = false;
    cipher_state = none;
  }

  unfoldable pub mix_hash : Bytes → NoiseHandshake → NoiseHandshake
  unfolding sha256
  mix_hash data' h = record h { hash = sha256 m (h.hash ++ data') }

  unfoldable pub initiate_handshake : NoiseHandshake → Bytes × NoiseHandshake
  unfolding mix_hash
  initiate_handshake h =
      (h.ephemeral_key_pair.public_key, mix_hash h.ephemeral_key_pair.public_key h)

  abbrev pub opened : Result Bytes → Bytes → NoiseHandshake → Result Bytes × NoiseHandshake
  opened (ok decrypted) payload h = (ok decrypted, mix_hash payload h)
  opened (threw e) payload h = (threw e, h)

  -- The two keys derived from an ephemeral key.
  unfoldable pub derive : Bytes → NoiseHandshake → Bytes
  unfolding hkdf
  derive key h = hkdf m key 64 h.chaining_key (codes "Noise-DH")

  -- The state that an exception leaves behind comes with it.
  unfoldable pub process_server_hello :
      Bytes → Bytes → NoiseHandshake → Result Bytes × NoiseHandshake
  unfolding mix_hash derive aes_gcm_decrypt counter_to_iv
  process_server_hello server_ephemeral payload h =
      if length server_ephemeral == 32
      then (let mixed = mix_hash server_ephemeral h in
          let shared_key = derive server_ephemeral mixed in
          let advanced = record mixed { chaining_key = subarray 0 32 shared_key } in
          if ltb (length payload) 16
          then (
            threw (authentication_error (codes "Server payload too short for AEAD tag")),
            advanced,
          )
          else opened
              (aes_gcm_decrypt m (subarray 32 64 shared_key) (counter_to_iv 0)
                (all_but_last 16 payload) (last_of 16 payload) none)
              payload advanced)
      else (threw (authentication_error (codes "Invalid server ephemeral public key length")), h)

  abbrev pub finished : Result Sealed → Bytes → NoiseHandshake → Result Finished × NoiseHandshake
  finished (threw e) keys h = (threw e, h)
  finished (ok s) keys h =
      let cipher_state : CipherState = record {
        enc_key = subarray 0 32 keys;
        dec_key = subarray 32 64 keys;
        enc_counter = 0;
        dec_counter = 0;
      } in
      (
        ok (record { client_finish = s.ciphertext ++ s.tag; cipher_state = cipher_state }),
        record h { cipher_state = some cipher_state; is_complete = true },
      )

  unfoldable pub finalize_handshake : Bytes → NoiseHandshake → Result Finished × NoiseHandshake
  unfolding hkdf aes_gcm_encrypt counter_to_iv
  finalize_handshake client_payload h =
      let keys = hkdf m h.static_key_pair.public_key 64 h.chaining_key (codes "Noise-Final") in
      finished (aes_gcm_encrypt m (subarray 0 32 keys) (counter_to_iv 0) client_payload none) keys h

  abbrev pub crafted : Result Sealed → NoiseHandshake → Result ServerHello × NoiseHandshake
  crafted (threw e) h = (threw e, h)
  crafted (ok s) h = (
    ok (record {
      server_ephemeral = h.ephemeral_key_pair.public_key;
      server_payload_enc = s.ciphertext ++ s.tag;
    }),
    mix_hash (s.ciphertext ++ s.tag) h,
  )

  unfoldable pub craft_server_hello : Bytes → NoiseHandshake → Result ServerHello × NoiseHandshake
  unfolding mix_hash derive aes_gcm_encrypt counter_to_iv
  craft_server_hello server_payload h =
      let mixed = mix_hash h.ephemeral_key_pair.public_key h in
      let shared_key = derive h.ephemeral_key_pair.public_key mixed in
      let advanced = record mixed { chaining_key = subarray 0 32 shared_key } in
      crafted (aes_gcm_encrypt m (subarray 32 64 shared_key) (counter_to_iv 0) server_payload none)
        advanced

  -- `FrameCipher`, over its cipher state.
  abbrev pub framed : Result Sealed → CipherState → Result Bytes × CipherState
  framed (threw e) c = (threw e, c)
  framed (ok s) c =
      (ok (low_bytes 3 (length s.ciphertext + length s.tag) ++ (s.ciphertext ++ s.tag)), c)

  unfoldable pub encrypt_frame : Bytes → CipherState → Result Bytes × CipherState
  unfolding aes_gcm_encrypt counter_to_iv low_bytes
  encrypt_frame plaintext c =
      framed (aes_gcm_encrypt m c.enc_key (counter_to_iv c.enc_counter) plaintext none)
        (record c { enc_counter = c.enc_counter + 1 })

  unfoldable pub decrypt_frame : Bytes → CipherState → Result Bytes × CipherState
  unfolding aes_gcm_decrypt counter_to_iv
  decrypt_frame frame c =
      if ltb (length frame) (3 + 16)
      then (threw (authentication_error (codes "Encrypted frame is too short")), c)
      else (let payload = drop 3 frame in
          (
            aes_gcm_decrypt m c.dec_key (counter_to_iv c.dec_counter) (all_but_last 16 payload)
                (last_of 16 payload) none,
            record c { dec_counter = c.dec_counter + 1 },
          ))
