-- ===== src/Core/Media.antt =====
-- packages/wazeko-core/src/media.ts. The media key that the code draws is an argument.
pub mod Integrity
use wazeko.Prelude.{
  ℕ, zero, suc, ◌-◌, Bool, true, false, Option, none, some, ◌&&◌, List, [], ◌∷◌, ◌++◌, ltb, ◌==◌,
  if◌then◌else◌, length, take, get_elem?,
}
use wazeko.Text.{Text, codes}
use wazeko.Core.Errors.{WazekoErrorCode, media, wazeko_error, Result, ok, threw}
use wazeko.Core.Bytes.{subarray, all_but_last, last_of, zeros}
use wazeko.Core.Crypto.{
  Bytes, CryptoModule, sha256, hmac_sha256, hkdf, aes_cbc_encrypt, aes_cbc_decrypt,
}

pub data MediaType : Type 0 where
  image video audio document sticker : MediaType

pub record MediaKeys : Type 0 where
  pub iv : Bytes
  pub cipher_key : Bytes
  pub mac_key : Bytes
  pub ref_key : Bytes

pub record EncryptedMediaResult : Type 0 where
  pub media_key : Bytes
  pub encrypted_payload : Bytes
  pub file_sha256 : Bytes
  pub file_enc_sha256 : Bytes

abbrev pub media_app_info : MediaType → Text
media_app_info image = codes "WhatsApp Image Keys"
media_app_info video = codes "WhatsApp Video Keys"
media_app_info audio = codes "WhatsApp Audio Keys"
media_app_info document = codes "WhatsApp Document Keys"
media_app_info sticker = codes "WhatsApp Image Keys"

-- The loop over the first places of two arrays, from `i` on; a place outside is `undefined`.
same_place : Option ℕ → Option ℕ → Bool
same_place none none = true
same_place (some a) (some b) = a == b
same_place none (some b) = false
same_place (some a) none = false

unfoldable pub same_bytes : ℕ → ℕ → Bytes → Bytes → Bool
unfolding same_place
same_bytes i zero xs ys = true
same_bytes i (suc n) xs ys =
    same_place (get_elem? xs i) (get_elem? ys i) && same_bytes (suc i) n xs ys

module _ (m : CryptoModule) where
  unfoldable pub derive_media_keys : Bytes → MediaType → MediaKeys
  unfolding hkdf
  derive_media_keys media_key media_type =
      let expanded = hkdf m media_key 112 (zeros 32) (media_app_info media_type) in
      record {
        iv = subarray 0 16 expanded;
        cipher_key = subarray 16 48 expanded;
        mac_key = subarray 48 80 expanded;
        ref_key = subarray 80 112 expanded;
      }

  -- The truncated code of a vector and a ciphertext.
  unfoldable pub media_mac : MediaKeys → Bytes → Bytes
  unfolding hmac_sha256
  media_mac keys ciphertext = subarray 0 10 (hmac_sha256 m keys.mac_key (keys.iv ++ ciphertext))

  abbrev pub sealed_media : Bytes → Bytes → MediaKeys → Result Bytes → Result EncryptedMediaResult
  sealed_media media_key plaintext keys (threw e) = threw e
  sealed_media media_key plaintext keys (ok encrypted) = ok (record {
    media_key = media_key;
    encrypted_payload = encrypted ++ media_mac keys encrypted;
    file_sha256 = sha256 m plaintext;
    file_enc_sha256 = sha256 m (encrypted ++ media_mac keys encrypted);
  })

  unfoldable pub encrypt_media : Bytes → Bytes → MediaType → Result EncryptedMediaResult
  unfolding derive_media_keys media_mac sha256 aes_cbc_encrypt
  encrypt_media media_key plaintext media_type =
      let keys = derive_media_keys media_key media_type in
      sealed_media media_key plaintext keys (aes_cbc_encrypt m keys.cipher_key keys.iv plaintext)

  unfoldable pub decrypt_media : Bytes → Bytes → MediaType → Result Bytes
  unfolding derive_media_keys media_mac same_bytes aes_cbc_decrypt
  decrypt_media encrypted_payload media_key media_type =
      if ltb (length encrypted_payload) 10
      then threw (wazeko_error media (codes "Encrypted media payload is too short"))
      else (let keys = derive_media_keys media_key media_type in
          let ciphertext = all_but_last 10 encrypted_payload in
          if same_bytes 0 10 (last_of 10 encrypted_payload) (media_mac keys ciphertext)
          then aes_cbc_decrypt m keys.cipher_key keys.iv ciphertext
          else threw (
              wazeko_error media
                (codes "Media HMAC verification failed: media is corrupted or tampered")))
