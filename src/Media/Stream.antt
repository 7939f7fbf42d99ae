-- ===== src/Media/Stream.antt =====
-- packages/wazeko/src/media/stream-handler.ts. A hash object of node is the bytes that it was updated
-- with, and a file is its content. The media key that the code draws is an argument.
pub mod Handler
pub mod Agreement
mod Examples
use wazeko.Prelude.{
  ℕ, ◌+◌, ◌-◌, ◌≡◌, Bool, true, false, ltb, ◌==◌, Option, none, List, [], ◌∷◌, ◌++◌, if◌then◌else◌,
  length, take, drop,
}
use wazeko.Text.{Text, codes, text_eq}
use wazeko.Queue.RateLimiter.{or_else}
use wazeko.Core.Errors.{Result, ok, threw, plain_error, ◌>>=◌}
use wazeko.Core.Bytes.{subarray}
use wazeko.Core.Crypto.{Bytes, CryptoModule}
use wazeko.Core.Media.{MediaType, MediaKeys, derive_media_keys}

abbrev pub joined : List Bytes → Bytes
joined [] = []
joined (chunk ∷ chunks) = chunk ++ joined chunks

-- What node's streams do: the chunks in which a file is read, and the chunks that a cipher puts out
-- for those that it takes in, in order and with what it puts out at the end.
pub record StreamModule : Type 0 where
  pub read_stream : Bytes → List Bytes
  pub cipher : Bytes → Bytes → List Bytes → Result (List Bytes)
  pub decipher : Bytes → Bytes → List Bytes → Result (List Bytes)

-- Chunks cut a file or a message without changing it.
pub record IsStream (m : CryptoModule) (s : StreamModule) : Type 0 where
  pub joined-read_stream : (file : Bytes) → joined (s.read_stream file) ≡ file
  pub joined-cipher :
      (key iv : Bytes) (chunks : List Bytes)
      → (s.cipher key iv chunks >>= λ out. ok (joined out)) ≡ m.cbc_encrypt key iv (joined chunks)
  pub joined-decipher :
      (key iv : Bytes) (chunks : List Bytes)
      → (s.decipher key iv chunks >>= λ out. ok (joined out)) ≡ m.cbc_decrypt key iv (joined chunks)

pub record StreamEncryptResult : Type 0 where
  pub media_key : Bytes
  pub temp_encrypted_file_path : Text
  pub file_sha256 : Bytes
  pub file_enc_sha256 : Bytes
  pub file_size_bytes : ℕ

-- `hashingTransform`: the hasher of the source, and the bytes counted.
pub record Hashed : Type 0 where
  pub plain_hasher : Bytes
  pub total_bytes : ℕ

unfoldable pub hashing_transform : List Bytes → Hashed → Hashed
hashing_transform [] h = h
hashing_transform (chunk ∷ chunks) h = hashing_transform chunks (record h {
  plain_hasher = h.plain_hasher ++ chunk;
  total_bytes = h.total_bytes + length chunk;
})

-- `cipherTransform` and the file behind it.
pub record Written : Type 0 where
  pub enc_hasher : Bytes
  pub hmac : Bytes
  pub file : Bytes

unfoldable pub cipher_transform : List Bytes → Written → Written
cipher_transform [] w = w
cipher_transform (chunk ∷ chunks) w =
    cipher_transform chunks (record {
      enc_hasher = w.enc_hasher ++ chunk;
      hmac = w.hmac ++ chunk;
      file = w.file ++ chunk;
    })

-- The loop that updates a code with the chunks of a file.
unfoldable pub update_all : List Bytes → Bytes → Bytes
update_all [] hmac = hmac
update_all (chunk ∷ chunks) hmac = update_all chunks (hmac ++ chunk)

module _ (m : CryptoModule) (s : StreamModule) where
  -- The result, and the content of the file that is left at its path.
  abbrev pub finalized :
      Bytes
      → Text
      → MediaKeys
      → List Bytes
      → Result (List Bytes)
      → Result (StreamEncryptResult × Bytes)
  unfolding hashing_transform cipher_transform
  finalized media_key path keys chunks (threw e) = threw e
  finalized media_key path keys chunks (ok out) =
      let source = hashing_transform chunks (record { plain_hasher = []; total_bytes = 0 }) in
      let written = cipher_transform out (record { enc_hasher = []; hmac = keys.iv; file = [] }) in
      let truncated_mac = subarray 0 10 (m.hmac_digest keys.mac_key written.hmac) in
      ok (
        record {
          media_key = media_key;
          temp_encrypted_file_path = path;
          file_sha256 = m.sha256_digest source.plain_hasher;
          file_enc_sha256 = m.sha256_digest (written.enc_hasher ++ truncated_mac);
          file_size_bytes = source.total_bytes;
        },
        written.file ++ truncated_mac,
      )

  -- `chunks` are those of the source stream, and `path` that of the temporary file.
  unfoldable pub encrypt_media_stream :
      Bytes → Text → List Bytes → MediaType → Result (StreamEncryptResult × Bytes)
  unfolding finalized derive_media_keys
  encrypt_media_stream media_key path chunks media_type =
      let keys = derive_media_keys m media_key media_type in
      finalized media_key path keys chunks (s.cipher keys.cipher_key keys.iv chunks)

  -- The content of the target file. A read stream that would end before its start is an error.
  unfoldable pub decrypt_media_file_stream : Bytes → Bytes → MediaType → Result Bytes
  unfolding update_all derive_media_keys text_eq
  decrypt_media_file_stream file media_key media_type =
      if ltb (length file) 10
      then threw (plain_error (codes "Encrypted media file is too small to contain a valid MAC"))
      else (let keys = derive_media_keys m media_key media_type in
          let cipher_length = length file - 10 in
          let received_mac = take 10 (drop cipher_length file) in
          let chunks = s.read_stream (take cipher_length file) in
          let expected_mac =
            subarray 0 10 (m.hmac_digest keys.mac_key (update_all chunks keys.iv)) in
          if cipher_length == 0
          then threw (plain_error (codes "ERR_OUT_OF_RANGE"))
          else if text_eq received_mac expected_mac
          then (s.decipher keys.cipher_key keys.iv chunks >>= λ out. ok (joined out))
          else threw (
              plain_error
                (codes "Media HMAC verification failed: media file is corrupted or tampered")))
