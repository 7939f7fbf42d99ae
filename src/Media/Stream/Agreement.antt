-- ===== src/Media/Stream/Agreement.antt =====
-- packages/wazeko/src/media/stream-handler.ts: streams and whole buffers give the same bytes.
use wazeko.Prelude.{
  ℕ, ◌+◌, ◌-◌, ◌<◌, ◌≡◌, refl, sym, ap, ap₂, subst, ◌∙◌, false, ltb, ◌==◌, List, [], ◌∷◌, ◌++◌,
  arith, take, take-append, append_assoc, append-nil, length, length-append,
}
use wazeko.Text.{Text, text_eq_self}
use wazeko.Core.Errors.{Result, ok, threw, ◌>>=◌}
use wazeko.Core.Bytes.{all_but_last, last_of, length-drop}
use wazeko.Core.Crypto.{
  Bytes, CryptoModule, IsCrypto, sha256, hmac_sha256, aes_cbc_encrypt, aes_cbc_decrypt,
}
use wazeko.Core.Media.{
  MediaType, MediaKeys, EncryptedMediaResult, derive_media_keys, media_mac, sealed_media,
  encrypt_media, decrypt_media,
}
use wazeko.Core.Media.Integrity.{decrypt_media-opened}
use wazeko.Media.Stream.{
  joined, StreamModule, IsStream, StreamEncryptResult, Hashed, hashing_transform, Written,
  cipher_transform, update_all, finalized, encrypt_media_stream, decrypt_media_file_stream,
}

abbrev hashed : Bytes → ℕ → Hashed
hashed a n = record { plain_hasher = a; total_bytes = n }

hashing_transform-joined :
    (chunks : List Bytes) (a : Bytes) (n : ℕ)
    → hashing_transform chunks (hashed a n)
      ≡ hashed (a ++ joined chunks) (n + length (joined chunks))
unfolding hashing_transform
hashing_transform-joined [] a n = ap₂ hashed (sym (append-nil a)) (omega arith)
hashing_transform-joined (chunk ∷ chunks) a n =
    hashing_transform-joined chunks (a ++ chunk) (n + length chunk)
    ∙ ap₂ hashed (append_assoc a chunk (joined chunks))
        (omega (arith, length-append {0} chunk (joined chunks)))

abbrev written : Bytes → Bytes → Bytes → Written
written a b c = record { enc_hasher = a; hmac = b; file = c }

cipher_transform-joined :
    (chunks : List Bytes) (a b c : Bytes)
    → cipher_transform chunks (written a b c)
      ≡ written (a ++ joined chunks) (b ++ joined chunks) (c ++ joined chunks)
unfolding cipher_transform
cipher_transform-joined [] a b c =
    ap₂ (λ x y. written x y c) (sym (append-nil a)) (sym (append-nil b))
    ∙ ap (written (a ++ []) (b ++ [])) (sym (append-nil c))
cipher_transform-joined (chunk ∷ chunks) a b c =
    let rest = joined chunks in
    cipher_transform-joined chunks (a ++ chunk) (b ++ chunk) (c ++ chunk)
    ∙ ap₂ (λ x y. written x y ((c ++ chunk) ++ rest)) (append_assoc a chunk rest)
        (append_assoc b chunk rest)
    ∙ ap (written (a ++ (chunk ++ rest)) (b ++ (chunk ++ rest))) (append_assoc c chunk rest)

update_all-joined :
    (chunks : List Bytes) (hmac : Bytes) → update_all chunks hmac ≡ hmac ++ joined chunks
unfolding update_all
update_all-joined [] hmac = sym (append-nil hmac)
update_all-joined (chunk ∷ chunks) hmac =
    update_all-joined chunks (hmac ++ chunk) ∙ append_assoc hmac chunk (joined chunks)

-- What a stream of a plaintext leaves against what `encryptMedia` gives for all of it.
abbrev pub streamed :
    (m : CryptoModule)
    → Text
    → Bytes
    → Result EncryptedMediaResult
    → Result (StreamEncryptResult × Bytes)
streamed m path plaintext (threw e) = threw e
streamed m path plaintext (ok r) = ok (
  record {
    media_key = r.media_key;
    temp_encrypted_file_path = path;
    file_sha256 = r.file_sha256;
    file_enc_sha256 = r.file_enc_sha256;
    file_size_bytes = length plaintext;
  },
  r.encrypted_payload,
)

module _ (m : CryptoModule) (s : StreamModule) (laws : IsStream m s) where
  finalized-streamed :
      (media_key : Bytes) (path : Text) (keys : MediaKeys) (chunks : List Bytes)
      (out : Result (List Bytes))
      → finalized m s media_key path keys chunks out
        ≡ streamed m path
            (joined chunks)
            (sealed_media m media_key (joined chunks) keys (out >>= λ c. ok (joined c)))
  unfolding finalized media_mac sha256 hmac_sha256
  finalized-streamed media_key path keys chunks (threw e) = refl
  finalized-streamed media_key path keys chunks (ok out) =
      let counted : 0 + length (joined chunks) ≡ length (joined chunks) = omega arith in
      rw (hashing_transform-joined chunks [] 0, cipher_transform-joined out [] keys.iv [], counted)
        refl

  -- However the source is cut into chunks, a stream gives the same keys, digests and file content as
  -- `encryptMedia` gives for the whole, counts its bytes, and fails where that fails.
  pub encrypt_media_stream-encrypt_media :
      (media_key : Bytes) (path : Text) (chunks : List Bytes) (t : MediaType)
      → encrypt_media_stream m s media_key path chunks t
        ≡ streamed m path (joined chunks) (encrypt_media m media_key (joined chunks) t)
  unfolding encrypt_media_stream encrypt_media aes_cbc_encrypt
  encrypt_media_stream-encrypt_media media_key path chunks t =
      let keys = derive_media_keys m media_key t in
      finalized-streamed media_key path keys chunks (s.cipher keys.cipher_key keys.iv chunks)
      ∙ ap
          (λ (c : Result Bytes).
            streamed m path (joined chunks) (sealed_media m media_key (joined chunks) keys c))
          (laws.joined-cipher keys.cipher_key keys.iv chunks)

  take-all : (n : ℕ) (b : Bytes) → length b ≡ n → take n b ≡ b
  take-all n b e =
      subst (λ k. take k b ≡ b) e (ap (take (length b)) (sym (append-nil b)) ∙ take-append b [])

  -- Where `decryptMedia` gives a plaintext for more than ten bytes, the stream of a file that holds
  -- them writes the same plaintext.
  pub decrypt_media_file_stream-decrypt_media :
      IsCrypto m
      → (file media_key p : Bytes) (t : MediaType) → 10 < length file
      → decrypt_media m file media_key t ≡ ok p
      → decrypt_media_file_stream m s file media_key t ≡ ok p
  unfolding decrypt_media_file_stream media_mac hmac_sha256 aes_cbc_decrypt
  decrypt_media_file_stream-decrypt_media crypto file media_key p t long h =
      let keys = derive_media_keys m media_key t in
      let c = all_but_last 10 file in
      let (mac, opened) = decrypt_media-opened m crypto file media_key p t h in
      let chunks = s.read_stream c in
      let fits : ltb (length file) 10 ≡ false = ground arith in
      let more : (length file - 10 == 0) ≡ false = ground arith in
      let received : take 10 (last_of 10 file) ≡ media_mac m keys c =
        take-all 10 (last_of 10 file) (omega (arith, length-drop {0} (length file - 10) file))
        ∙ mac in
      let fed : update_all chunks keys.iv ≡ keys.iv ++ c =
        update_all-joined chunks keys.iv ∙ ap (λ b. keys.iv ++ b) (laws.joined-read_stream c) in
      rw (fits, more, received, fed, text_eq_self (media_mac m keys c))
        (laws.joined-decipher keys.cipher_key keys.iv chunks
          ∙ ap (λ b. m.cbc_decrypt keys.cipher_key keys.iv b) (laws.joined-read_stream c)
          ∙ opened)
