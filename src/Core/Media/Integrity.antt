-- ===== src/Core/Media/Integrity.antt =====
-- packages/wazeko-core/src/media.ts: what is encrypted comes back, and what was changed does not.
use wazeko.Prelude.{
  ℕ, zero, suc, ◌-◌, ◌≡◌, refl, sym, ap, ◌∙◌, true, false, ◌&&◌, Option, none, some, [], ◌∷◌, ◌++◌,
  arith, ltb, ◌==◌, length, length-append, get_elem?, Bool-cases, inl, inr, ap₂, ==_iff, ◌+◌,
}
use wazeko.Text.Utf8.{utf8_encode}
use wazeko.Core.Errors.{Result, ok}
use wazeko.Core.Bytes.{
  length-subarray, all_but_last, last_of, all_but_last-append, last_of-append, take-drop,
  length-drop, zeros,
}
use wazeko.Core.Crypto.{
  Bytes, CryptoModule, IsCrypto, sha256, hmac_sha256, hkdf, aes_cbc_encrypt, aes_cbc_decrypt,
}
use wazeko.Core.Media.{
  MediaType, MediaKeys, EncryptedMediaResult, media_app_info, same_place, same_bytes,
  derive_media_keys, media_mac, sealed_media, encrypt_media, decrypt_media,
}

same_place_self : (a : Option ℕ) → same_place a a ≡ true
unfolding same_place
same_place_self none = refl
same_place_self (some a) = ground arith

same_bytes_self : (i n : ℕ) (xs : Bytes) → same_bytes i n xs xs ≡ true
unfolding same_bytes
same_bytes_self i zero xs = refl
same_bytes_self i (suc n) xs = rw (same_place_self (get_elem? xs i)) (same_bytes_self (suc i) n xs)

same_bytes-shift :
    (i n x y : ℕ) (xs ys : Bytes) → same_bytes (suc i) n (x ∷ xs) (y ∷ ys) ≡ same_bytes i n xs ys
unfolding same_bytes
same_bytes-shift i zero x y xs ys = refl
same_bytes-shift i (suc n) x y xs ys =
    ap (λ b. same_place (get_elem? xs i) (get_elem? ys i) && b)
      (same_bytes-shift (suc i) n x y xs ys)

same_bytes-equal :
    (n : ℕ) (xs ys : Bytes) → length xs ≡ n → length ys ≡ n → same_bytes 0 n xs ys ≡ true → xs ≡ ys
unfolding same_bytes same_place
same_bytes-equal zero [] [] h k s = refl
same_bytes-equal zero (x ∷ xs) ys h k s = absurd (omega arith)
same_bytes-equal zero [] (y ∷ ys) h k s = absurd (omega arith)
same_bytes-equal (suc n) [] ys h k s = absurd (omega arith)
same_bytes-equal (suc n) (x ∷ xs) [] h k s = absurd (omega arith)
same_bytes-equal (suc n) (x ∷ xs) (y ∷ ys) h k s =
    let rest = same_bytes-equal n xs ys (omega arith) (omega arith) in
    elim (Bool-cases (x == y)) [
      | inl e ↦ ap₂ ◌∷◌ ((==_iff x y).0 e) (rest (sym (same_bytes-shift 0 n x y xs ys) ∙ rw e at s))
      | inr e ↦ absurd (let s' = rw e at s in cc)
    ]

module _ (m : CryptoModule) (laws : IsCrypto m) where
  length-expanded :
      (media_key : Bytes) (t : MediaType)
      → length (hkdf m media_key 112 (zeros 32) (media_app_info t)) ≡ 112
  unfolding hkdf
  length-expanded media_key t =
      laws.length-hkdf media_key (zeros 32) (utf8_encode (media_app_info t)) 112 (omega arith)

  length-media_mac : (keys : MediaKeys) (c : Bytes) → length (media_mac m keys c) ≡ 10
  unfolding media_mac hmac_sha256
  length-media_mac keys c =
      length-subarray 0 10 (hmac_sha256 m keys.mac_key (keys.iv ++ c)) (omega arith)
        (omega (arith, laws.length-hmac keys.mac_key (keys.iv ++ c)))

  -- Encrypting any bytes with a media key and for a type succeeds. The payload is the ciphertext
  -- under the derived keys with ten bytes more, and with the same media key and type it decrypts to
  -- the bytes.
  pub decrypt_media-encrypt_media :
      (media_key plaintext : Bytes) (t : MediaType)
      → (r : EncryptedMediaResult) × (c : Bytes) × (encrypt_media m media_key plaintext t ≡ ok r)
        × (aes_cbc_encrypt m
              (derive_media_keys m media_key t).cipher_key
              (derive_media_keys m media_key t).iv
              plaintext
            ≡ ok c)
        × (length r.encrypted_payload ≡ length c + 10)
        × (decrypt_media m r.encrypted_payload r.media_key t ≡ ok plaintext)
  unfolding encrypt_media decrypt_media derive_media_keys aes_cbc_encrypt aes_cbc_decrypt
  decrypt_media-encrypt_media media_key plaintext t =
      let keys = derive_media_keys m media_key t in
      let expanded = hkdf m media_key 112 (zeros 32) (media_app_info t) in
      let long = length-expanded media_key t in
      let (c, sealed, back) =
        laws.cbc keys.cipher_key keys.iv plaintext
          (length-subarray 16 48 expanded (omega arith) (omega arith))
          (length-subarray 0 16 expanded (omega arith) (omega arith)) in
      let mac = media_mac m keys c in
      let size : length mac ≡ 10 = length-media_mac keys c in
      let fits : ltb (length (c ++ mac)) 10 ≡ false = ground (arith, length-append c mac) in
      (
        record {
          media_key = media_key;
          encrypted_payload = c ++ mac;
          file_sha256 = sha256 m plaintext;
          file_enc_sha256 = sha256 m (c ++ mac);
        },
        c,
        ap (λ (r : Result Bytes). sealed_media m media_key plaintext keys r) sealed,
        sealed,
        omega (arith, length-append {0} c mac, size),
        rw
            (
              fits,
              all_but_last-append c mac 10 size,
              last_of-append c mac 10 size,
              same_bytes_self 0 10 mac,
            )
            back,
      )

  -- What a decryption that gives bytes went by.
  pub decrypt_media-opened :
      (payload media_key p : Bytes) (t : MediaType)
      → decrypt_media m payload media_key t ≡ ok p
      → (last_of 10 payload
          ≡ media_mac m (derive_media_keys m media_key t) (all_but_last 10 payload))
        × (aes_cbc_decrypt m
              (derive_media_keys m media_key t).cipher_key
              (derive_media_keys m media_key t).iv
              (all_but_last 10 payload)
            ≡ ok p)
  unfolding decrypt_media
  decrypt_media-opened payload media_key p t h =
      let keys = derive_media_keys m media_key t in
      let c = all_but_last 10 payload in
      elim (Bool-cases (ltb (length payload) 10)) [
        | inl short ↦ absurd (let h' = rw short at h in cc)
        | inr long ↦ elim (Bool-cases (same_bytes 0 10 (last_of 10 payload) (media_mac m keys c))) [
          | inl same ↦ (
            same_bytes-equal 10 (last_of 10 payload) (media_mac m keys c)
                (ground (arith, length-drop {0} (length payload - 10) payload))
                (length-media_mac keys c) same,
            rw (long, same) at h,
          )
          | inr other ↦ absurd (let h' = rw (long, other) at h in cc)
        ]
      ]

  -- Decryption gives bytes only for a payload that is some ciphertext with its code behind it, both
  -- under the keys that are derived from the media key and for the type, and the bytes are what that
  -- ciphertext decrypts to.
  pub decrypt_media-authentic :
      (payload media_key p : Bytes) (t : MediaType)
      → decrypt_media m payload media_key t ≡ ok p
      → (c : Bytes) × (payload ≡ c ++ media_mac m (derive_media_keys m media_key t) c)
        × (aes_cbc_decrypt m
              (derive_media_keys m media_key t).cipher_key
              (derive_media_keys m media_key t).iv
              c
            ≡ ok p)
  decrypt_media-authentic payload media_key p t h =
      let (code, opened) = decrypt_media-opened payload media_key p t h in
      (
        all_but_last 10 payload,
        sym (take-drop (length payload - 10) payload) ∙ ap (λ b. all_but_last 10 payload ++ b) code,
        opened,
      )
