-- ===== src/Core/Noise/Frames.antt =====
-- packages/wazeko-core/src/noise.ts, `FrameCipher`: frames between two ends.
use wazeko.Prelude.{
  ℕ, ◌+◌, ◌<◌, ◌^◌, ◌≡◌, refl, sym, ◌∙◌, ap, subst, false, List, [], ◌∷◌, ◌++◌, none, arith, ltb,
  length, length-append, drop, take, drop-append, take-append,
}
use wazeko.Core.Errors.{ok}
use wazeko.Core.Rows.{each, each_ok}
use wazeko.Core.Bytes.{
  all_but_last-append, last_of-append, low_bytes, length-low_bytes, from_bytes,
  from_bytes-low_bytes,
}
use wazeko.Core.Crypto.{Bytes, Sealed, CryptoModule, IsCrypto, aes_gcm_encrypt, aes_gcm_decrypt}
use wazeko.Core.Noise.{CipherState, counter_to_iv, encrypt_frame, decrypt_frame}
use wazeko.Core.Noise.Handshake.{length-counter_to_iv}

-- No two frames of one direction use the same initialisation vector, up to 2 ^ 64 of them.
pub counter_to_iv-injective :
    (i j : ℕ) → i < 2 ^ 64 → j < 2 ^ 64 → counter_to_iv i ≡ counter_to_iv j → i ≡ j
unfolding counter_to_iv
counter_to_iv-injective i j h k e =
    let same : low_bytes 8 i ≡ low_bytes 8 j = ap (drop 4) e in
    sym (from_bytes-low_bytes 8 i (omega arith))
    ∙ ap (λ b. from_bytes b 0) same
    ∙ from_bytes-low_bytes 8 j (omega arith)

module _ (m : CryptoModule) (laws : IsCrypto m) where
  frame_back :
      (p : Bytes) (c d : CipherState)
      → length c.enc_key ≡ 32
      → c.enc_key ≡ d.dec_key
      → c.enc_counter ≡ d.dec_counter
      → (f : Bytes) × (encrypt_frame m p c ≡ (ok f, record c { enc_counter = c.enc_counter + 1 }))
        × (decrypt_frame m f d ≡ (ok p, record d { dec_counter = d.dec_counter + 1 }))
  unfolding encrypt_frame decrypt_frame aes_gcm_encrypt aes_gcm_decrypt
  frame_back p c d size same_key same_counter =
      let (s, sealed, tag, back) =
        laws.gcm c.enc_key (counter_to_iv c.enc_counter) p none size
          (length-counter_to_iv c.enc_counter) in
      let header = low_bytes 3 (length s.ciphertext + length s.tag) in
      let body = s.ciphertext ++ s.tag in
      let long : ltb (length (header ++ body)) (3 + 16) ≡ false = ground (
        arith,
        length-append header body,
        length-append s.ciphertext s.tag,
        length-low_bytes 3 (length s.ciphertext + length s.tag),
      ) in
      let payload : drop 3 (header ++ body) ≡ body = drop-append header body in
      let back' : m.gcm_open d.dec_key (counter_to_iv d.dec_counter) none s ≡ ok p =
        subst (λ n. m.gcm_open d.dec_key (counter_to_iv n) none s ≡ ok p) same_counter
          (subst (λ k. m.gcm_open k (counter_to_iv c.enc_counter) none s ≡ ok p) same_key back) in
      (
        header ++ body,
        rw sealed refl,
        rw
            (
              long,
              payload,
              all_but_last-append s.ciphertext s.tag 16 tag,
              last_of-append s.ciphertext s.tag 16 tag,
            )
            (ap (λ r. (r, record d { dec_counter = d.dec_counter + 1 })) back'),
      )

  -- Two ends with the same key and the same counters: whatever one encrypts in a row, the other
  -- decrypts in the same order.
  pub each-decrypt_frame :
      (ps : List Bytes) (c d : CipherState)
      → length c.enc_key ≡ 32
      → c.enc_key ≡ d.dec_key
      → c.enc_counter ≡ d.dec_counter
      → (fs : List Bytes) × ((each (encrypt_frame m) ps c).0 ≡ ok fs)
        × ((each (decrypt_frame m) fs d).0 ≡ ok ps)
  each-decrypt_frame [] c d size same_key same_counter = ([], refl, refl)
  each-decrypt_frame (p ∷ ps) c d size same_key same_counter =
      let (f, out, back) = frame_back p c d size same_key same_counter in
      let (fs, outs, backs) =
        each-decrypt_frame ps (record c { enc_counter = c.enc_counter + 1 })
          (record d { dec_counter = d.dec_counter + 1 }) size same_key
          (ap (λ n. n + 1) same_counter) in
      (
        f ∷ fs,
        each_ok (encrypt_frame m) p f ps fs c _ out outs,
        each_ok (decrypt_frame m) f p fs ps d _ back backs,
      )

  -- The first three bytes of a frame are the length of the rest, as long as they have room for it.
  pub encrypt_frame-header :
      (p : Bytes) (c : CipherState) (s : Sealed)
      → m.gcm_seal c.enc_key (counter_to_iv c.enc_counter) none p ≡ ok s
      → length s.ciphertext + length s.tag < 2 ^ 24
      → (f : Bytes) × ((encrypt_frame m p c).0 ≡ ok f)
        × (from_bytes (take 3 f) 0 ≡ length (drop 3 f))
  unfolding encrypt_frame aes_gcm_encrypt
  encrypt_frame-header p c s sealed short =
      let n = length s.ciphertext + length s.tag in
      (
        low_bytes 3 n ++ (s.ciphertext ++ s.tag),
        rw sealed refl,
        ap (λ b. from_bytes b 0) (take-append (low_bytes 3 n) (s.ciphertext ++ s.tag))
            ∙ from_bytes-low_bytes 3 n short
            ∙ sym (length-append s.ciphertext s.tag)
            ∙ ap length (sym (drop-append (low_bytes 3 n) (s.ciphertext ++ s.tag))),
      )
