-- ===== src/Core/Signal/Sessions.antt =====
-- packages/wazeko-core/src/signal.ts, `SignalSession`: messages between two ends, and the store.
use wazeko.Prelude.{
  ◌+◌, ◌≡◌, ◌⊎◌, inl, inr, refl, ap, subst, ◌∙◌, List, [], ◌∷◌, ◌++◌, arith, ◌==◌, if◌then◌else◌,
  length, drop, take, drop-append, take-append, All,
}
use wazeko.Text.{codes}
use wazeko.Text.Utf8.{utf8_encode}
use wazeko.Text.Decimal.{decimal}
use wazeko.Core.Errors.{Thrown, Result, ok, threw}
use wazeko.Core.Rows.{each, each_ok}
use wazeko.Core.Bytes.{zeros}
use wazeko.Core.Crypto.{
  Bytes, CryptoModule, IsCrypto, hkdf, sha256, aes_cbc_encrypt, aes_cbc_decrypt,
}
use wazeko.Core.Signal.{
  msg, pkmsg, SignalEncryptedMessage, SignalSession, message_key, advance, packed, encrypt,
  unpacked, decrypt,
}

-- A message with the random vector that is drawn for it.
abbrev pub encrypt_with :
    CryptoModule → Bytes × Bytes → SignalSession → Result SignalEncryptedMessage × SignalSession
unfolding encrypt
encrypt_with m (iv, plaintext) s = encrypt m iv plaintext s

abbrev pub plaintexts : List (Bytes × Bytes) → List Bytes
plaintexts [] = []
plaintexts ((iv, p) ∷ ps) = p ∷ plaintexts ps

abbrev pub VectorsFit : List (Bytes × Bytes) → Type 0
VectorsFit ps = All (λ (p : Bytes × Bytes). length p.0 ≡ 16) ps

module _ (m : CryptoModule) (laws : IsCrypto m) where
  length-message_key : (s : SignalSession) → length (message_key m s) ≡ 32
  unfolding message_key hkdf
  length-message_key s =
      laws.length-hkdf s.chain_key (zeros 32)
        (utf8_encode (codes "Signal-Msg-" ++ decimal s.sequence)) 32 (omega arith)

  same_message_key :
      (s t : SignalSession)
      → s.chain_key ≡ t.chain_key
      → s.sequence ≡ t.sequence
      → message_key m s ≡ message_key m t
  unfolding message_key
  same_message_key s t e f =
      ap (λ k. hkdf m k 32 (zeros 32) (codes "Signal-Msg-" ++ decimal s.sequence)) e
      ∙ ap (λ n. hkdf m t.chain_key 32 (zeros 32) (codes "Signal-Msg-" ++ decimal n)) f

  same_chain :
      (s t : SignalSession)
      → s.chain_key ≡ t.chain_key
      → (advance m s).chain_key ≡ (advance m t).chain_key
  unfolding advance
  same_chain s t e = ap (sha256 m) e

  same_count :
      (s t : SignalSession)
      → s.sequence ≡ t.sequence
      → (advance m s).sequence ≡ (advance m t).sequence
  unfolding advance
  same_count s t e = ap (λ n. n + 1) e

  vector : (iv c : Bytes) → length iv ≡ 16 → take 16 (iv ++ c) ≡ iv
  vector iv c size = subst (λ n. take n (iv ++ c) ≡ iv) size (take-append iv c)

  body : (iv c : Bytes) → length iv ≡ 16 → drop 16 (iv ++ c) ≡ c
  body iv c size = subst (λ n. drop n (iv ++ c) ≡ c) size (drop-append iv c)

  message_back :
      (iv p : Bytes) (s t : SignalSession)
      → length iv ≡ 16
      → s.chain_key ≡ t.chain_key
      → s.sequence ≡ t.sequence
      → (e : SignalEncryptedMessage) × (encrypt m iv p s ≡ (ok e, advance m s))
        × (decrypt m e t ≡ (ok p, advance m t))
  unfolding encrypt decrypt aes_cbc_encrypt aes_cbc_decrypt
  message_back iv p s t size same_key same_sequence =
      let (c, sealed, back) = laws.cbc (message_key m s) iv p (length-message_key s) size in
      let same : message_key m s ≡ message_key m t = same_message_key s t same_key same_sequence in
      (
        record {
          type' = if (advance m s).sequence == 1 then pkmsg else msg;
          registration_id = 1000;
          ciphertext = iv ++ c;
        },
        ap (λ (r : Result Bytes). packed m iv r s) sealed,
        ap (λ (r : Result Bytes). unpacked m r t) {y = ok p}
            (subst (λ k. m.cbc_decrypt k (take 16 (iv ++ c)) (drop 16 (iv ++ c)) ≡ ok p) same
              (rw (vector iv c size, body iv c size) back)),
      )

  -- Two ends with the same chain key and the same sequence number: whatever one encrypts in a row,
  -- the other decrypts in the same order.
  pub each-decrypt :
      (ps : List (Bytes × Bytes)) (s t : SignalSession)
      → VectorsFit ps
      → s.chain_key ≡ t.chain_key
      → s.sequence ≡ t.sequence
      → (es : List SignalEncryptedMessage) × ((each (encrypt_with m) ps s).0 ≡ ok es)
        × ((each (decrypt m) es t).0 ≡ ok (plaintexts ps))
  unfolding encrypt_with encrypt advance
  each-decrypt [] s t fit same_key same_sequence = ([], refl, refl)
  each-decrypt ((iv, p) ∷ ps) s t (size, fit) same_key same_sequence =
      let (e, out, back) = message_back iv p s t size same_key same_sequence in
      let (es, outs, backs) =
        each-decrypt ps (advance m s) (advance m t) fit (same_chain s t same_key)
          (same_count s t same_sequence) in
      (
        e ∷ es,
        each_ok (encrypt_with m) (iv, p) e ps es s _ out outs,
        each_ok (decrypt m) e p es (plaintexts ps) t _ back backs,
      )

  unpacked-cases :
      (r : Result Bytes) (s : SignalSession)
      → ((t : Thrown) × (unpacked m r s ≡ (threw t, s)))
        ⊎ ((p : Bytes) × (unpacked m r s ≡ (ok p, advance m s)))
  unpacked-cases (threw t) s = inl (t, refl)
  unpacked-cases (ok p) s = inr (p, refl)

  -- A message that does not decrypt leaves the session as it was, and one that does moves it on by
  -- one, whatever comes out.
  pub decrypt-advance :
      (e : SignalEncryptedMessage) (s : SignalSession)
      → ((t : Thrown) × (decrypt m e s ≡ (threw t, s)))
        ⊎ ((p : Bytes) × (decrypt m e s ≡ (ok p, advance m s)))
  unfolding decrypt
  decrypt-advance e s =
      unpacked-cases
        (aes_cbc_decrypt m (message_key m s) (take 16 e.ciphertext) (drop 16 e.ciphertext)) s
