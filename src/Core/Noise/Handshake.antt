-- ===== src/Core/Noise/Handshake.antt =====
-- packages/wazeko-core/src/noise.ts: the messages of the handshake.
use wazeko.Prelude.{ℕ, ◌≡◌, refl, true, false, none, ◌++◌, arith, ltb, length, length-append, ◌==◌}
use wazeko.Text.{codes}
use wazeko.Text.Utf8.{utf8_encode}
use wazeko.Core.Errors.{ok}
use wazeko.Core.Bytes.{
  subarray, all_but_last-append, last_of-append, length-subarray, zeros, low_bytes,
  length-low_bytes,
}
use wazeko.Core.Crypto.{
  Bytes, CryptoModule, IsCrypto, KeyPair, hkdf, aes_gcm_encrypt, aes_gcm_decrypt,
}
use wazeko.Core.Noise.{
  NoiseHandshake, ServerHello, create, mix_hash, initiate_handshake, derive, counter_to_iv,
  process_server_hello, craft_server_hello,
}

pub length-counter_to_iv : (n : ℕ) → length (counter_to_iv n) ≡ 12
unfolding counter_to_iv
length-counter_to_iv n =
    omega (arith, length-append {0} (zeros 4) (low_bytes 8 n), length-low_bytes 8 n)

module _ (m : CryptoModule) (laws : IsCrypto m) where
  length-derived :
      (key : Bytes) (h : NoiseHandshake) → length (subarray 32 64 (derive m key h)) ≡ 32
  unfolding derive hkdf
  length-derived key h =
      let long =
        laws.length-hkdf key h.chaining_key (utf8_encode (codes "Noise-DH")) 64 (omega arith) in
      length-subarray 32 64 (derive m key h) (omega arith) (omega (arith, long))

  -- A server hello that a fresh handshake crafts is opened by every fresh client: the payload comes
  -- out whatever key pairs the client has, so that the keys protect it from nobody.
  pub process_server_hello-craft_server_hello :
      (server_static server_ephemeral client_static client_ephemeral : KeyPair) (payload : Bytes)
      → length server_ephemeral.public_key ≡ 32
      → (hello : ServerHello) × ((craft_server_hello m payload
            (create m server_static server_ephemeral)).0
          ≡ ok hello)
        × ((process_server_hello m hello.server_ephemeral hello.server_payload_enc
              (initiate_handshake m (create m client_static client_ephemeral)).1).0
            ≡ ok payload)
  unfolding craft_server_hello process_server_hello create initiate_handshake mix_hash derive hkdf
      aes_gcm_encrypt aes_gcm_decrypt
  process_server_hello-craft_server_hello ss se cs ce payload size =
      let h = create m ss se in
      let keys = derive m se.public_key h in
      let (s, sealed, tag, back) =
        laws.gcm (subarray 32 64 keys) (counter_to_iv 0) payload none
          (length-derived se.public_key h) (length-counter_to_iv 0) in
      let size_fits : (length se.public_key == 32) ≡ true = ground arith in
      let tag_fits : ltb (length (s.ciphertext ++ s.tag)) 16 ≡ false =
        ground (arith, length-append s.ciphertext s.tag) in
      (
        record { server_ephemeral = se.public_key; server_payload_enc = s.ciphertext ++ s.tag },
        rw sealed refl,
        rw
            (
              size_fits,
              tag_fits,
              all_but_last-append s.ciphertext s.tag 16 tag,
              last_of-append s.ciphertext s.tag 16 tag,
              back,
            )
            refl,
      )
