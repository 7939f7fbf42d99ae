-- ===== src/Core/Crypto.antt =====
-- packages/wazeko-core/src/crypto.ts, over the primitives of node's module `crypto`.
use wazeko.Prelude.{ℕ, ◌-◌, ◌*◌, ◌≡◌, ◌≤◌, Option, List, drop, ltb, if◌then◌else◌, length}
use wazeko.Text.{Text}
use wazeko.Text.Utf8.{utf8_encode}
use wazeko.Core.Errors.{Result, ok}

abbrev pub Bytes : Type 0
Bytes = List ℕ

pub record Sealed : Type 0 where
  pub ciphertext : Bytes
  pub tag : Bytes

-- The module: digests, `hkdfSync` with "sha256", and a cipher from its key and its initialisation
-- vector, `update` and `final` in one. The ciphers throw for keys and vectors of other lengths, and
-- on data that is not theirs. `gcm` and `cbc` take no other state.
pub record CryptoModule : Type 0 where
  pub sha256_digest : Bytes → Bytes
  pub hmac_digest : Bytes → Bytes → Bytes
  pub hkdf_sync : Bytes → Bytes → Bytes → ℕ → Bytes
  pub gcm_seal : Bytes → Bytes → Option Bytes → Bytes → Result Sealed
  pub gcm_open : Bytes → Bytes → Option Bytes → Sealed → Result Bytes
  pub cbc_encrypt : Bytes → Bytes → Bytes → Result Bytes
  pub cbc_decrypt : Bytes → Bytes → Bytes → Result Bytes

-- What the code relies on: the lengths of digests and derived keys, and that a cipher with a key
-- and a vector of the right length does not throw and undoes what it did.
pub record IsCrypto (m : CryptoModule) : Type 0 where
  pub length-sha256 : (b : Bytes) → length (m.sha256_digest b) ≡ 32
  pub length-hmac : (k b : Bytes) → length (m.hmac_digest k b) ≡ 32
  pub length-hkdf :
      (secret salt info : Bytes) (n : ℕ) → n ≤ 8160 → length (m.hkdf_sync secret salt info n) ≡ n
  pub gcm :
      (k iv p : Bytes) (aad : Option Bytes)
      → length k ≡ 32
      → length iv ≡ 12
      → (s : Sealed) × (m.gcm_seal k iv aad p ≡ ok s)
        × (length s.tag ≡ 16)
        × (m.gcm_open k iv aad s ≡ ok p)
  pub cbc :
      (k iv p : Bytes)
      → length k ≡ 32
      → length iv ≡ 16
      → (c : Bytes) × (m.cbc_encrypt k iv p ≡ ok c) × (m.cbc_decrypt k iv c ≡ ok p)

pub record KeyPair : Type 0 where
  pub public_key : Bytes
  pub private_key : Bytes

-- `der.subarray(der.length - 32)`; a start below 0 counts from the end.
abbrev last_32 : Bytes → Bytes
last_32 der =
    if ltb (length der) 32 then drop (2 * length der - 32) der else drop (length der - 32) der

-- The pair in the encodings that `generateKeyPairSync` gives.
unfoldable pub generate_key_pair : Bytes → Bytes → KeyPair
generate_key_pair public_der private_der = record {
  public_key = last_32 public_der;
  private_key = last_32 private_der;
}

module _ (m : CryptoModule) where
  unfoldable pub sha256 : Bytes → Bytes
  sha256 data' = m.sha256_digest data'

  unfoldable pub hmac_sha256 : Bytes → Bytes → Bytes
  hmac_sha256 key data' = m.hmac_digest key data'

  unfoldable pub hkdf : Bytes → ℕ → Bytes → Text → Bytes
  hkdf secret len salt info = m.hkdf_sync secret salt (utf8_encode info) len

  unfoldable pub aes_gcm_encrypt : Bytes → Bytes → Bytes → Option Bytes → Result Sealed
  aes_gcm_encrypt key iv plaintext additional_data = m.gcm_seal key iv additional_data plaintext

  unfoldable pub aes_gcm_decrypt : Bytes → Bytes → Bytes → Bytes → Option Bytes → Result Bytes
  aes_gcm_decrypt key iv ciphertext tag additional_data =
      m.gcm_open key iv additional_data (record { ciphertext = ciphertext; tag = tag })

  unfoldable pub aes_cbc_encrypt : Bytes → Bytes → Bytes → Result Bytes
  aes_cbc_encrypt key iv plaintext = m.cbc_encrypt key iv plaintext

  unfoldable pub aes_cbc_decrypt : Bytes → Bytes → Bytes → Result Bytes
  aes_cbc_decrypt key iv ciphertext = m.cbc_decrypt key iv ciphertext
