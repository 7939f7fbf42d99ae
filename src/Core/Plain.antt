-- ===== src/Core/Plain.antt =====
-- A module `crypto` whose ciphers keep what they are given, for examples.
use wazeko.Prelude.{◌≡◌, refl, ◌++◌, arith, length, length-append, take}
use wazeko.Core.Errors.{ok}
use wazeko.Core.Bytes.{zeros, length-zeros, length-take}
use wazeko.Core.Crypto.{Bytes, CryptoModule, IsCrypto}

abbrev pub padded : Bytes → Bytes
padded b = take 32 (b ++ zeros 32)

length-padded : (b : Bytes) → length (padded b) ≡ 32
length-padded b =
    length-take 32 (b ++ zeros 32) (omega (arith, length-append {0} b (zeros 32), length-zeros 32))

abbrev pub plain_crypto : CryptoModule
plain_crypto = record {
  sha256_digest = padded;
  hmac_digest = λ key b. padded b;
  hkdf_sync = λ secret salt info n. zeros n;
  gcm_seal = λ key iv aad p. ok (record { ciphertext = p; tag = zeros 16 });
  gcm_open = λ key iv aad s. ok s.ciphertext;
  cbc_encrypt = λ key iv p. ok p;
  cbc_decrypt = λ key iv c. ok c;
}

pub plain_crypto-IsCrypto : IsCrypto plain_crypto
plain_crypto-IsCrypto = record {
  length-sha256 = length-padded;
  length-hmac = λ k b. length-padded b;
  length-hkdf = λ secret salt info n h. length-zeros n;
  gcm = λ k iv p aad h k'. (record { ciphertext = p; tag = zeros 16 }, refl, refl, refl);
  cbc = λ k iv p h k'. (p, refl, refl);
}
