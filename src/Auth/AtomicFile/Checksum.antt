-- ===== src/Auth/AtomicFile/Checksum.antt =====
-- packages/wazeko-auth/src/atomic-file-store.ts: checksums, and the names of the files.
use wazeko.Prelude.{
  ℕ, ◌/◌, ◌%◌, ◌<◌, ◌≡◌, ◌≢◌, sym, ap, ◌∙◌, false, [], ◌∷◌, ◌++◌, append_assoc, arith, get_elem?,
}
use wazeko.Text.{Text, codes}
use wazeko.Text.Utf8.{utf8_encode}
use wazeko.Text.Split.{is_space, IsSolid, trim, trim-solid}
use wazeko.Queue.RateLimiter.{or_else}
use wazeko.Core.Crypto.{Bytes, CryptoModule}
use wazeko.Auth.Disk.{PathModule, IsPlain}
use wazeko.Auth.FileStore.{creds_file_path}
use wazeko.Auth.AtomicFile.{
  hex_digit, to_hex, checksum_of, checksum_file_path, Stamp, temp_file_path, temp_checksum_path,
}

hex_digit-solid : (n : ℕ) → n < 16 → is_space (hex_digit n) ≡ false
unfolding is_space
hex_digit-solid n h = ground arith

to_hex-IsSolid : (b : Bytes) → IsSolid (to_hex b)
unfolding to_hex
to_hex-IsSolid [] = tt
to_hex-IsSolid (b ∷ bs) = (
  hex_digit-solid (b / 16 % 16) (omega arith),
  (hex_digit-solid (b % 16) (omega arith), to_hex-IsSolid bs),
)

pub trim-checksum_of : (m : CryptoModule) (t : Text) → trim (checksum_of m t) ≡ checksum_of m t
unfolding checksum_of
trim-checksum_of m t = trim-solid _ (to_hex-IsSolid (m.sha256_digest (utf8_encode t)))

cancelled : (s t u : Text) → s ++ t ≡ s ++ u → t ≡ u
cancelled [] t u e = e
cancelled (c ∷ s) t u e = cancelled s t u (ground arith)

apart : (dir s t a b : Text) → a ≡ dir ++ s → b ≡ dir ++ t → s ≢ t → a ≢ b
apart dir s t a b e f h k = h (cancelled dir s t (sym e ∙ k ∙ f))

-- The names of the four files of a plain directory differ.
module _ (p : PathModule) (dir : Text) (plain : IsPlain p dir) (stamp : Stamp) where
  temp :
      temp_file_path p stamp dir
      ≡ dir
        ++ (codes "/credentials.json"
            ++ (codes ".tmp." ++ (stamp.now ++ (codes "." ++ stamp.random))))
  temp = rw plain.credentials (
      append_assoc dir (codes "/credentials.json")
        (codes ".tmp." ++ (stamp.now ++ (codes "." ++ stamp.random))))

  temp_checksum :
      temp_checksum_path p stamp dir
      ≡ dir ++ (codes "/credentials.checksum" ++ (codes ".tmp." ++ stamp.later))
  temp_checksum =
      rw plain.checksum
        (append_assoc dir (codes "/credentials.checksum") (codes ".tmp." ++ stamp.later))

  pub creds-checksum : creds_file_path p dir ≢ checksum_file_path p dir
  creds-checksum = apart dir _ _ _ _ plain.credentials plain.checksum (λ e. cc)

  pub creds-temp : creds_file_path p dir ≢ temp_file_path p stamp dir
  creds-temp = apart dir _ _ _ _ plain.credentials temp (λ e. cc)

  pub creds-temp_checksum : creds_file_path p dir ≢ temp_checksum_path p stamp dir
  creds-temp_checksum = apart dir _ _ _ _ plain.credentials temp_checksum (λ e. cc)

  pub checksum-temp : checksum_file_path p dir ≢ temp_file_path p stamp dir
  checksum-temp = apart dir _ _ _ _ plain.checksum temp (λ e. cc)

  pub checksum-temp_checksum : checksum_file_path p dir ≢ temp_checksum_path p stamp dir
  checksum-temp_checksum = apart dir _ _ _ _ plain.checksum temp_checksum (λ e. cc)

  pub temp-temp_checksum : temp_file_path p stamp dir ≢ temp_checksum_path p stamp dir
  temp-temp_checksum =
      apart dir _ _ _ _ temp temp_checksum
        (λ e. let letter : 106 ≡ 99 = ap (λ t. or_else (get_elem? t 13) 0) e in omega arith)
