-- ===== src/Auth/AtomicFile.antt =====
-- packages/wazeko-auth/src/atomic-file-store.ts. The clock and the random bytes in the names of the
-- temporary files are arguments.
pub mod Checksum
pub mod Course
pub mod Crash
pub mod Contract
pub mod Unchecked
use wazeko.Prelude.{
  ℕ, ◌+◌, ◌/◌, ◌%◌, Bool, true, false, Option, none, some, List, [], ◌∷◌, ◌++◌, ltb, if◌then◌else◌,
}
use wazeko.Text.{Text, codes, text_eq}
use wazeko.Text.Utf8.{utf8_encode}
use wazeko.Text.Split.{trim}
use wazeko.Core.Errors.{Void, plain_error, Result, ok, threw, ◌>>=◌}
use wazeko.Core.Crypto.{Bytes, CryptoModule}
use wazeko.Auth.Store.{AuthStore, JsonModule}
use wazeko.Auth.Disk.{FsResult, done, missing, failed, FileSystem, PathModule, run_steps, rethrown}
use wazeko.Auth.FileStore.{creds_file_path, tolerated}

pub record AtomicFileStoreOptions : Type 0 where
  pub checksum_validation : Bool

abbrev pub hex_digit : ℕ → ℕ
hex_digit n = if ltb n 10 then 48 + n else 87 + n

-- `digest("hex")`.
unfoldable pub to_hex : Bytes → Text
to_hex [] = []
to_hex (b ∷ bs) = hex_digit (b / 16 % 16) ∷ hex_digit (b % 16) ∷ to_hex bs

unfoldable pub checksum_of : CryptoModule → Text → Text
unfolding to_hex
checksum_of m content = to_hex (m.sha256_digest (utf8_encode content))

abbrev pub checksum_file_path : PathModule → Text → Text
checksum_file_path p dir = p.join dir (codes "credentials.checksum")

-- What makes the names of the temporary files of a save: the two readings of the clock, and the
-- random bytes in hexadecimal.
pub record Stamp : Type 0 where
  pub now : Text
  pub random : Text
  pub later : Text

abbrev pub temp_file_path : PathModule → Stamp → Text → Text
temp_file_path p stamp dir =
    creds_file_path p dir ++ (codes ".tmp." ++ (stamp.now ++ (codes "." ++ stamp.random)))

abbrev pub temp_checksum_path : PathModule → Stamp → Text → Text
temp_checksum_path p stamp dir = checksum_file_path p dir ++ (codes ".tmp." ++ stamp.later)

module _ (m : CryptoModule) (j : JsonModule) where
  -- The content of the file against the file of its checksum, which may be missing.
  abbrev pub validated : FsResult Text → Text → Result Text
  validated (done sum) content =
      if text_eq (trim sum) (checksum_of m content)
      then ok content
      else threw (
          plain_error (
            codes "Checksum mismatch: file corrupted. Expected "
            ++ (trim sum ++ (codes ", got " ++ checksum_of m content))))
  validated missing content = ok content
  validated (failed t) content = threw t

  abbrev pub read_back : FsResult Text → FsResult Text → Bool → Result (Option j.Value)
  read_back (done content) sum checked =
      (if checked then validated sum content else ok content) >>= λ text.
      j.parse text >>= λ v. ok (some v)
  read_back missing sum checked = ok none
  read_back (failed t) sum checked = threw t

  module _ (fs : FileSystem) (p : PathModule) (options : AtomicFileStoreOptions) where
    unfoldable pub load : Text → fs.Disk → Result (Option j.Value)
    unfolding checksum_of trim
    load dir d =
        read_back (fs.read_file (creds_file_path p dir) d)
          (fs.read_file (checksum_file_path p dir) d) options.checksum_validation

    -- The calls of a save, in order.
    unfoldable pub save_steps : Stamp → Text → Text → List (fs.Disk → FsResult Void × fs.Disk)
    unfolding checksum_of
    save_steps stamp dir serialized =
        fs.mkdir dir
        ∷ fs.write_file (temp_file_path p stamp dir) serialized
        ∷ ((if options.checksum_validation
              then fs.write_file (temp_checksum_path p stamp dir) (checksum_of m serialized)
                ∷ fs.rename (temp_checksum_path p stamp dir) (checksum_file_path p dir)
                ∷ []
              else [])
            ++ (fs.rename (temp_file_path p stamp dir) (creds_file_path p dir) ∷ []))

    unfoldable pub save : Stamp → Text → j.Value → fs.Disk → Result Void × fs.Disk
    unfolding save_steps
    save stamp dir credentials d =
        let result = run_steps (save_steps stamp dir (j.stringify_by 2 credentials)) d in
        (rethrown result.0, result.1)

    abbrev pub unlink_tolerated : Text → fs.Disk → FsResult Void × fs.Disk
    unlink_tolerated path d = let result = fs.unlink path d in (tolerated result.0, result.1)

    unfoldable pub clear : Text → fs.Disk → Result Void × fs.Disk
    clear dir d =
        let result =
          run_steps
            (unlink_tolerated (creds_file_path p dir)
              ∷ unlink_tolerated (checksum_file_path p dir)
              ∷ [])
            d in
        (rethrown result.0, result.1)

    unfoldable pub atomic_file_auth_store : Stamp → Text → AuthStore j.Value
    unfolding load save clear
    atomic_file_auth_store stamp dir_path = record {
      State = fs.Disk;
      load = load (p.resolve dir_path);
      save = save stamp (p.resolve dir_path);
      clear = clear (p.resolve dir_path);
    }
