-- ===== src/Auth/Examples.antt =====
-- packages/wazeko-auth/src: examples on a disk in memory, with `true` as the credentials.
use wazeko.Prelude.{
  false, ℕ, ◌≡◌, ◌≢◌, ◌⊎◌, refl, ap, Bool, true, none, some, [], ◌∷◌, arith, ◌==◌, get_elem?,
}
use wazeko.Text.{Text, codes, text_eq}
use wazeko.Text.Utf8.{utf8_encode, encode_char}
use wazeko.Core.Errors.{Thrown, ok, threw}
use wazeko.Core.Bytes.{zeros}
use wazeko.Core.Plain.{plain_crypto, plain_crypto-IsCrypto}
use wazeko.Queue.RateLimiter.{or_else}
use wazeko.Auth.Store.{
  IsAuthStore, memory_auth_store, memory_auth_store-IsAuthStore, memory_auth_store-IsReady,
}
use wazeko.Auth.Disk.{done}
use wazeko.Auth.Disk.Memory.{
  memory_disk, memory_disk-IsFileSystem, memory_disk-Works, truth_json, truth_json-IsJson,
  slash_paths, slash_paths-IsPlain,
}
use wazeko.Auth.FileStore.{creds_file_path}
use wazeko.Auth.AtomicFile.{Stamp, to_hex, checksum_of, load, atomic_file_auth_store}
use wazeko.Auth.AtomicFile.Course.{after, checked}
use wazeko.Auth.AtomicFile.Contract.{atomic_file_auth_store-IsAuthStore}
use wazeko.Auth.AtomicFile.Unchecked.{unchecked, load-ended}
use wazeko.Auth.AtomicFile.Crash.{load-interrupted, load-between_renames}
use wazeko.Auth.KeyValue.{KeyValAuthStoreOptions}
use wazeko.Auth.Backup.{Backup, local_archive, create_backup, restore_backup}
use wazeko.Auth.Backup.RoundTrip.{
  local_archive-IsProvider, local_archive-Works, restore_backup-create_backup,
}

abbrev home : Text
home = codes "/home/wazeko"

abbrev noon : Stamp
noon = record { now = codes "1200"; random = codes "00ff00ff"; later = codes "1201" }

abbrev defaults : KeyValAuthStoreOptions
defaults = record { key_prefix = none; ttl_seconds = none }

atomic_file_auth_store-IsAuthStore_example :
    IsAuthStore
      (λ (v : Bool). v)
      (atomic_file_auth_store plain_crypto truth_json memory_disk slash_paths checked noon home)
atomic_file_auth_store-IsAuthStore_example =
    atomic_file_auth_store-IsAuthStore plain_crypto memory_disk memory_disk-IsFileSystem slash_paths
      truth_json truth_json-IsJson noon home (slash_paths-IsPlain home)

-- A directory with the credentials `false` and no checksum.
abbrev saved_false : memory_disk.Disk
unfolding memory_disk
saved_false = (codes "/home/wazeko/credentials.json", codes "false") ∷ []

load-interrupted_example :
    (load plain_crypto truth_json memory_disk slash_paths checked home (
        after plain_crypto truth_json memory_disk slash_paths checked noon home
          (codes "true")
          3
          saved_false)
      ≡ load plain_crypto truth_json memory_disk slash_paths checked home saved_false)
    ⊎ (load plain_crypto truth_json memory_disk slash_paths checked home (
          after plain_crypto truth_json memory_disk slash_paths checked noon home
            (codes "true")
            3
            saved_false)
        ≡ ok (some true))
load-interrupted_example =
    load-interrupted plain_crypto memory_disk memory_disk-IsFileSystem slash_paths home truth_json
      truth_json-IsJson (slash_paths-IsPlain home) noon true saved_false
      (memory_disk-Works saved_false) 3 (λ e. omega arith)

load-ended_example :
    (load plain_crypto truth_json memory_disk slash_paths unchecked home (
        after plain_crypto truth_json memory_disk slash_paths unchecked noon home
          (codes "true")
          2
          saved_false)
      ≡ load plain_crypto truth_json memory_disk slash_paths unchecked home saved_false)
    ⊎ (load plain_crypto truth_json memory_disk slash_paths unchecked home (
          after plain_crypto truth_json memory_disk slash_paths unchecked noon home
            (codes "true")
            2
            saved_false)
        ≡ ok (some true))
load-ended_example =
    load-ended plain_crypto memory_disk memory_disk-IsFileSystem slash_paths truth_json
      truth_json-IsJson home (slash_paths-IsPlain home) noon true saved_false
      (memory_disk-Works saved_false) 2

saved_false-there :
    memory_disk.read_file (creds_file_path slash_paths home) saved_false ≡ done (codes "false")
unfolding memory_disk saved_false text_eq
saved_false-there = refl

differ : (a b : ℕ) → (a == b) ≡ false → a ≢ b
differ a b h e = ground arith

checksums-differ :
    checksum_of plain_crypto (codes "false") ≢ checksum_of plain_crypto (codes "true")
unfolding checksum_of to_hex utf8_encode encode_char
checksums-differ e = differ 54 55 refl (ap (λ t. or_else (get_elem? t 0) 0) e)

load-between_renames_example :
    (t : Thrown) × (load plain_crypto truth_json memory_disk slash_paths checked home (
        after plain_crypto truth_json memory_disk slash_paths checked noon home
          (codes "true")
          4
          saved_false)
      ≡ threw t)
load-between_renames_example =
    load-between_renames plain_crypto memory_disk memory_disk-IsFileSystem slash_paths home
      truth_json truth_json-IsJson (slash_paths-IsPlain home) noon true saved_false (codes "false")
      (memory_disk-Works saved_false) saved_false-there checksums-differ

abbrev no_backups : local_archive.Archive
unfolding local_archive
no_backups = []

restore_backup-create_backup_example :
    (b : Backup) × ((create_backup plain_crypto truth_json
        (zeros 32)
        local_archive
        (memory_auth_store Bool)
        (zeros 12)
        (codes "one")
        (some true)
        no_backups).0
      ≡ ok b)
    × ((restore_backup plain_crypto truth_json
          (zeros 32)
          local_archive
          (memory_auth_store Bool)
          (codes "one")
          (create_backup plain_crypto truth_json
            (zeros 32)
            local_archive
            (memory_auth_store Bool)
            (zeros 12)
            (codes "one")
            (some true)
            no_backups).1
          none).0
        ≡ ok true)
    × ((memory_auth_store Bool).load
          (restore_backup plain_crypto truth_json
            (zeros 32)
            local_archive
            (memory_auth_store Bool)
            (codes "one")
            (create_backup plain_crypto truth_json
              (zeros 32)
              local_archive
              (memory_auth_store Bool)
              (zeros 12)
              (codes "one")
              (some true)
              no_backups).1
            none).1
        ≡ ok (some true))
restore_backup-create_backup_example =
    restore_backup-create_backup plain_crypto plain_crypto-IsCrypto truth_json truth_json-IsJson
      (zeros 32) (zeros 12) (codes "one") local_archive local_archive-IsProvider no_backups
      (memory_auth_store Bool) (memory_auth_store Bool) (λ v. v)
      (memory_auth_store-IsAuthStore Bool) (some true) none true refl refl
      (local_archive-Works no_backups) (memory_auth_store-IsReady Bool none) refl
