-- ===== src/Auth/Backup.antt =====
-- packages/wazeko-auth/src/session-backup.ts. The vector that the code draws is an argument, and so
-- is the name of a backup, of which the default is made from the clock.
pub mod RoundTrip
use wazeko.Prelude.{
  ℕ, Bool, true, false, Option, none, some, List, [], ◌∷◌, ◌++◌, ltb, ◌==◌, if◌then◌else◌, length,
  take, drop,
}
use wazeko.Text.{Text, codes}
use wazeko.Text.Utf8.{utf8_encode, buffer_text}
use wazeko.Map.{Map, text_key}
use wazeko.Map as Maps
use wazeko.Core.Errors.{Void, plain_error, Result, ok, threw, ◌>>=◌}
use wazeko.Core.Bytes.{subarray}
use wazeko.Core.Crypto.{Bytes, Sealed, CryptoModule}
use wazeko.Auth.Store.{AuthStore, JsonModule}

-- An implementation of `BackupProvider`, with what it keeps.
pub record BackupProvider : Type 1 where
  pub Archive : Type 0
  pub upload : Text → Bytes → Archive → Result Text × Archive
  pub download : Text → Archive → Result Bytes

abbrev found : Option Bytes → Text → Result Bytes
found (some data') backup_id = ok data'
found none backup_id = threw (plain_error (codes "Backup not found for ID: " ++ backup_id))

unfoldable pub local_archive : BackupProvider
unfolding Maps.get Maps.set
local_archive = record {
  Archive = Map Text Bytes;
  upload = λ backup_id encrypted_data a.
      (ok (codes "local://" ++ backup_id), Maps.set backup_id encrypted_data a);
  download = λ backup_id a. found (Maps.get backup_id a) backup_id;
}

-- `encryptionKey` of the options: a text or an array of bytes.
pub data EncryptionKey : Type 0 where
  passphrase : Text → EncryptionKey
  raw : Bytes → EncryptionKey

pub record Backup : Type 0 where
  pub backup_id : Text
  pub location : Text

module _ (m : CryptoModule) where
  -- The constructor: the key that the manager holds.
  unfoldable pub create_manager : EncryptionKey → Result Bytes
  create_manager (passphrase t) = ok (m.sha256_digest (utf8_encode t))
  create_manager (raw key) =
      if length key == 32
      then ok key
      else threw (plain_error (codes "Encryption key must be exactly 32 bytes for AES-256-GCM"))

  module _ (j : JsonModule) (encryption_key : Bytes) where
    unfoldable pub encrypt_snapshot : Bytes → j.Value → Result Bytes
    encrypt_snapshot iv credentials =
        m.gcm_seal encryption_key iv none (utf8_encode (j.stringify credentials))
        >>= λ (s : Sealed). ok (iv ++ (s.tag ++ s.ciphertext))

    unfoldable pub decrypt_snapshot : Bytes → Result j.Value
    decrypt_snapshot encrypted_buffer =
        if ltb (length encrypted_buffer) 28
        then threw (plain_error (codes "Encrypted snapshot payload is too short"))
        else m.gcm_open encryption_key (subarray 0 12 encrypted_buffer) none (record {
          ciphertext = drop 28 encrypted_buffer;
          tag = subarray 12 28 encrypted_buffer;
        })
          >>= λ decrypted. j.parse (buffer_text decrypted)

    module _ (p : BackupProvider) (store : AuthStore j.Value) where
      abbrev pub uploaded : Text → Result Text × p.Archive → Result Backup × p.Archive
      uploaded backup_id (ok location, a) =
          (ok (record { backup_id = backup_id; location = location }), a)
      uploaded backup_id (threw e, a) = (threw e, a)

      abbrev pub upload_encrypted : Text → Result Bytes → p.Archive → Result Backup × p.Archive
      upload_encrypted backup_id (ok encrypted) a =
          uploaded backup_id (p.upload backup_id encrypted a)
      upload_encrypted backup_id (threw e) a = (threw e, a)

      abbrev pub back_up :
          Bytes → Text → Result (Option j.Value) → p.Archive → Result Backup × p.Archive
      unfolding encrypt_snapshot
      back_up iv backup_id (ok (some creds)) a =
          upload_encrypted backup_id (encrypt_snapshot iv creds) a
      back_up iv backup_id (ok none) a = (
        threw
            (plain_error (codes "Cannot create backup: No active credentials found in AuthStore")),
        a,
      )
      back_up iv backup_id (threw e) a = (threw e, a)

      -- The store is read and stays as it is.
      unfoldable pub create_backup :
          Bytes → Text → store.State → p.Archive → Result Backup × p.Archive
      unfolding back_up
      create_backup iv backup_id x a = back_up iv backup_id (store.load x) a

      abbrev pub saved : j.Value → Result Void × store.State → Result j.Value × store.State
      saved creds (ok _, x) = (ok creds, x)
      saved creds (threw e, x) = (threw e, x)

      abbrev pub restored : Result j.Value → store.State → Result j.Value × store.State
      restored (ok creds) x = saved creds (store.save creds x)
      restored (threw e) x = (threw e, x)

      unfoldable pub restore_backup : Text → p.Archive → store.State → Result j.Value × store.State
      unfolding decrypt_snapshot
      restore_backup backup_id a x = restored (p.download backup_id a >>= decrypt_snapshot) x

-- The timer of the automatic backup: its interval in milliseconds, where it is set.
pub record AutoBackup : Type 0 where
  pub timer : Option ℕ

unfoldable pub stop_auto_backup : AutoBackup → AutoBackup
stop_auto_backup b = record b { timer = none }

unfoldable pub start_auto_backup : ℕ → AutoBackup → AutoBackup
unfolding stop_auto_backup
start_auto_backup interval_ms b = record (stop_auto_backup b) { timer = some interval_ms }

module _ (m : CryptoModule) (j : JsonModule) (encryption_key : Bytes) (p : BackupProvider)
    (store : AuthStore j.Value) where
  -- The location that the listener is told, if there is one; what is thrown is dropped.
  abbrev pub announced : Result Backup → Option Text
  announced (ok b) = some b.location
  announced (threw e) = none

  -- A round of the timer, at which a backup is made under a name from the clock.
  unfoldable pub auto_backup : Bytes → Text → store.State → p.Archive → Option Text × p.Archive
  unfolding create_backup
  auto_backup iv backup_id x a =
      let result = create_backup m j encryption_key p store iv backup_id x a in
      (announced result.0, result.1)
