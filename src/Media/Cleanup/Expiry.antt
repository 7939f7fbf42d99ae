-- ===== src/Media/Cleanup/Expiry.antt =====
-- packages/wazeko/src/media/ttl-cleanup.ts: the files of a directory that have expired.
use wazeko.Prelude.{ℕ, ◌+◌, ◌≡◌, Bool, false, ◌&&◌, List, [], ◌∷◌, arith, if◌then◌else◌, ltb}
use wazeko.Text.{Text}
use wazeko.Auth.Disk.{FsResult, done, missing, failed}
use wazeko.Media.Cleanup.{Stats, TempFiles, Progress, is_expired}

module _ (now ttl : ℕ) where
  -- A regular file whose time to live is over.
  abbrev pub is_old : Stats → Bool
  is_old s = s.is_file && ltb (s.mtime_ms + ttl) now

  pub is_expired_lem : (s : Stats) → is_expired now ttl s ≡ is_old s
  unfolding is_expired
  is_expired_lem s = ground arith

  abbrev pub expires : FsResult Stats → Bool
  expires (done s) = is_old s
  expires missing = false
  expires (failed _) = false

  abbrev pub bytes : FsResult Stats → ℕ
  bytes (done s) = if is_old s then s.size else 0
  bytes missing = 0
  bytes (failed _) = 0

  -- The expired files among some paths, counted and measured.
  abbrev pub count_expired : (Text → FsResult Stats) → List Text → ℕ
  count_expired stat [] = 0
  count_expired stat (p ∷ ps) = (if expires (stat p) then 1 else 0) + count_expired stat ps

  abbrev pub expired_bytes : (Text → FsResult Stats) → List Text → ℕ
  expired_bytes stat [] = 0
  expired_bytes stat (p ∷ ps) = bytes (stat p) + expired_bytes stat ps

module _ (fs : TempFiles) where
  -- A round that begins.
  abbrev pub at_start : fs.Disk → Progress fs.Disk
  at_start d = record { deleted_count = 0; reclaimed_bytes = 0; disk = d }
