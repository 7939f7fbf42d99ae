-- ===== src/Media/Cleanup.antt =====
-- packages/wazeko/src/media/ttl-cleanup.ts. Times are numbers of a unit so small that those of files
-- are whole. No other process touches the directory between two calls of one round.
pub mod Expiry
pub mod Removal
pub mod Refusal
pub mod Timer
mod Examples
use wazeko.Prelude.{
  ℕ, ◌+◌, ◌-◌, ◌*◌, ◌≡◌, ◌≢◌, Bool, true, false, ◌&&◌, ltb, ◌==◌, Option, none, some, List, [], ◌∷◌,
  ◌++◌, if◌then◌else◌,
}
use wazeko.Text.{Text}
use wazeko.Queue.RateLimiter.{or_else}
use wazeko.Core.Errors.{Void}
use wazeko.Auth.Disk.{FsResult, done, missing, failed}

-- What is read of the `Stats` of node.
pub record Stats : Type 0 where
  pub is_file : Bool
  pub mtime_ms : ℕ
  pub size : ℕ

-- The calls of node's `fs/promises` and `path`.
pub record TempFiles : Type 1 where
  pub Disk : Type 0
  pub readdir : Text → Disk → FsResult (List Text)
  pub stat : Text → Disk → FsResult Stats
  pub unlink : Text → Disk → FsResult Void × Disk
  pub join : Text → Text → Text

-- On a disk that works, the removal of a regular file removes it and nothing else.
pub record IsTempFiles (fs : TempFiles) : Type 1 where
  pub Works : fs.Disk → Type 0
  pub unlinked :
      (p : Text) (d : fs.Disk) (s : Stats)
      → Works d
      → fs.stat p d ≡ done s
      → s.is_file ≡ true
      → ((fs.unlink p d).0 ≡ done tt)
        × Works (fs.unlink p d).1
        × (fs.stat p (fs.unlink p d).1 ≡ missing)
        × ((q : Text) → q ≢ p → fs.stat q (fs.unlink p d).1 ≡ fs.stat q d)

pub record CleanupOptions : Type 0 where
  pub temp_dir : Text
  pub ttl_ms : Option ℕ
  pub interval_ms : Option ℕ

-- A timer of node is its number.
pub record TempCleanupManager : Type 0 where
  pub temp_dir : Text
  pub ttl_ms : ℕ
  pub interval_ms : ℕ
  pub timer : Option ℕ

unfoldable pub new_manager : CleanupOptions → TempCleanupManager
new_manager options = record {
  temp_dir = options.temp_dir;
  ttl_ms = or_else options.ttl_ms (15 * 60 * 1000);
  interval_ms = or_else options.interval_ms (5 * 60 * 1000);
  timer = none;
}

-- The two counters of `runCleanup`, and the disk.
pub record Progress (D : Type 0) : Type 0 where
  pub deleted_count : ℕ
  pub reclaimed_bytes : ℕ
  pub disk : D

-- Later than the time to live; a file from the future has no age.
unfoldable pub is_expired : ℕ → ℕ → Stats → Bool
is_expired now ttl stats = stats.is_file && ltb ttl (now - stats.mtime_ms)

module _ (fs : TempFiles) where
  abbrev pub after_unlink : Progress fs.Disk → FsResult Void × fs.Disk → Progress fs.Disk
  after_unlink p (done _, d) = record p { deleted_count = p.deleted_count + 1; disk = d }
  after_unlink p (missing, d) = record p { disk = d }
  after_unlink p (failed _, d) = record p { disk = d }

  -- The bytes are added before the file is removed.
  unfoldable pub remove_file : Text → Stats → Progress fs.Disk → Progress fs.Disk
  remove_file full_path stats p =
      after_unlink (record p { reclaimed_bytes = p.reclaimed_bytes + stats.size })
        (fs.unlink full_path p.disk)

  abbrev pub after_stat : ℕ → ℕ → Text → Progress fs.Disk → FsResult Stats → Progress fs.Disk
  after_stat now ttl full_path p (done stats) =
      if is_expired now ttl stats then remove_file full_path stats p else p
  after_stat now ttl full_path p missing = p
  after_stat now ttl full_path p (failed _) = p

  -- The body of the loop.
  unfoldable pub clean_file : ℕ → ℕ → Text → Progress fs.Disk → Progress fs.Disk
  unfolding remove_file is_expired
  clean_file now ttl full_path p = after_stat now ttl full_path p (fs.stat full_path p.disk)

  unfoldable pub clean_files : ℕ → ℕ → Text → List Text → Progress fs.Disk → Progress fs.Disk
  unfolding clean_file
  clean_files now ttl dir [] p = p
  clean_files now ttl dir (file ∷ files) p =
      clean_files now ttl dir files (clean_file now ttl (fs.join dir file) p)

  abbrev pub after_readdir :
      ℕ → ℕ → Text → Progress fs.Disk → FsResult (List Text) → Progress fs.Disk
  after_readdir now ttl dir p (done files) = clean_files now ttl dir files p
  after_readdir now ttl dir p missing = p
  after_readdir now ttl dir p (failed _) = p

  -- The counters are what the promise is resolved with: no error leaves the function.
  unfoldable pub run_cleanup : ℕ → TempCleanupManager → fs.Disk → Progress fs.Disk
  unfolding clean_files
  run_cleanup now m d =
      let start : Progress fs.Disk = record { deleted_count = 0; reclaimed_bytes = 0; disk = d } in
      after_readdir now m.ttl_ms m.temp_dir start (fs.readdir m.temp_dir d)

-- The timers of node that are on, each with its interval, and the number of the next one.
pub record Timers : Type 0 where
  pub active : List (ℕ × ℕ)
  pub next : ℕ

abbrev pub without : ℕ → List (ℕ × ℕ) → List (ℕ × ℕ)
without handle [] = []
without handle ((h, interval) ∷ timers) =
    if h == handle then without handle timers else (h, interval) ∷ without handle timers

abbrev pub clear : Option ℕ → Timers → Timers
clear none t = t
clear (some handle) t = record t { active = without handle t.active }

unfoldable pub stop : TempCleanupManager → Timers → TempCleanupManager × Timers
stop m t = (record m { timer = none }, clear m.timer t)

abbrev pub set_interval : TempCleanupManager × Timers → TempCleanupManager × Timers
set_interval (m, t) = (
  record m { timer = some t.next },
  record { active = t.active ++ (t.next, m.interval_ms) ∷ []; next = t.next + 1 },
)

unfoldable pub start : TempCleanupManager → Timers → TempCleanupManager × Timers
unfolding stop
start m t = set_interval (stop m t)
