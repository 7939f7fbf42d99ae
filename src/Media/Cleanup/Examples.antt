-- ===== src/Media/Cleanup/Examples.antt =====
-- A directory in memory, a round over it, and the timer of a manager.
use wazeko.Prelude.{
  ◌+◌, ◌≡◌, ◌≢◌, refl, sym, true, false, inl, inr, Option, none, some, List, [], ◌∷◌, ◌++◌, map,
  arith, length, drop, Bool-cases, ap,
}
use wazeko.Text.{Text, codes, text_eq, text_eq_iff}
use wazeko.Map.{Map, text_key, get, delete, get-delete}
use wazeko.Auth.Disk.{FsResult, done, missing}
use wazeko.Media.Cleanup.{Stats, TempFiles, IsTempFiles, TempCleanupManager, Timers, run_cleanup}
use wazeko.Media.Cleanup.Expiry.{at_start}
use wazeko.Media.Cleanup.Removal.{AllDistinct, IsCleaned, run_cleanup-IsCleaned}
use wazeko.Media.Cleanup.Timer.{
  TimerCall, to_start, to_stop, IsTimed, is_on, call_all, call_all-IsTimed,
}

abbrev seen : Option Stats → FsResult Stats
seen (some s) = done s
seen none = missing

abbrev memory_files : TempFiles
memory_files = record {
  Disk = Map Text Stats;
  readdir = λ dir d. done (map (λ (e : Text × Stats). drop (length dir + 1) e.0) d);
  stat = λ p d. seen (get p d);
  unlink = λ p d. (done tt, delete p d);
  join = λ dir file. dir ++ codes "/" ++ file;
}

seen-delete_same : (p : Text) (d : Map Text Stats) → seen (get p (delete p d)) ≡ missing
seen-delete_same p d = rw (get-delete p p d, (text_eq_iff p p).1 refl) refl

seen-delete_other :
    (p q : Text) (d : Map Text Stats) → q ≢ p → seen (get q (delete p d)) ≡ seen (get q d)
seen-delete_other p q d h = elim (Bool-cases (text_eq p q)) [
  | inl e ↦ absurd (h (sym ((text_eq_iff p q).0 e)))
  | inr e ↦ rw (get-delete p q d, e) refl
]

memory_files-IsTempFiles : IsTempFiles memory_files
memory_files-IsTempFiles = record {
  Works = λ d. Unit;
  unlinked = λ p d s _ e k. (refl, tt, seen-delete_same p d, λ q n. seen-delete_other p q d n);
}

abbrev manager : TempCleanupManager
manager = record { temp_dir = codes "/t"; ttl_ms = 100; interval_ms = 50; timer = none }

abbrev old_file : Stats
old_file = record { is_file = true; mtime_ms = 10; size = 7 }

abbrev new_file : Stats
new_file = record { is_file = true; mtime_ms = 950; size = 9 }

abbrev old_dir : Stats
old_dir = record { is_file = false; mtime_ms = 10; size = 4 }

abbrev disk : Map Text Stats
disk = (codes "/t/a", old_file) ∷ (codes "/t/bb", new_file) ∷ (codes "/t/ccc", old_dir) ∷ []

abbrev names : List Text
names = codes "a" ∷ codes "bb" ∷ codes "ccc" ∷ []

run_cleanup_counts :
    ((run_cleanup memory_files 1000 manager disk).deleted_count ≡ 1)
    × ((run_cleanup memory_files 1000 manager disk).reclaimed_bytes ≡ 7)
unfolding run_cleanup get delete text_eq
run_cleanup_counts = (refl, refl)

differ : {s t : Text} → length s ≢ length t → s ≢ t
differ h e = absurd (h (ap length e))

names-AllDistinct : AllDistinct (map (memory_files.join manager.temp_dir) names)
names-AllDistinct =
    ((differ (omega arith), (differ (omega arith), tt)), ((differ (omega arith), tt), (tt, tt)))

run_cleanup-IsCleaned_example :
    IsCleaned 1000 100 memory_files memory_files-IsTempFiles
      (map (memory_files.join (codes "/t")) names)
      (at_start memory_files disk)
      (run_cleanup memory_files 1000 manager disk)
unfolding memory_files-IsTempFiles
run_cleanup-IsCleaned_example =
    run_cleanup-IsCleaned memory_files memory_files-IsTempFiles 1000 manager disk names tt refl
      names-AllDistinct

abbrev timers : Timers
timers = record { active = (0, 9) ∷ []; next = 1 }

timed : IsTimed ((0, 9) ∷ []) 50 false (manager, timers)
timed = record {
  active = refl;
  kept = refl;
  switched = refl;
  older = λ h e. cc;
  fresh = (omega arith, tt);
}

abbrev some_calls : List TimerCall
some_calls = to_start ∷ to_start ∷ to_stop ∷ to_start ∷ []

call_all-IsTimed_example :
    IsTimed ((0, 9) ∷ []) 50 (is_on false some_calls) (call_all some_calls (manager, timers))
call_all-IsTimed_example = call_all-IsTimed ((0, 9) ∷ []) 50 some_calls false manager timers timed
