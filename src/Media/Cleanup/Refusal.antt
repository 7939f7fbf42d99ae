-- ===== src/Media/Cleanup/Refusal.antt =====
-- packages/wazeko/src/media/ttl-cleanup.ts: a round on a disk that removes nothing.
use wazeko.Prelude.{ℕ, ◌+◌, ◌≡◌, refl, ap, ◌∙◌, inl, inr, List, [], ◌∷◌, map, arith, Bool-cases}
use wazeko.Text.{Text}
use wazeko.Core.Errors.{Thrown}
use wazeko.Auth.Disk.{FsResult, done, missing, failed}
use wazeko.Media.Cleanup.{
  Stats, TempFiles, TempCleanupManager, Progress, after_stat, remove_file, clean_file, clean_files,
  run_cleanup,
}
use wazeko.Media.Cleanup.Expiry.{is_old, is_expired_lem, bytes, expired_bytes, at_start}

module _ (now ttl : ℕ) where
  module _ (fs : TempFiles) (t : Thrown)
      (refuses : (q : Text) (d : fs.Disk) → fs.unlink q d ≡ (failed t, d)) where
    -- The one file is measured, and nothing else changes.
    abbrev measured_only : Progress fs.Disk → FsResult Stats → Progress fs.Disk
    measured_only p x = record p { reclaimed_bytes = p.reclaimed_bytes + bytes now ttl x }

    after_stat-refused :
        (path : Text) (p : Progress fs.Disk) (x : FsResult Stats)
        → after_stat fs now ttl path p x ≡ measured_only p x
    unfolding remove_file
    after_stat-refused path p (done s) = elim (Bool-cases (is_old now ttl s)) [
      | inl n ↦ rw (is_expired_lem now ttl s, n, refuses path p.disk) refl
      | inr n ↦
          let e : p.reclaimed_bytes + 0 ≡ p.reclaimed_bytes = omega arith in
          rw (is_expired_lem now ttl s, n, e) refl
    ]
    after_stat-refused path p missing =
        let e : p.reclaimed_bytes + 0 ≡ p.reclaimed_bytes = omega arith in rw e refl
    after_stat-refused path p (failed u) =
        let e : p.reclaimed_bytes + 0 ≡ p.reclaimed_bytes = omega arith in rw e refl

    clean_files-refused :
        (dir : Text) (files : List Text) (p : Progress fs.Disk)
        → clean_files fs now ttl dir files p ≡ record p {
          reclaimed_bytes =
              p.reclaimed_bytes
              + expired_bytes now ttl (λ q. fs.stat q p.disk) (map (fs.join dir) files);
        }
    unfolding clean_files clean_file
    clean_files-refused dir [] p =
        let e : p.reclaimed_bytes + 0 ≡ p.reclaimed_bytes = omega arith in rw e refl
    clean_files-refused dir (file ∷ files) p =
        let path = fs.join dir file in
        let x = fs.stat path p.disk in
        let rest = expired_bytes now ttl (λ q. fs.stat q p.disk) (map (fs.join dir) files) in
        let e : p.reclaimed_bytes + bytes now ttl x + rest
            ≡ p.reclaimed_bytes + (bytes now ttl x + rest) =
          omega arith in
        rw (after_stat-refused path p x) (
          clean_files-refused dir files (measured_only p x)
          ∙ ap (λ (n : ℕ). record p { reclaimed_bytes = n }) e)

module _ (fs : TempFiles) where
  -- On a disk that refuses every removal, a round removes nothing and still counts as reclaimed the
  -- bytes of all files of the directory that are older than the time to live.
  pub run_cleanup-refused :
      (t : Thrown) (now : ℕ) (m : TempCleanupManager) (d : fs.Disk) (files : List Text)
      → ((q : Text) (d : fs.Disk) → fs.unlink q d ≡ (failed t, d))
      → fs.readdir m.temp_dir d ≡ done files
      → ((run_cleanup fs now m d).disk ≡ d)
        × ((run_cleanup fs now m d).deleted_count ≡ 0)
        × ((run_cleanup fs now m d).reclaimed_bytes
            ≡ expired_bytes now m.ttl_ms (λ q. fs.stat q d) (map (fs.join m.temp_dir) files))
  unfolding run_cleanup
  run_cleanup-refused t now m d files h e =
      rw (e, clean_files-refused now m.ttl_ms fs t h m.temp_dir files (at_start fs d))
        (refl, refl, omega arith)
