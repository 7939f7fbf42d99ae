-- ===== src/Auth/AtomicFile/Crash.antt =====
-- packages/wazeko-auth/src/atomic-file-store.ts: a save that the process does not live to finish.
use wazeko.Prelude.{ℕ, ◌≡◌, ◌≢◌, ◌⊎◌, inl, inr, sym, ap, ap₂, ◌∙◌, true, some}
use wazeko.Text.{Text}
use wazeko.Core.Errors.{Thrown, Void, Result, ok, threw, ◌>>=◌}
use wazeko.Core.Crypto.{CryptoModule}
use wazeko.Auth.Store.{JsonModule, IsJson}
use wazeko.Auth.Disk.{FsResult, done, FileSystem, IsFileSystem, PathModule, IsPlain}
use wazeko.Auth.FileStore.{creds_file_path}
use wazeko.Auth.AtomicFile.{checksum_of, Stamp, read_back, load}
use wazeko.Auth.AtomicFile.Checksum.{trim-checksum_of}
use wazeko.Auth.AtomicFile.Course.{after, checked, course, runs, ran-loads, mismatched}

module _ (m : CryptoModule) (fs : FileSystem) (works : IsFileSystem fs) (p : PathModule)
    (dir : Text) where
  module _ (j : JsonModule) (json : IsJson j) where
    -- A save with checksums that ends after any of its calls but the fourth leaves a directory from
    -- which the next load gives what it gave before, or the new credentials.
    pub load-interrupted :
        (plain : IsPlain p dir) (stamp : Stamp) (v : j.Value) (d : fs.Disk)
        → works.Works d
        → (k : ℕ) → k ≢ 4
        → (load m j fs p checked dir (after m j fs p checked stamp dir (j.stringify_by 2 v) k d)
            ≡ load m j fs p checked dir d)
          ⊎ (load m j fs p checked dir (after m j fs p checked stamp dir (j.stringify_by 2 v) k d)
              ≡ ok (some (j.as_read v)))
    unfolding after
    load-interrupted plain stamp v d ready k other =
        let s = j.stringify_by 2 v in
        let at' =
          ap (λ (r : FsResult Void × fs.Disk). load m j fs p checked dir r.1)
            (runs m fs works p dir plain stamp s d ready j k) in
        elim (ran-loads m fs works p dir plain stamp s d ready j k other) [
          | inl e ↦ inl (at' ∙ e)
          | inr e ↦ inr (
              at'
              ∙ e
              ∙ ap (λ (r : Result j.Value). r >>= λ w. ok (some w)) (json.parse-stringify_by 2 v))
        ]

    -- Where a directory has credentials with another checksum, a save with checksums that ends after
    -- its fourth call leaves a directory from which every load throws.
    pub load-between_renames :
        (plain : IsPlain p dir) (stamp : Stamp) (v : j.Value) (d : fs.Disk) (content : Text)
        → works.Works d
        → fs.read_file (creds_file_path p dir) d ≡ done content
        → checksum_of m content ≢ checksum_of m (j.stringify_by 2 v)
        → (t : Thrown) × (load m j fs p checked dir
              (after m j fs p checked stamp dir (j.stringify_by 2 v) 4 d)
            ≡ threw t)
    unfolding after load
    load-between_renames plain stamp v d content ready there differ =
        let s = j.stringify_by 2 v in
        let at' =
          ap (λ (r : FsResult Void × fs.Disk). load m j fs p checked dir r.1)
            (runs m fs works p dir plain stamp s d ready j 4) in
        let c = course m fs works p dir plain stamp s d ready in
        let (t, e) =
          mismatched m fs works p dir plain stamp s d ready j (checksum_of m s) content
            (λ h. differ (sym h ∙ trim-checksum_of m s)) in
        (
          t,
          at'
              ∙ ap₂ (λ a b. read_back m j a b true) (c.creds4 ∙ there) c.sum4
              ∙ ap (λ (r : Result Text). r >>= λ text. j.parse text >>= λ w. ok (some w)) e,
        )
