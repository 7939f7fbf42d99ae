-- ===== src/Auth/FileStore.antt =====
-- packages/wazeko-auth/src/store.ts, `FileAuthStore`.
use wazeko.Prelude.{◌≡◌, sym, subst, ap, ◌∙◌, ◌⊎◌, inl, inr, Option, none, some, [], ◌∷◌}
use wazeko.Text.{Text, codes}
use wazeko.Core.Errors.{Void, Result, ok, threw, ◌>>=◌}
use wazeko.Auth.Store.{AuthStore, IsAuthStore, JsonModule, IsJson}
use wazeko.Auth.Disk.{
  FsResult, done, missing, failed, FileSystem, IsFileSystem, PathModule, run_steps, run_steps-first,
  rethrown,
}

-- An unlink to which a file that is not there is no failure.
abbrev pub tolerated : FsResult Void → FsResult Void
tolerated (done a) = done a
tolerated missing = done tt
tolerated (failed t) = failed t

pub tolerated_done : (r : FsResult Void) → (r ≡ done tt) ⊎ (r ≡ missing) → tolerated r ≡ done tt
tolerated_done r (inl e) = ap tolerated e
tolerated_done r (inr e) = ap tolerated e

module _ (p : PathModule) where
  abbrev pub creds_file_path : Text → Text
  creds_file_path dir = p.join dir (codes "credentials.json")

module _ (j : JsonModule) where
  abbrev pub parsed : FsResult Text → Result (Option j.Value)
  parsed (done content) = j.parse content >>= λ v. ok (some v)
  parsed missing = ok none
  parsed (failed t) = threw t

  module _ (fs : FileSystem) (p : PathModule) where
    unfoldable pub load : Text → fs.Disk → Result (Option j.Value)
    load dir d = parsed (fs.read_file (creds_file_path p dir) d)

    unfoldable pub save : Text → j.Value → fs.Disk → Result Void × fs.Disk
    save dir credentials d =
        let result =
          run_steps
            (fs.mkdir dir
              ∷ fs.write_file (creds_file_path p dir) (j.stringify_by 2 credentials)
              ∷ [])
            d in
        (rethrown result.0, result.1)

    unfoldable pub clear : Text → fs.Disk → Result Void × fs.Disk
    clear dir d =
        let result = fs.unlink (creds_file_path p dir) d in
        (rethrown (tolerated result.0), result.1)

    -- The store of a path, over the disk that all stores share.
    unfoldable pub file_auth_store : Text → AuthStore j.Value
    unfolding load save clear
    file_auth_store dir_path = record {
      State = fs.Disk;
      load = load (p.resolve dir_path);
      save = save (p.resolve dir_path);
      clear = clear (p.resolve dir_path);
    }

    -- On a disk that works, a file store keeps the contract of a store: it loads what was saved
    -- last as `JSON` reads it, and nothing once it was cleared.
    pub file_auth_store-IsAuthStore :
        IsJson j
        → IsFileSystem fs
        → (dir_path : Text) → IsAuthStore j.as_read (file_auth_store dir_path)
    unfolding file_auth_store load save clear
    file_auth_store-IsAuthStore json works dir_path =
        let dir = p.resolve dir_path in
        let path = creds_file_path p dir in
        record {
          IsReady = works.Works;
          load-save = λ v d ready.
              let (made, still, _) = works.made dir d ready in
              let (out, ready', there, _) =
                works.written path (j.stringify_by 2 v) (fs.mkdir dir d).1 still in
              let write = fs.write_file path (j.stringify_by 2 v) in
              let ran =
                run_steps-first (fs.mkdir dir) (write ∷ []) d made
                ∙ run_steps-first write [] (fs.mkdir dir d).1 out in
              (
                ap (λ (r : FsResult Void × fs.Disk). rethrown r.0) ran,
                ap (λ (r : FsResult Void × fs.Disk). load dir r.1) ran
                    ∙ rw there (
                        ap (λ (r : Result j.Value). r >>= λ w. ok (some w))
                          (json.parse-stringify_by 2 v)),
                subst (λ (r : FsResult Void × fs.Disk). works.Works r.1) (sym ran) ready',
              );
          load-clear = λ d ready.
              let (out, ready', gone, _) = works.unlinked path d ready in
              (ap rethrown (tolerated_done _ out), ap parsed gone, ready');
        }
