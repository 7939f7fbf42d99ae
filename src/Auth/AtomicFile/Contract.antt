-- ===== src/Auth/AtomicFile/Contract.antt =====
-- packages/wazeko-auth/src/atomic-file-store.ts: the contract of a store.
use wazeko.Prelude.{sym, ap, subst, ◌∙◌, true, some, [], ◌∷◌}
use wazeko.Text.{Text}
use wazeko.Core.Errors.{Void, Result, ok, ◌>>=◌}
use wazeko.Core.Crypto.{CryptoModule}
use wazeko.Auth.Store.{IsAuthStore, JsonModule, IsJson}
use wazeko.Auth.Disk.{
  FsResult, FileSystem, IsFileSystem, PathModule, IsPlain, run_steps-first, rethrown,
}
use wazeko.Auth.FileStore.{creds_file_path, tolerated_done}
use wazeko.Auth.AtomicFile.{
  checksum_file_path, Stamp, read_back, load, save, clear, atomic_file_auth_store, unlink_tolerated,
}
use wazeko.Auth.AtomicFile.Checksum.{creds-checksum}
use wazeko.Auth.AtomicFile.Checksum.{creds-checksum}
use wazeko.Auth.AtomicFile.Course.{checked, course, runs, read_new}

module _ (m : CryptoModule) (fs : FileSystem) (works : IsFileSystem fs) (p : PathModule) where
  -- On a disk that works and in a plain directory, the atomic store with checksums keeps the
  -- contract of a store: it loads what was saved last as `JSON` reads it, its own checksum being the
  -- one it expects, and nothing once it was cleared.
  pub atomic_file_auth_store-IsAuthStore :
      (j : JsonModule)
      → IsJson j
      → (stamp : Stamp) (dir_path : Text) → IsPlain p (p.resolve dir_path)
      → IsAuthStore j.as_read (atomic_file_auth_store m j fs p checked stamp dir_path)
  unfolding atomic_file_auth_store save clear load
  atomic_file_auth_store-IsAuthStore j json stamp dir_path plain =
      let dir = p.resolve dir_path in
      let creds = creds_file_path p dir in
      let sum = checksum_file_path p dir in
      record {
        IsReady = works.Works;
        load-save = λ v d ready.
            let s = j.stringify_by 2 v in
            let ran = runs m fs works p dir plain stamp s d ready j 5 in
            (
              ap (λ (r : FsResult Void × fs.Disk). rethrown r.0) ran,
              ap (λ (r : FsResult Void × fs.Disk). load m j fs p checked dir r.1) ran
                  ∙ read_new m fs works p dir plain stamp s d ready j
                  ∙ ap (λ (r : Result j.Value). r >>= λ w. ok (some w))
                      (json.parse-stringify_by 2 v),
              subst (λ (r : FsResult Void × fs.Disk). works.Works r.1) (sym ran)
                  (course m fs works p dir plain stamp s d ready).ready5,
            );
        load-clear = λ d ready.
            let (out, ready1, gone, _) = works.unlinked creds d ready in
            let (out', ready2, _, same) = works.unlinked sum (fs.unlink creds d).1 ready1 in
            let unlink = unlink_tolerated m j fs p checked in
            let ran =
              run_steps-first (unlink creds) (unlink sum ∷ []) d (tolerated_done _ out)
              ∙ run_steps-first (unlink sum) [] (fs.unlink creds d).1 (tolerated_done _ out') in
            let gone' = same creds (creds-checksum p dir plain stamp) ∙ gone in
            (
              ap (λ (r : FsResult Void × fs.Disk). rethrown r.0) ran,
              ap (λ (r : FsResult Void × fs.Disk). load m j fs p checked dir r.1) ran
                  ∙ ap
                      (λ (c : FsResult Text).
                        read_back m j c (fs.read_file sum (fs.unlink sum (fs.unlink creds d).1).1)
                          true)
                      gone',
              subst (λ (r : FsResult Void × fs.Disk). works.Works r.1) (sym ran) ready2,
            );
      }
