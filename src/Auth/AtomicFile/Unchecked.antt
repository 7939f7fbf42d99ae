-- ===== src/Auth/AtomicFile/Unchecked.antt =====
-- packages/wazeko-auth/src/atomic-file-store.ts: the contract of a store without checksums.
use wazeko.Prelude.{
  refl, take, Option, ◌⊎◌, inl, inr, ℕ, zero, suc, ◌≡◌, sym, ap, subst, ◌∙◌, false, some, [], ◌∷◌,
}
use wazeko.Text.{Text}
use wazeko.Core.Errors.{Void, Result, ok, ◌>>=◌}
use wazeko.Core.Crypto.{CryptoModule}
use wazeko.Auth.Store.{IsAuthStore, JsonModule, IsJson}
use wazeko.Auth.Disk.{
  FsResult, done, missing, failed, FileSystem, IsFileSystem, PathModule, IsPlain, run_steps,
  run_steps-first, rethrown,
}
use wazeko.Auth.FileStore.{creds_file_path, tolerated_done}
use wazeko.Auth.AtomicFile.{
  AtomicFileStoreOptions, checksum_file_path, Stamp, temp_file_path, read_back, load, save, clear,
  save_steps, atomic_file_auth_store, unlink_tolerated,
}
use wazeko.Auth.AtomicFile.Course.{after}
use wazeko.Auth.AtomicFile.Checksum.{creds-temp, creds-checksum}

abbrev pub unchecked : AtomicFileStoreOptions
unchecked = record { checksum_validation = false }

module _ (m : CryptoModule) (fs : FileSystem) (works : IsFileSystem fs) (p : PathModule) where
  -- Where the save of a text ends, and what it leaves.
  record Saved (dir : Text) (stamp : Stamp) (s : Text) (d : fs.Disk) (j : JsonModule) : Type 0 where
    pub last : fs.Disk
    pub ready : works.Works last
    pub ran : run_steps (save_steps m j fs p unchecked stamp dir s) d ≡ (done tt, last)
    pub creds : fs.read_file (creds_file_path p dir) last ≡ done s
    pub first : fs.Disk
    pub ran1 : run_steps (fs.mkdir dir ∷ []) d ≡ (done tt, first)
    pub creds1 : fs.read_file (creds_file_path p dir) first ≡ fs.read_file (creds_file_path p dir) d
    pub second : fs.Disk
    pub ran2 :
        run_steps (fs.mkdir dir ∷ fs.write_file (temp_file_path p stamp dir) s ∷ []) d
        ≡ (done tt, second)
    pub creds2 :
        fs.read_file (creds_file_path p dir) second ≡ fs.read_file (creds_file_path p dir) d

  saved :
      (dir : Text)
      → IsPlain p dir
      → (stamp : Stamp) (s : Text) (d : fs.Disk) (j : JsonModule) → works.Works d
      → Saved dir stamp s d j
  unfolding save_steps
  saved dir plain stamp s d j ready =
      let temp = temp_file_path p stamp dir in
      let creds = creds_file_path p dir in
      let d1 = (fs.mkdir dir d).1 in
      let d2 = (fs.write_file temp s d1).1 in
      let (o1, w1, same1) = works.made dir d ready in
      let (o2, w2, is2, same2) = works.written temp s d1 w1 in
      let (o3, w3, is3, _) = works.renamed temp creds s d2 w2 is2 in
      let write = fs.write_file temp s in
      let rename = fs.rename temp creds in
      record {
        last = (fs.rename temp creds d2).1;
        ready = w3;
        ran =
            run_steps-first (fs.mkdir dir) (write ∷ rename ∷ []) d o1
            ∙ run_steps-first write (rename ∷ []) d1 o2
            ∙ run_steps-first rename [] d2 o3;
        creds = is3;
        first = d1;
        ran1 = run_steps-first (fs.mkdir dir) [] d o1;
        creds1 = same1 creds;
        second = d2;
        ran2 = run_steps-first (fs.mkdir dir) (write ∷ []) d o1 ∙ run_steps-first write [] d1 o2;
        creds2 = same2 creds (creds-temp p dir plain stamp) ∙ same1 creds;
      }

  -- On a disk that works and in a plain directory, the atomic store without checksums keeps the
  -- contract of a store: it loads what was saved last as `JSON` reads it, and nothing once it was
  -- cleared.
  pub unchecked-IsAuthStore :
      (j : JsonModule)
      → IsJson j
      → (stamp : Stamp) (dir_path : Text) → IsPlain p (p.resolve dir_path)
      → IsAuthStore j.as_read (atomic_file_auth_store m j fs p unchecked stamp dir_path)
  unfolding atomic_file_auth_store save clear load
  unchecked-IsAuthStore j json stamp dir_path plain =
      let dir = p.resolve dir_path in
      let creds = creds_file_path p dir in
      let sum = checksum_file_path p dir in
      record {
        IsReady = works.Works;
        load-save = λ v d ready.
            let x = saved dir plain stamp (j.stringify_by 2 v) d j ready in
            (
              ap (λ (r : FsResult Void × fs.Disk). rethrown r.0) x.ran,
              ap (λ (r : FsResult Void × fs.Disk). load m j fs p unchecked dir r.1) x.ran
                  ∙ ap (λ (c : FsResult Text). read_back m j c (fs.read_file sum x.last) false)
                      x.creds
                  ∙ ap (λ (r : Result j.Value). r >>= λ w. ok (some w))
                      (json.parse-stringify_by 2 v),
              subst (λ (r : FsResult Void × fs.Disk). works.Works r.1) (sym x.ran) x.ready,
            );
        load-clear = λ d ready.
            let (out, ready1, gone, _) = works.unlinked creds d ready in
            let (out', ready2, _, same) = works.unlinked sum (fs.unlink creds d).1 ready1 in
            let unlink = unlink_tolerated m j fs p unchecked in
            let ran =
              run_steps-first (unlink creds) (unlink sum ∷ []) d (tolerated_done _ out)
              ∙ run_steps-first (unlink sum) [] (fs.unlink creds d).1 (tolerated_done _ out') in
            (
              ap (λ (r : FsResult Void × fs.Disk). rethrown r.0) ran,
              ap (λ (r : FsResult Void × fs.Disk). load m j fs p unchecked dir r.1) ran
                  ∙ ap
                      (λ (c : FsResult Text).
                        read_back m j c (fs.read_file sum (fs.unlink sum (fs.unlink creds d).1).1)
                          false)
                      (same creds (creds-checksum p dir plain stamp) ∙ gone),
              subst (λ (r : FsResult Void × fs.Disk). works.Works r.1) (sym ran) ready2,
            );
      }

  unread_sum :
      (j : JsonModule) (content sum sum' : FsResult Text)
      → read_back m j content sum false ≡ read_back m j content sum' false
  unread_sum j (done t) sum sum' = refl
  unread_sum j missing sum sum' = refl
  unread_sum j (failed t) sum sum' = refl

  unread :
      (j : JsonModule) (dir : Text) (d d' : fs.Disk)
      → fs.read_file (creds_file_path p dir) d ≡ fs.read_file (creds_file_path p dir) d'
      → load m j fs p unchecked dir d ≡ load m j fs p unchecked dir d'
  unfolding load
  unread j dir d d' e =
      ap (λ (c : FsResult Text). read_back m j c (fs.read_file (checksum_file_path p dir) d) false)
        e
      ∙ unread_sum j (fs.read_file (creds_file_path p dir) d') _ _

  -- On a disk that works and in a plain directory, a save without checksums that ends after any of
  -- its calls leaves a directory from which a load gives what it gave before the save, or the new
  -- credentials as `JSON` reads them.
  pub load-ended :
      (j : JsonModule)
      → IsJson j
      → (dir : Text) → IsPlain p dir
      → (stamp : Stamp) (v : j.Value) (d : fs.Disk) → works.Works d
      → (k : ℕ)
      → (load m j fs p unchecked dir (after m j fs p unchecked stamp dir (j.stringify_by 2 v) k d)
          ≡ load m j fs p unchecked dir d)
        ⊎ (load m j fs p unchecked dir (after m j fs p unchecked stamp dir (j.stringify_by 2 v) k d)
            ≡ ok (some (j.as_read v)))
  unfolding after save_steps load
  load-ended j json dir plain stamp v d ready k =
      let s = j.stringify_by 2 v in ended (saved dir plain stamp s d j ready) k
    where
      at' : FsResult Void × fs.Disk → Result (Option j.Value)
      at' r = load m j fs p unchecked dir r.1

      new :
          Saved dir stamp (j.stringify_by 2 v) d j
          → at' (run_steps (save_steps m j fs p unchecked stamp dir (j.stringify_by 2 v)) d)
            ≡ ok (some (j.as_read v))
      new x =
          ap at' x.ran
          ∙ ap
              (λ (c : FsResult Text).
                read_back m j c (fs.read_file (checksum_file_path p dir) x.last) false)
              x.creds
          ∙ ap (λ (r : Result j.Value). r >>= λ w. ok (some w)) (json.parse-stringify_by 2 v)

      ended :
          Saved dir stamp (j.stringify_by 2 v) d j
          → (k : ℕ)
          → (at' (
                run_steps (take k (save_steps m j fs p unchecked stamp dir (j.stringify_by 2 v))) d)
              ≡ load m j fs p unchecked dir d)
            ⊎ (at' (
                  run_steps
                    (take k (save_steps m j fs p unchecked stamp dir (j.stringify_by 2 v)))
                    d)
                ≡ ok (some (j.as_read v)))
      ended x zero = inl refl
      ended x (suc zero) = inl (ap at' x.ran1 ∙ unread j dir x.first d x.creds1)
      ended x (suc (suc zero)) = inl (ap at' x.ran2 ∙ unread j dir x.second d x.creds2)
      ended x (suc (suc (suc zero))) = inr (new x)
      ended x (suc (suc (suc (suc k)))) = inr (new x)
