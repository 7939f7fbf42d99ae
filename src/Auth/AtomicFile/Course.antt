-- ===== src/Auth/AtomicFile/Course.antt =====
-- packages/wazeko-auth/src/atomic-file-store.ts: the calls of a save with checksums, one by one.
use wazeko.Prelude.{
  ℕ, zero, suc, ◌≡◌, ◌≢◌, ◌⊎◌, inl, inr, refl, sym, ap₂, ◌∙◌, true, some, List, [], ◌∷◌, take,
  Bool-cases, if_false,
}
use wazeko.Text.{Text, text_eq, text_eq_sound, text_eq_self}
use wazeko.Text.Split.{trim}
use wazeko.Core.Errors.{Thrown, Void, ok, threw, ◌>>=◌}
use wazeko.Core.Crypto.{CryptoModule}
use wazeko.Auth.Store.{JsonModule}
use wazeko.Auth.Disk.{
  FsResult, done, FileSystem, IsFileSystem, PathModule, IsPlain, run_steps, run_steps-first,
}
use wazeko.Auth.FileStore.{creds_file_path}
use wazeko.Auth.AtomicFile.{
  AtomicFileStoreOptions, checksum_of, checksum_file_path, Stamp, temp_file_path,
  temp_checksum_path, validated, read_back, load, save_steps,
}
use wazeko.Auth.AtomicFile.Checksum.{
  trim-checksum_of, creds-checksum, creds-temp, creds-temp_checksum, checksum-temp,
  checksum-temp_checksum, temp-temp_checksum,
}

-- The disk after the first `k` calls of a save.
unfoldable pub after :
    (m : CryptoModule) (j : JsonModule) (fs : FileSystem)
    → PathModule
    → AtomicFileStoreOptions
    → Stamp
    → Text
    → Text
    → ℕ
    → fs.Disk
    → fs.Disk
unfolding save_steps
after m j fs p options stamp dir s k d =
    (run_steps (take k (save_steps m j fs p options stamp dir s)) d).1

abbrev pub checked : AtomicFileStoreOptions
checked = record { checksum_validation = true }

module _ (m : CryptoModule) (fs : FileSystem) (works : IsFileSystem fs) (p : PathModule)
    (dir : Text) where
  module _ (plain : IsPlain p dir) (stamp : Stamp) (s : Text) (d : fs.Disk)
      (ready : works.Works d) where
    -- The calls of a save with checksums, and the disks between them.
    abbrev pub step1 : fs.Disk → FsResult Void × fs.Disk
    step1 = fs.mkdir dir

    abbrev pub step2 : fs.Disk → FsResult Void × fs.Disk
    step2 = fs.write_file (temp_file_path p stamp dir) s

    abbrev pub step3 : fs.Disk → FsResult Void × fs.Disk
    step3 = fs.write_file (temp_checksum_path p stamp dir) (checksum_of m s)

    abbrev pub step4 : fs.Disk → FsResult Void × fs.Disk
    step4 = fs.rename (temp_checksum_path p stamp dir) (checksum_file_path p dir)

    abbrev pub step5 : fs.Disk → FsResult Void × fs.Disk
    step5 = fs.rename (temp_file_path p stamp dir) (creds_file_path p dir)

    abbrev pub d1 : fs.Disk
    d1 = (step1 d).1

    abbrev pub d2 : fs.Disk
    d2 = (step2 d1).1

    abbrev pub d3 : fs.Disk
    d3 = (step3 d2).1

    abbrev pub d4 : fs.Disk
    d4 = (step4 d3).1

    abbrev pub d5 : fs.Disk
    d5 = (step5 d4).1

    -- What the two files hold after each call.
    pub record Course : Type 0 where
      pub ready5 : works.Works d5
      pub out1 : (step1 d).0 ≡ done tt
      pub out2 : (step2 d1).0 ≡ done tt
      pub out3 : (step3 d2).0 ≡ done tt
      pub out4 : (step4 d3).0 ≡ done tt
      pub out5 : (step5 d4).0 ≡ done tt
      pub creds4 : fs.read_file (creds_file_path p dir) d4 ≡ fs.read_file (creds_file_path p dir) d
      pub creds3 : fs.read_file (creds_file_path p dir) d3 ≡ fs.read_file (creds_file_path p dir) d
      pub creds2 : fs.read_file (creds_file_path p dir) d2 ≡ fs.read_file (creds_file_path p dir) d
      pub creds1 : fs.read_file (creds_file_path p dir) d1 ≡ fs.read_file (creds_file_path p dir) d
      pub sum3 :
          fs.read_file (checksum_file_path p dir) d3 ≡ fs.read_file (checksum_file_path p dir) d
      pub sum2 :
          fs.read_file (checksum_file_path p dir) d2 ≡ fs.read_file (checksum_file_path p dir) d
      pub sum1 :
          fs.read_file (checksum_file_path p dir) d1 ≡ fs.read_file (checksum_file_path p dir) d
      pub sum4 : fs.read_file (checksum_file_path p dir) d4 ≡ done (checksum_of m s)
      pub sum5 : fs.read_file (checksum_file_path p dir) d5 ≡ done (checksum_of m s)
      pub creds5 : fs.read_file (creds_file_path p dir) d5 ≡ done s

    pub course : Course
    course =
        let creds = creds_file_path p dir in
        let sum = checksum_file_path p dir in
        let temp = temp_file_path p stamp dir in
        let temp_sum = temp_checksum_path p stamp dir in
        let (o1, w1, same1) = works.made dir d ready in
        let (o2, w2, is2, same2) = works.written temp s d1 w1 in
        let (o3, w3, is3, same3) = works.written temp_sum (checksum_of m s) d2 w2 in
        let temp3 = same3 temp (temp-temp_checksum p dir plain stamp) ∙ is2 in
        let c1 = same1 creds in
        let c2 = same2 creds (creds-temp p dir plain stamp) ∙ c1 in
        let c3 = same3 creds (creds-temp_checksum p dir plain stamp) ∙ c2 in
        let k1 = same1 sum in
        let k2 = same2 sum (checksum-temp p dir plain stamp) ∙ k1 in
        let k3 = same3 sum (checksum-temp_checksum p dir plain stamp) ∙ k2 in
        let (o4, w4, is4, same4) = works.renamed temp_sum sum (checksum_of m s) d3 w3 is3 in
        let temp4 =
          same4 temp (temp-temp_checksum p dir plain stamp)
            (λ e. checksum-temp p dir plain stamp (sym e))
          ∙ temp3 in
        let c4 =
          same4 creds (creds-temp_checksum p dir plain stamp) (creds-checksum p dir plain stamp)
          ∙ c3 in
        let (o5, w5, is5, same5) = works.renamed temp creds s d4 w4 temp4 in
        let k5 =
          same5 sum (checksum-temp p dir plain stamp)
            (λ e. creds-checksum p dir plain stamp (sym e))
          ∙ is4 in
        record {
          ready5 = w5;
          out1 = o1;
          out2 = o2;
          out3 = o3;
          out4 = o4;
          out5 = o5;
          creds1 = c1;
          creds2 = c2;
          creds3 = c3;
          creds4 = c4;
          creds5 = is5;
          sum1 = k1;
          sum2 = k2;
          sum3 = k3;
          sum4 = is4;
          sum5 = k5;
        }

    abbrev pub ran : ℕ → fs.Disk
    ran zero = d
    ran (suc zero) = d1
    ran (suc (suc zero)) = d2
    ran (suc (suc (suc zero))) = d3
    ran (suc (suc (suc (suc zero)))) = d4
    ran (suc (suc (suc (suc (suc k))))) = d5

    abbrev Steps : Type 0
    Steps = List (fs.Disk → FsResult Void × fs.Disk)

    from1 : (S : Steps) → run_steps (step1 ∷ S) d ≡ run_steps S d1
    from1 S = run_steps-first step1 S d course.out1

    from2 : (S : Steps) → run_steps (step1 ∷ step2 ∷ S) d ≡ run_steps S d2
    from2 S = from1 (step2 ∷ S) ∙ run_steps-first step2 S d1 course.out2

    from3 : (S : Steps) → run_steps (step1 ∷ step2 ∷ step3 ∷ S) d ≡ run_steps S d3
    from3 S = from2 (step3 ∷ S) ∙ run_steps-first step3 S d2 course.out3

    from4 : (S : Steps) → run_steps (step1 ∷ step2 ∷ step3 ∷ step4 ∷ S) d ≡ run_steps S d4
    from4 S = from3 (step4 ∷ S) ∙ run_steps-first step4 S d3 course.out4

    from5 : (S : Steps) → run_steps (step1 ∷ step2 ∷ step3 ∷ step4 ∷ step5 ∷ S) d ≡ run_steps S d5
    from5 S = from4 (step5 ∷ S) ∙ run_steps-first step5 S d4 course.out5

    module _ (j : JsonModule) where
      -- The calls run one after the other, and none throws.
      pub runs :
          (k : ℕ)
          → run_steps (take k (save_steps m j fs p checked stamp dir s)) d ≡ (done tt, ran k)
      unfolding save_steps
      runs zero = refl
      runs (suc zero) = from1 []
      runs (suc (suc zero)) = from2 []
      runs (suc (suc (suc zero))) = from3 []
      runs (suc (suc (suc (suc zero)))) = from4 []
      runs (suc (suc (suc (suc (suc zero))))) = from5 []
      runs (suc (suc (suc (suc (suc (suc k)))))) = from5 []

      loaded :
          (d' d'' : fs.Disk)
          → fs.read_file (creds_file_path p dir) d' ≡ fs.read_file (creds_file_path p dir) d''
          → fs.read_file (checksum_file_path p dir) d' ≡ fs.read_file (checksum_file_path p dir) d''
          → load m j fs p checked dir d' ≡ load m j fs p checked dir d''
      unfolding load
      loaded d' d'' e f = ap₂ (λ c k. read_back m j c k true) e f

      pub read_new : load m j fs p checked dir d5 ≡ j.parse s >>= λ v. ok (some v)
      unfolding load
      read_new =
          ap₂ (λ c k. read_back m j c k true) course.creds5 course.sum5
          ∙ rw (trim-checksum_of m s, text_eq_self (checksum_of m s)) refl

      pub ran-loads :
          (k : ℕ)
          → k ≢ 4
          → (load m j fs p checked dir (ran k) ≡ load m j fs p checked dir d)
            ⊎ (load m j fs p checked dir (ran k) ≡ j.parse s >>= λ v. ok (some v))
      ran-loads zero h = inl refl
      ran-loads (suc zero) h = inl (loaded d1 d course.creds1 course.sum1)
      ran-loads (suc (suc zero)) h = inl (loaded d2 d course.creds2 course.sum2)
      ran-loads (suc (suc (suc zero))) h = inl (loaded d3 d course.creds3 course.sum3)
      ran-loads (suc (suc (suc (suc zero)))) h = absurd (h refl)
      ran-loads (suc (suc (suc (suc (suc k))))) h = inr read_new

      pub mismatched :
          (sum content : Text)
          → trim sum ≢ checksum_of m content
          → (t : Thrown) × (validated m j (done sum) content ≡ threw t)
      mismatched sum content h = elim (Bool-cases (text_eq (trim sum) (checksum_of m content))) [
        | inl e ↦ absurd (h (text_eq_sound _ _ e))
        | inr e ↦ (_, if_false _ _ _ e)
      ]
