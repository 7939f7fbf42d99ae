-- ===== src/Media/Cleanup/Removal.antt =====
-- packages/wazeko/src/media/ttl-cleanup.ts: which files a round removes, and what it counts.
use wazeko.Prelude.{
  ℕ, ◌+◌, ◌≡◌, ◌≢◌, refl, sym, ap, ◌∙◌, subst, Bool, true, false, ◌&&◌, ◌||◌, inl, inr, List, [],
  ◌∷◌, map, arith, All, if◌then◌else◌, Bool-cases,
}
use wazeko.Text.{Text, text_eq, text_eq_iff, text_eq_self}
use wazeko.Auth.Disk.{FsResult, done, missing, failed}
use wazeko.Media.Cleanup.{
  Stats, TempFiles, IsTempFiles, TempCleanupManager, Progress, after_unlink, after_stat,
  remove_file, clean_file, clean_files, run_cleanup,
}
use wazeko.Media.Cleanup.Expiry.{
  is_old, is_expired_lem, expires, bytes, count_expired, expired_bytes, at_start,
}

-- Different paths.
abbrev pub AllDistinct : List Text → Type 0
AllDistinct [] = Unit
AllDistinct (p ∷ ps) = All (λ q. q ≢ p) ps × AllDistinct ps

abbrev pub is_in : Text → List Text → Bool
is_in q [] = false
is_in q (p ∷ ps) = text_eq p q || is_in q ps

module _ (now ttl : ℕ) where
  module _ (fs : TempFiles) (good : IsTempFiles fs) where
    -- What a round over some paths does to the files and the counters.
    pub record IsCleaned (paths : List Text) (p after : Progress fs.Disk) : Type 0 where
      pub works : good.Works after.disk
      pub removed :
          (q : Text)
          → fs.stat q after.disk ≡ (
              if is_in q paths && expires now ttl (fs.stat q p.disk)
              then missing
              else fs.stat q p.disk)
      pub counted :
          after.deleted_count
          ≡ p.deleted_count + count_expired now ttl (λ q. fs.stat q p.disk) paths
      pub measured :
          after.reclaimed_bytes
          ≡ p.reclaimed_bytes + expired_bytes now ttl (λ q. fs.stat q p.disk) paths

    differs : {p q : Text} → text_eq p q ≡ false → q ≢ p
    differs {p} {q} k z = let same = (text_eq_iff p q).1 (sym z) in cc

    is_in-others : (path : Text) (ps : List Text) → All (λ q. q ≢ path) ps → is_in path ps ≡ false
    is_in-others path [] h = refl
    is_in-others path (q ∷ ps) (h, hs) = elim (Bool-cases (text_eq q path)) [
      | inl k ↦ absurd (h ((text_eq_iff q path).0 k))
      | inr k ↦ rw k (is_in-others path ps hs)
    ]

    count_expired-same :
        (st st' : Text → FsResult Stats) (path : Text) (ps : List Text)
        → All (λ q. q ≢ path) ps
        → ((q : Text) → q ≢ path → st q ≡ st' q)
        → (count_expired now ttl st ps ≡ count_expired now ttl st' ps)
          × (expired_bytes now ttl st ps ≡ expired_bytes now ttl st' ps)
    count_expired-same st st' path [] h k = (refl, refl)
    count_expired-same st st' path (q ∷ ps) (h, hs) k =
        let ih = count_expired-same st st' path ps hs k in rw (k q h, ih.0, ih.1) (refl, refl)

    left_alone :
        (path : Text) (p : Progress fs.Disk) (x : FsResult Stats)
        → good.Works p.disk
        → fs.stat path p.disk ≡ x
        → expires now ttl x ≡ false
        → bytes now ttl x ≡ 0
        → IsCleaned (path ∷ []) p p
    left_alone path p x w e n z = record {
      works = w;
      removed = λ q. elim (Bool-cases (text_eq path q)) [
        | inl k ↦
            let same : expires now ttl (fs.stat q p.disk) ≡ false =
              subst (λ t. expires now ttl (fs.stat t p.disk) ≡ false) ((text_eq_iff path q).0 k)
                (ap (expires now ttl) e ∙ n) in
            rw (k, same) refl
        | inr k ↦ rw k refl
      ];
      counted = rw (e, n) (omega arith);
      measured = rw (e, z) (omega arith);
    }

    is_old-is_file : (s : Stats) → is_old now ttl s ≡ true → s.is_file ≡ true
    is_old-is_file s e = ground arith

    after_unlink_done :
        (p : Progress fs.Disk) (u : FsResult (Unit {0}) × fs.Disk)
        → u.0 ≡ done tt
        → after_unlink fs p u ≡ record p { deleted_count = p.deleted_count + 1; disk = u.1 }
    after_unlink_done p (done u, d) e = refl
    after_unlink_done p (missing, d) e = cc
    after_unlink_done p (failed t, d) e = cc

    remove_file-IsCleaned :
        (path : Text) (s : Stats) (p : Progress fs.Disk)
        → good.Works p.disk
        → fs.stat path p.disk ≡ done s
        → is_old now ttl s ≡ true
        → IsCleaned (path ∷ []) p (remove_file fs path s p)
    unfolding remove_file
    remove_file-IsCleaned path s p w e n =
        let u = good.unlinked path p.disk s w e (is_old-is_file s n) in
        let counting = record p { reclaimed_bytes = p.reclaimed_bytes + s.size } in
        rw (after_unlink_done counting (fs.unlink path p.disk) u.0) (record {
          works = u.1;
          removed = λ q. elim (Bool-cases (text_eq path q)) [
            | inl k ↦
                subst
                  (λ t. fs.stat t (fs.unlink path p.disk).1 ≡ (
                    if is_in t (path ∷ []) && expires now ttl (fs.stat t p.disk)
                    then missing
                    else fs.stat t p.disk))
                  ((text_eq_iff path q).0 k) (rw (text_eq_self path, e, n) u.2)
            | inr k ↦ rw k (u.3 q (λ z. absurd (differs k z)))
          ];
          counted = rw (e, n) (omega arith);
          measured = rw (e, n) (omega arith);
        })

    after_stat-IsCleaned :
        (path : Text) (p : Progress fs.Disk) (x : FsResult Stats)
        → good.Works p.disk
        → fs.stat path p.disk ≡ x
        → IsCleaned (path ∷ []) p (after_stat fs now ttl path p x)
    after_stat-IsCleaned path p (done s) w e = elim (Bool-cases (is_old now ttl s)) [
      | inl n ↦ rw (is_expired_lem now ttl s, n) (remove_file-IsCleaned path s p w e n)
      | inr n ↦ rw (is_expired_lem now ttl s, n) (left_alone path p (done s) w e n (rw n refl))
    ]
    after_stat-IsCleaned path p missing w e = left_alone path p missing w e refl refl
    after_stat-IsCleaned path p (failed t) w e = left_alone path p (failed t) w e refl refl

    clean_file-IsCleaned :
        (path : Text) (p : Progress fs.Disk)
        → good.Works p.disk
        → IsCleaned (path ∷ []) p (clean_file fs now ttl path p)
    unfolding clean_file
    clean_file-IsCleaned path p w = after_stat-IsCleaned path p (fs.stat path p.disk) w refl

    -- One path and then others, which it is not among.
    IsCleaned-then :
        (path : Text) (ps : List Text) (p p1 p2 : Progress fs.Disk)
        → All (λ q. q ≢ path) ps
        → IsCleaned (path ∷ []) p p1
        → IsCleaned ps p1 p2
        → IsCleaned (path ∷ ps) p p2
    IsCleaned-then path ps p p1 p2 h a b =
        let others : (q : Text) → q ≢ path → fs.stat q p1.disk ≡ fs.stat q p.disk = λ q n.
          elim (Bool-cases (text_eq path q)) [
            | inl k ↦ absurd (n (sym ((text_eq_iff path q).0 k)))
            | inr k ↦ let r = a.removed q in rw k at r
          ] in
        let sums = count_expired-same _ _ path ps h others in
        record {
          works = b.works;
          removed = λ q. elim (Bool-cases (text_eq path q)) [
            | inl k ↦
                let out : is_in q ps ≡ false =
                  subst (λ t. is_in t ps ≡ false) ((text_eq_iff path q).0 k)
                    (is_in-others path ps h) in
                let before = let r = a.removed q in rw k at r in
                let after = let r = b.removed q in rw out at r in rw k (after ∙ before)
            | inr k ↦ rw (k, sym (others q (differs k))) (b.removed q)
          ];
          counted = omega (arith, a.counted, b.counted, sums.0);
          measured = omega (arith, a.measured, b.measured, sums.1);
        }

    clean_files-IsCleaned :
        (dir : Text) (files : List Text) (p : Progress fs.Disk)
        → good.Works p.disk
        → AllDistinct (map (fs.join dir) files)
        → IsCleaned (map (fs.join dir) files) p (clean_files fs now ttl dir files p)
    unfolding clean_files
    clean_files-IsCleaned dir [] p w h = record {
      works = w;
      removed = λ q. refl;
      counted = omega arith;
      measured = omega arith;
    }
    clean_files-IsCleaned dir (file ∷ files) p w (h, hs) =
        let path = fs.join dir file in
        let a = clean_file-IsCleaned path p w in
        IsCleaned-then path (map (fs.join dir) files) p _ _ h a
          (clean_files-IsCleaned dir files (clean_file fs now ttl path p) a.works hs)

module _ (fs : TempFiles) where
  -- On a disk that works, where the names that are listed give different paths, a round removes
  -- just those regular files of the directory that are older than the time to live and leaves every
  -- other file as it was. It counts each file that it removed once, and the bytes are their sizes.
  pub run_cleanup-IsCleaned :
      (good : IsTempFiles fs) (now : ℕ) (m : TempCleanupManager) (d : fs.Disk) (files : List Text)
      → good.Works d
      → fs.readdir m.temp_dir d ≡ done files
      → AllDistinct (map (fs.join m.temp_dir) files)
      → IsCleaned now m.ttl_ms fs good
          (map (fs.join m.temp_dir) files)
          (at_start fs d)
          (run_cleanup fs now m d)
  unfolding run_cleanup
  run_cleanup-IsCleaned good now m d files w e h =
      rw e (clean_files-IsCleaned now m.ttl_ms fs good m.temp_dir files (at_start fs d) w h)
