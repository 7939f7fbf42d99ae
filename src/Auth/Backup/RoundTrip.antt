-- ===== src/Auth/Backup/RoundTrip.antt =====
-- packages/wazeko-auth/src/session-backup.ts: a backup that is made and restored.
use wazeko.Prelude.{
  ◌≡◌, refl, sym, ap, subst, ◌∙◌, false, Option, none, some, ◌++◌, arith, ltb, length,
  length-append, take, drop, append_assoc, take-append, drop-append,
}
use wazeko.Text.{Text, codes, text_eq_self}
use wazeko.Text.Utf8.{utf8_encode, buffer_text-encode}
use wazeko.Map.{text_key, get-set}
use wazeko.Core.Errors.{Void, Result, ok, ◌>>=◌}
use wazeko.Core.Crypto.{Bytes, Sealed, CryptoModule, IsCrypto}
use wazeko.Auth.Store.{AuthStore, IsAuthStore, JsonModule, IsJson}
use wazeko.Auth.Backup.{
  BackupProvider, local_archive, Backup, encrypt_snapshot, decrypt_snapshot, uploaded,
  upload_encrypted, back_up, create_backup, saved, restored, restore_backup,
}

-- A provider that works: it keeps what was uploaded.
pub record IsProvider (p : BackupProvider) : Type 1 where
  pub Works : p.Archive → Type 0
  pub download-upload :
      (backup_id : Text) (data' : Bytes) (a : p.Archive)
      → Works a
      → (location : Text) × ((p.upload backup_id data' a).0 ≡ ok location)
        × (p.download backup_id (p.upload backup_id data' a).1 ≡ ok data')
        × Works (p.upload backup_id data' a).1

pub local_archive-IsProvider : IsProvider local_archive
unfolding local_archive
local_archive-IsProvider = record {
  Works = λ _. Unit;
  download-upload = λ backup_id data' a _. (
    codes "local://" ++ backup_id,
    refl,
    rw (get-set backup_id backup_id data' a, text_eq_self backup_id) refl,
    tt,
  );
}

pub local_archive-Works : (a : local_archive.Archive) → local_archive-IsProvider.Works a
unfolding local_archive-IsProvider
local_archive-Works a = tt

module _ (m : CryptoModule) (laws : IsCrypto m) (j : JsonModule) (json : IsJson j) where
  snapshot_back :
      (key iv : Bytes) (v : j.Value)
      → length key ≡ 32
      → length iv ≡ 12
      → (b : Bytes) × (encrypt_snapshot m j key iv v ≡ ok b)
        × (decrypt_snapshot m j key b ≡ ok (j.as_read v))
  unfolding encrypt_snapshot decrypt_snapshot
  snapshot_back key iv v size_key size_iv =
      let (s, sealed, size_tag, back) =
        laws.gcm key iv (utf8_encode (j.stringify v)) none size_key size_iv in
      let b = iv ++ (s.tag ++ s.ciphertext) in
      let long : ltb (length b) 28 ≡ false =
        ground
          (arith, length-append {0} iv (s.tag ++ s.ciphertext), length-append s.tag s.ciphertext) in
      let iv_back : take 12 b ≡ iv =
        subst (λ n. take n b ≡ iv) size_iv (take-append iv (s.tag ++ s.ciphertext)) in
      let rest : drop 12 b ≡ s.tag ++ s.ciphertext =
        subst (λ n. drop n b ≡ s.tag ++ s.ciphertext) size_iv
          (drop-append iv (s.tag ++ s.ciphertext)) in
      let tag_back : take 16 (s.tag ++ s.ciphertext) ≡ s.tag =
        subst (λ n. take n (s.tag ++ s.ciphertext) ≡ s.tag) size_tag
          (take-append s.tag s.ciphertext) in
      let both : length (iv ++ s.tag) ≡ 28 = omega (arith, length-append {0} iv s.tag) in
      let body : drop 28 b ≡ s.ciphertext =
        ap (drop 28) (sym (append_assoc iv s.tag s.ciphertext))
        ∙ subst (λ n. drop n ((iv ++ s.tag) ++ s.ciphertext) ≡ s.ciphertext) both
            (drop-append (iv ++ s.tag) s.ciphertext) in
      (
        b,
        ap (λ (r : Result Sealed). r >>= λ (t : Sealed). ok (iv ++ (t.tag ++ t.ciphertext))) sealed,
        rw
            (
              long,
              iv_back,
              rest,
              tag_back,
              body,
              back,
              buffer_text-encode (j.stringify v) (json.scalars v),
            )
            (json.parse-stringify v),
      )

  -- A backup of the credentials of one store, restored into another with the same key: the restore
  -- gives them as `JSON` reads them, and the other store loads them.
  pub restore_backup-create_backup :
      (key iv : Bytes) (id : Text) (p : BackupProvider) (works : IsProvider p) (a : p.Archive)
      (source target : AuthStore j.Value) (kept : j.Value → j.Value)
      (contract : IsAuthStore kept target) (x : source.State) (y : target.State) (v : j.Value)
      → length key ≡ 32
      → length iv ≡ 12
      → works.Works a
      → contract.IsReady y
      → source.load x ≡ ok (some v)
      → (b : Backup) × ((create_backup m j key p source iv id x a).0 ≡ ok b)
        × ((restore_backup m j key p target id (create_backup m j key p source iv id x a).1 y).0
            ≡ ok (j.as_read v))
        × (target.load
              (restore_backup m j key p target id (create_backup m j key p source iv id x a).1 y).1
            ≡ ok (some (kept (j.as_read v))))
  unfolding create_backup restore_backup back_up
  restore_backup-create_backup key iv id p works a source target kept contract x y v size_key
        size_iv ready ready' there =
      let (b, sealed, back) = snapshot_back key iv v size_key size_iv in
      let (location, out, got, _) = works.download-upload id b a ready in
      let (saved_ok, seen, _) = contract.load-save (j.as_read v) y ready' in
      let made : create_backup m j key p source iv id x a
          ≡ (ok (record { backup_id = id; location = location }), (p.upload id b a).1) =
        ap (λ (r : Result (Option j.Value)). back_up m j key p source iv id r a) there
        ∙ ap (λ (r : Result Bytes). upload_encrypted m j key p source id r a) sealed
        ∙ ap (λ (t : Result Text). uploaded m j key p source id (t, (p.upload id b a).1)) out in
      let restored_ok : restore_backup m j key p target id (p.upload id b a).1 y
          ≡ (ok (j.as_read v), (target.save (j.as_read v) y).1) =
        ap (λ (r : Result Bytes). restored m j key p target (r >>= decrypt_snapshot m j key) y) got
        ∙ ap (λ (r : Result j.Value). restored m j key p target r y) back
        ∙ ap
            (λ (t : Result Void).
              saved m j key p target (j.as_read v) (t, (target.save (j.as_read v) y).1))
            saved_ok in
      let (gave, loads) =
        subst
          (λ (r : Result Backup × p.Archive).
            ((restore_backup m j key p target id r.1 y).0 ≡ ok (j.as_read v))
            × (target.load (restore_backup m j key p target id r.1 y).1
                ≡ ok (some (kept (j.as_read v)))))
          (sym made)
          (
            ap (λ (r : Result j.Value × target.State). r.0) restored_ok,
            ap (λ (r : Result j.Value × target.State). target.load r.1) restored_ok ∙ seen,
          ) in
      (
        record { backup_id = id; location = location },
        ap (λ (r : Result Backup × p.Archive). r.0) made,
        gave,
        loads,
      )
