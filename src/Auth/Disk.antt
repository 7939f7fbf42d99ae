-- ===== src/Auth/Disk.antt =====
-- node's modules `fs/promises` and `path`, as packages/wazeko-auth/src uses them.
pub mod Memory
use wazeko.Prelude.{refl, ◌≡◌, ◌≢◌, ◌⊎◌, List, [], ◌∷◌, ◌++◌}
use wazeko.Text.{Text, codes}
use wazeko.Core.Errors.{Thrown, Void, plain_error, Result, ok, threw}

-- What a call does: it returns, it throws an error with the code ENOENT, or it throws another.
pub data FsResult (A : Type 0) : Type 0 where
  done : A → FsResult A
  missing : FsResult A
  failed : Thrown → FsResult A

pub record FileSystem : Type 1 where
  pub Disk : Type 0
  pub read_file : Text → Disk → FsResult Text
  pub mkdir : Text → Disk → FsResult Void × Disk
  pub write_file : Text → Text → Disk → FsResult Void × Disk
  pub rename : Text → Text → Disk → FsResult Void × Disk
  pub unlink : Text → Disk → FsResult Void × Disk

-- A disk that works: no call fails but for want of a file, and files are read as they were written.
pub record IsFileSystem (fs : FileSystem) : Type 1 where
  pub Works : fs.Disk → Type 0
  pub read : (p : Text) (d : fs.Disk) → Works d → (t : Thrown) → fs.read_file p d ≢ failed t
  pub made :
      (dir : Text) (d : fs.Disk)
      → Works d
      → ((fs.mkdir dir d).0 ≡ done tt)
        × Works (fs.mkdir dir d).1
        × ((p : Text) → fs.read_file p (fs.mkdir dir d).1 ≡ fs.read_file p d)
  pub written :
      (p t : Text) (d : fs.Disk)
      → Works d
      → ((fs.write_file p t d).0 ≡ done tt)
        × Works (fs.write_file p t d).1
        × (fs.read_file p (fs.write_file p t d).1 ≡ done t)
        × ((q : Text) → q ≢ p → fs.read_file q (fs.write_file p t d).1 ≡ fs.read_file q d)
  pub renamed :
      (p q t : Text) (d : fs.Disk)
      → Works d
      → fs.read_file p d ≡ done t
      → ((fs.rename p q d).0 ≡ done tt)
        × Works (fs.rename p q d).1
        × (fs.read_file q (fs.rename p q d).1 ≡ done t)
        × ((r : Text) → r ≢ p → r ≢ q → fs.read_file r (fs.rename p q d).1 ≡ fs.read_file r d)
  pub unlinked :
      (p : Text) (d : fs.Disk)
      → Works d
      → (((fs.unlink p d).0 ≡ done tt) ⊎ ((fs.unlink p d).0 ≡ missing))
        × Works (fs.unlink p d).1
        × (fs.read_file p (fs.unlink p d).1 ≡ missing)
        × ((q : Text) → q ≢ p → fs.read_file q (fs.unlink p d).1 ≡ fs.read_file q d)

pub record PathModule : Type 0 where
  pub resolve : Text → Text
  pub join : Text → Text → Text

-- A directory to which a name is joined by a slash: any absolute path but the root.
pub record IsPlain (p : PathModule) (dir : Text) : Type 0 where
  pub credentials : p.join dir (codes "credentials.json") ≡ dir ++ codes "/credentials.json"
  pub checksum : p.join dir (codes "credentials.checksum") ≡ dir ++ codes "/credentials.checksum"

module _ {D : Type 0} where
  -- Calls one after the other, up to the first that throws.
  abbrev pub and_then : FsResult Void × D → (D → FsResult Void × D) → FsResult Void × D
  and_then (done _, d) k = k d
  and_then (missing, d) k = (missing, d)
  and_then (failed t, d) k = (failed t, d)

  abbrev pub run_steps : List (D → FsResult Void × D) → D → FsResult Void × D
  run_steps [] d = (done tt, d)
  run_steps (step ∷ steps) d = and_then (step d) (run_steps steps)

  and_then_done :
      (r : FsResult Void × D) (k : D → FsResult Void × D) → r.0 ≡ done tt → and_then r k ≡ k r.1
  and_then_done (done _, d) k e = refl
  and_then_done (missing, d) k e = cc
  and_then_done (failed t, d) k e = cc

  pub run_steps-first :
      (step : D → FsResult Void × D) (steps : List (D → FsResult Void × D)) (d : D)
      → (step d).0 ≡ done tt
      → run_steps (step ∷ steps) d ≡ run_steps steps (step d).1
  run_steps-first step steps d e = and_then_done (step d) (run_steps steps) e

-- What a caller that does not look at the code sees.
abbrev pub rethrown : {A : Type 0} → FsResult A → Result A
rethrown (done a) = ok a
rethrown missing = threw (plain_error (codes "ENOENT"))
rethrown (failed t) = threw t
