-- ===== src/Auth/Disk/Memory.antt =====
-- A disk in memory that works, `JSON` on the truth values, and paths with slashes, for examples.
use wazeko.Prelude.{
  ◌≡◌, ◌≢◌, inl, inr, refl, sym, ap, ◌∙◌, Bool, true, false, Option, none, some, ◌∷◌, ◌++◌, arith,
  if◌then◌else◌, if_false, Bool-cases, All,
}
use wazeko.Text.{Text, codes, text_eq, text_eq_iff}
use wazeko.Text.Utf8.{IsScalar}
use wazeko.Map.{Map, text_key, get-set, get-delete}
use wazeko.Map as Maps
use wazeko.Core.Errors.{plain_error, ok, threw}
use wazeko.Auth.Store.{JsonModule, IsJson}
use wazeko.Auth.Disk.{
  FsResult, done, missing, failed, FileSystem, IsFileSystem, PathModule, IsPlain,
}

abbrev pub found : Option Text → FsResult Text
found (some t) = done t
found none = missing

abbrev moved : Option Text → Text → Text → Map Text Text → FsResult (Unit {0}) × Map Text Text
moved (some t) p q d = (done tt, Maps.set q t (Maps.delete p d))
moved none p q d = (missing, d)

unfoldable pub memory_disk : FileSystem
unfolding Maps.get Maps.set Maps.delete
memory_disk = record {
  Disk = Map Text Text;
  read_file = λ p d. found (Maps.get p d);
  mkdir = λ dir d. (done tt, d);
  write_file = λ p t d. (done tt, Maps.set p t d);
  rename = λ p q d. moved (Maps.get p d) p q d;
  unlink = λ p d. (done tt, Maps.delete p d);
}

found_done : (o : Option Text) (t : Text) → found o ≡ done t → o ≡ some t
found_done (some u) t e = cc
found_done none t e = cc

found-never_fails : (o : Option Text) (t : _) → found o ≢ failed t
found-never_fails (some u) t e = cc
found-never_fails none t e = cc

get-set_same : (p t : Text) (d : Map Text Text) → Maps.get p (Maps.set p t d) ≡ some t
get-set_same p t d = ground (arith, get-set p p t d, text_eq_iff p p)

get-set_other :
    (p q t : Text) (d : Map Text Text) → q ≢ p → Maps.get q (Maps.set p t d) ≡ Maps.get q d
get-set_other p q t d h = elim (Bool-cases (text_eq p q)) [
  | inl e ↦ absurd (h (sym ((text_eq_iff p q).0 e)))
  | inr e ↦ get-set p q t d ∙ if_false _ _ _ e
]

get-delete_same : (p : Text) (d : Map Text Text) → Maps.get p (Maps.delete p d) ≡ none
get-delete_same p d = ground (arith, get-delete p p d, text_eq_iff p p)

get-delete_other :
    (p q : Text) (d : Map Text Text) → q ≢ p → Maps.get q (Maps.delete p d) ≡ Maps.get q d
get-delete_other p q d h = elim (Bool-cases (text_eq p q)) [
  | inl e ↦ absurd (h (sym ((text_eq_iff p q).0 e)))
  | inr e ↦ get-delete p q d ∙ if_false _ _ _ e
]

pub memory_disk-IsFileSystem : IsFileSystem memory_disk
unfolding memory_disk
memory_disk-IsFileSystem = record {
  Works = λ _. Unit;
  read = λ p d _ t. found-never_fails (Maps.get p d) t;
  made = λ dir d _. (refl, tt, λ p. refl);
  written = λ p t d _.
      (refl, tt, ap found (get-set_same p t d), λ q h. ap found (get-set_other p q t d h));
  renamed = λ p q t d _ there.
      let e : Maps.get p d ≡ some t = found_done (Maps.get p d) t there in
      (
        rw e refl,
        tt,
        rw e (ap found (get-set_same q t (Maps.delete p d))),
        λ r h k.
            rw e (ap found (get-set_other q r t (Maps.delete p d) k ∙ get-delete_other p r d h)),
      );
  unlinked = λ p d _.
      (inl refl, tt, ap found (get-delete_same p d), λ q h. ap found (get-delete_other p q d h));
}

pub memory_disk-Works : (d : memory_disk.Disk) → memory_disk-IsFileSystem.Works d
unfolding memory_disk-IsFileSystem
memory_disk-Works d = tt

abbrev pub truth_text : Bool → Text
truth_text true = codes "true"
truth_text false = codes "false"

abbrev pub truth_json : JsonModule
truth_json = record {
  Value = Bool;
  stringify = truth_text;
  stringify_by = λ n. truth_text;
  parse = λ t.
      if text_eq t (codes "true")
      then ok true
      else if text_eq t (codes "false")
      then ok false
      else threw (plain_error (codes "SyntaxError"));
  as_read = λ v. v;
}

abbrev pub slash_paths : PathModule
slash_paths = record { resolve = λ p. p; join = λ dir name. dir ++ 47 ∷ name }

truth-scalars : (v : Bool) → All IsScalar (truth_text v)
truth-scalars true = ground arith
truth-scalars false = ground arith

truth-parse : (v : Bool) → truth_json.parse (truth_text v) ≡ ok v
unfolding text_eq
truth-parse true = refl
truth-parse false = refl

pub truth_json-IsJson : IsJson truth_json
unfolding text_eq
truth_json-IsJson = record {
  parse-stringify = truth-parse;
  parse-stringify_by = λ n. truth-parse;
  scalars = truth-scalars;
  parse_empty = (plain_error (codes "SyntaxError"), refl);
}

-- Every directory is plain for these paths.
pub slash_paths-IsPlain : (dir : Text) → IsPlain slash_paths dir
slash_paths-IsPlain dir = record { credentials = refl; checksum = refl }
