-- ===== src/Observability/Logger/Entry.antt =====
-- packages/wazeko/src/observability/logger.ts: the fields of an entry.
use wazeko.Prelude.{
  ◌≡◌, refl, ap, ◌∙◌, subst, Bool, true, false, inl, inr, ◌&&◌, Option, none, some, [], ◌∷◌, arith,
  if◌then◌else◌, Bool-cases,
}
use wazeko.Text.{Text, codes, text_eq, text_eq_iff}
use wazeko.Map.{Map, text_key, get, set, get-set}
use wazeko.Observability.Logger.{LogLevel, Values, spread, format_error, fixed_fields, entry}

module _ {V : Type 0} where
  -- The fields of an object have different names.
  abbrev pub IsObject : Map Text V → Type 0
  unfolding get
  IsObject [] = Unit
  IsObject ((k, x) ∷ m) = (get k m ≡ none) × IsObject m

  abbrev pub first_of : Option V → Option V → Option V
  first_of (some x) o = some x
  first_of none o = o

  get-spread :
      (j : Text) (fields m : Map Text V)
      → IsObject m
      → get j (spread fields m) ≡ first_of (get j m) (get j fields)
  unfolding spread get
  get-spread j fields [] h = refl
  get-spread j fields ((k, x) ∷ m) (h, hs) =
      let ih = get-spread j (set k x fields) m hs in
      let at = get-set k j x fields in
      elim (Bool-cases (text_eq k j)) [
        | inl e ↦
            let none_left : get j m ≡ none =
              subst (λ t. get t m ≡ none) ((text_eq_iff k j).0 e) h in
            ground (arith, ih, at, none_left)
        | inr e ↦ ground (arith, ih, at)
      ]

  get-spread_err :
      (b : Bool) (k : Text) (x : V) (fields : Map Text V)
      → get k (spread fields (if b then (codes "err", x) ∷ [] else []))
        ≡ (if b && text_eq (codes "err") k then some x else get k fields)
  unfolding spread
  get-spread_err true k x fields = get-set (codes "err") k x fields
  get-spread_err false k x fields = refl

module _ (v : Values) where
  -- What a field of an entry holds: `err` the error as it is written, where there is one, every
  -- other field what the caller passed for it, and one of the four fixed fields its own value only
  -- where the caller passed none for it.
  pub get-entry :
      (k timestamp service message : Text) (level : LogLevel) (meta : Map Text v.Value)
      (err : v.Value)
      → IsObject meta
      → get k (entry v timestamp level service message meta err) ≡ (
          if v.is_truthy err && text_eq (codes "err") k
          then some (format_error v err)
          else first_of (get k meta) (get k (fixed_fields v timestamp level service message)))
  unfolding entry get spread
  get-entry k timestamp service message level meta err h =
      let fields = fixed_fields v timestamp level service message in
      let b = v.is_truthy err && text_eq (codes "err") k in
      get-spread_err (v.is_truthy err) k (format_error v err) (spread fields meta)
      ∙ ap (λ (o : Option v.Value). if b then some (format_error v err) else o)
          (get-spread k fields meta h)
