-- ===== src/Protocol/Attributes.antt =====
-- packages/wazeko-protocol/src/node.ts, `NodeAttributes`: a plain object whose values are texts,
-- as its entries in the order of `Object.entries`. Keys that are array indices come first, the
-- least one foremost; the other keys follow as they were first assigned.
use wazeko.Prelude.{
  ℕ, ◌+◌, ◌-◌, ◌*◌, ◌≡◌, refl, ap, Bool, true, false, ◌&&◌, Option, none, some, List, [], ◌∷◌, ◌++◌,
  arith, ltb, leb, if◌then◌else◌, All, sym, ◌∙◌, inl, inr, append-nil, append_assoc, Bool-cases,
}
use wazeko.Text.{Text, codes, text_eq, text_eq_iff, text_eq_sym}

abbrev pub NodeAttributes : Type 0
NodeAttributes = List (Text × Text)

-- The value of a text of decimal digits.
unfoldable pub digits_value : ℕ → Text → Option ℕ
digits_value acc [] = some acc
digits_value acc (c ∷ s) =
    let rest = digits_value (acc * 10 + (c - b'0')) s in
    if leb b'0' c && leb c b'9' then rest else none

unfoldable pub below_limit : Option ℕ → Option ℕ
below_limit none = none
below_limit (some n) = if ltb n 0xffff_ffff then some n else none

-- The array index that a key spells: its canonical decimal form, below 2 ^ 32 - 1.
unfoldable pub array_index : Text → Option ℕ
unfolding digits_value below_limit
array_index [] = none
array_index (c ∷ []) = digits_value 0 (c ∷ [])
array_index (c ∷ d ∷ s) =
    if leb b'1' c && leb c b'9' then below_limit (digits_value 0 (c ∷ d ∷ s)) else none

unfoldable pub index_before : Option ℕ → Option ℕ → Bool
index_before (some i) (some j) = leb i j
index_before none (some j) = false
index_before _ none = true

-- Whether an entry under `j` comes before a new one under another key `k`.
unfoldable pub goes_before : Text → Text → Bool
unfolding index_before array_index
goes_before j k = index_before (array_index j) (array_index k)

unfoldable pub insert_entry : Text → Text → NodeAttributes → NodeAttributes
insert_entry k v [] = (k, v) ∷ []
insert_entry k v ((j, w) ∷ m) =
    if text_eq j k
    then (j, v) ∷ m
    else if goes_before j k
    then (j, w) ∷ insert_entry k v m
    else (k, v) ∷ (j, w) ∷ m

abbrev pub proto_key : Text
proto_key = codes "__proto__"

-- `attrs[key] = value`. The key "__proto__" names the prototype, which a string cannot replace.
unfoldable pub assign : Text → Text → NodeAttributes → NodeAttributes
unfolding insert_entry
assign k v m = if text_eq k proto_key then m else insert_entry k v m

-- `Object.assign(attrs, entries)`, entry by entry.
unfoldable pub assign_all : NodeAttributes → NodeAttributes → NodeAttributes
assign_all [] m = m
assign_all ((k, v) ∷ entries) m = assign_all entries (assign k v m)

-- `j` stands before `k` in the entries of one object.
pub record Precedes (j k : Text) : Type 0 where
  pub differ : text_eq j k ≡ false
  pub ordered : goes_before j k ≡ true

abbrev pub PrecedesAll : Text → NodeAttributes → Type 0
PrecedesAll j m = All (λ e. Precedes j e.0) m

-- The entries of some object: distinct keys in their order, and no "__proto__".
abbrev pub IsObject : NodeAttributes → Type 0
IsObject [] = Unit {0}
IsObject ((k, v) ∷ m) = (text_eq k proto_key ≡ false) × PrecedesAll k m × IsObject m

goes_before_trans :
    (i j k : Text) → goes_before i j ≡ true → goes_before j k ≡ true → goes_before i k ≡ true
unfolding goes_before
goes_before_trans i j k p q = ground arith

goes_before_total : (j k : Text) → goes_before j k ≡ false → goes_before k j ≡ true
unfolding goes_before
goes_before_total j k p = ground arith

Precedes-flip : (j k : Text) → text_eq j k ≡ false → goes_before j k ≡ false → Precedes k j
Precedes-flip j k d p = record { differ = text_eq_sym k j ∙ d; ordered = goes_before_total j k p }

Precedes-trans_flip :
    (j k x : Text) → goes_before j k ≡ false → Precedes k j → Precedes j x → Precedes k x
Precedes-trans_flip j k x p kj jx = record {
  differ = ground (arith, text_eq_iff k x, jx.ordered);
  ordered = goes_before_trans k j x kj.ordered jx.ordered;
}

PrecedesAll-flip :
    (j k : Text) (m : NodeAttributes)
    → goes_before j k ≡ false
    → Precedes k j
    → PrecedesAll j m
    → PrecedesAll k m
PrecedesAll-flip j k [] p kj h = tt
PrecedesAll-flip j k ((x, w) ∷ m) p kj (jx, h) =
    (Precedes-trans_flip j k x p kj jx, PrecedesAll-flip j k m p kj h)

insert_entry-PrecedesAll :
    (j k v : Text) (m : NodeAttributes)
    → Precedes j k
    → PrecedesAll j m
    → PrecedesAll j (insert_entry k v m)
unfolding insert_entry
insert_entry-PrecedesAll j k v [] jk h = (jk, tt)
insert_entry-PrecedesAll j k v ((x, w) ∷ m) jk (jx, h) =
    ground (arith, insert_entry-PrecedesAll j k v m jk h)

insert_entry-IsObject :
    (k v : Text) (m : NodeAttributes)
    → text_eq k proto_key ≡ false
    → IsObject m
    → IsObject (insert_entry k v m)
unfolding insert_entry
insert_entry-IsObject k v [] p h = (p, tt, tt)
insert_entry-IsObject k v ((j, w) ∷ m) p (q, all, h) = elim (Bool-cases (text_eq j k)) [
  | inl same ↦ rw same (q, all, h)
  | inr other ↦ elim (Bool-cases (goes_before j k)) [
    | inl before ↦
        rw (other, before)
          (
            q,
            insert_entry-PrecedesAll j k v m (record { differ = other; ordered = before }) all,
            insert_entry-IsObject k v m p h,
          )
    | inr behind ↦
        let kj = Precedes-flip j k other behind in
        rw (other, behind) (p, (kj, PrecedesAll-flip j k m behind kj all), (q, all, h))
  ]
]

-- Assigning to an object gives an object, whatever the key.
pub assign-IsObject : (k v : Text) (m : NodeAttributes) → IsObject m → IsObject (assign k v m)
unfolding assign
assign-IsObject k v m h = ground (arith, insert_entry-IsObject k v m)

pub assign_all-IsObject :
    (entries m : NodeAttributes) → IsObject m → IsObject (assign_all entries m)
unfolding assign_all
assign_all-IsObject [] m h = h
assign_all-IsObject ((k, v) ∷ entries) m h =
    assign_all-IsObject entries (assign k v m) (assign-IsObject k v m h)

insert_entry_last :
    (k v : Text) (m : NodeAttributes)
    → All (λ e. Precedes e.0 k) m
    → insert_entry k v m ≡ m ++ (k, v) ∷ []
unfolding insert_entry
insert_entry_last k v [] h = refl
insert_entry_last k v ((j, w) ∷ m) (jk, h) =
    rw (jk.differ, jk.ordered) (ap (◌∷◌ (j, w)) (insert_entry_last k v m h))

-- A key that follows all the others is appended.
pub assign_last :
    (k v : Text) (m : NodeAttributes)
    → text_eq k proto_key ≡ false
    → All (λ e. Precedes e.0 k) m
    → assign k v m ≡ m ++ (k, v) ∷ []
unfolding assign
assign_last k v m p h = rw p (insert_entry_last k v m h)

-- Each entry of `m` stands before each of `n`.
abbrev pub AllPrecede : NodeAttributes → NodeAttributes → Type 0
AllPrecede m n = All (λ e. PrecedesAll e.0 n) m

AllPrecede-head :
    (m : NodeAttributes) (k v : Text) (n : NodeAttributes)
    → AllPrecede m ((k, v) ∷ n)
    → All (λ e. Precedes e.0 k) m
AllPrecede-head [] k v n h = tt
AllPrecede-head (e ∷ m) k v n (h, hs) = (h.0, AllPrecede-head m k v n hs)

AllPrecede-shift :
    (m : NodeAttributes) (k v : Text) (n : NodeAttributes)
    → AllPrecede m ((k, v) ∷ n)
    → PrecedesAll k n
    → AllPrecede (m ++ (k, v) ∷ []) n
AllPrecede-shift [] k v n h kn = (kn, tt)
AllPrecede-shift (e ∷ m) k v n (h, hs) kn = (h.1, AllPrecede-shift m k v n hs kn)

assign_all-append : (n m : NodeAttributes) → IsObject n → AllPrecede m n → assign_all n m ≡ m ++ n
unfolding assign_all
assign_all-append [] m o h = sym (append-nil m)
assign_all-append ((k, v) ∷ n) m (p, kn, o) h =
    ap (assign_all n) (assign_last k v m p (AllPrecede-head m k v n h))
    ∙ assign_all-append n (m ++ (k, v) ∷ []) o (AllPrecede-shift m k v n h kn)
    ∙ append_assoc m ((k, v) ∷ []) n

-- Copying an object's entries one by one onto an empty object gives the same entries, in order.
pub assign_all-IsObject_self : (m : NodeAttributes) → IsObject m → assign_all m [] ≡ m
assign_all-IsObject_self m o = assign_all-append m [] o tt
