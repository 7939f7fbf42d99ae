-- ===== src/Prelude/Lists.antt =====
-- Lists measured and indexed by native numbers, and predicates over lists.
use Prim.Native.Nat.{ℕ, zero, suc, ◌+◌, ◌≤◌, ◌<◌}
use mathlib.Core.Path.{◌≡◌, refl, ap}
use mathlib.Core.List.{List, [], ◌∷◌, ◌++◌}
use mathlib.Core.Option.{Option, none, some}
use native.Mathlib.Omega.{arith}

module _ {ℓ} {A : Type ℓ} where
  abbrev pub length : List A → ℕ
  length [] = 0
  length (x ∷ xs) = suc (length xs)

  abbrev pub get_elem? : List A → ℕ → Option A
  get_elem? [] i = none
  get_elem? (x ∷ xs) zero = some x
  get_elem? (x ∷ xs) (suc i) = get_elem? xs i

  abbrev pub take : ℕ → List A → List A
  take zero xs = []
  take (suc n) [] = []
  take (suc n) (x ∷ xs) = x ∷ take n xs

  abbrev pub drop : ℕ → List A → List A
  drop zero xs = xs
  drop (suc n) [] = []
  drop (suc n) (x ∷ xs) = drop n xs

  pub get_elem?-lt_length : (xs : List A) (i : ℕ) {x : A} → get_elem? xs i ≡ some x → i < length xs
  get_elem?-lt_length [] i h = cc
  get_elem?-lt_length (x ∷ xs) zero h = omega arith
  get_elem?-lt_length (x ∷ xs) (suc i) h = omega (arith, get_elem?-lt_length xs i h)

  pub length-append : (xs ys : List A) → length (xs ++ ys) ≡ length xs + length ys
  length-append [] ys = omega arith
  length-append (x ∷ xs) ys = omega (arith, length-append xs ys)

module _ {ℓ} {A : Type ℓ} where
  pub take-nil : (n : ℕ) → take n (let xs : List A = [] in xs) ≡ []
  take-nil zero = refl
  take-nil (suc n) = refl

  pub drop-nil : (n : ℕ) → drop n (let xs : List A = [] in xs) ≡ []
  drop-nil zero = refl
  drop-nil (suc n) = refl

  pub nil_of_length : (xs : List A) → length xs ≤ 0 → xs ≡ []
  nil_of_length [] h = refl
  nil_of_length (x ∷ xs) h = absurd (omega arith)

  pub take-append : (xs ys : List A) → take (length xs) (xs ++ ys) ≡ xs
  take-append [] ys = refl
  take-append (x ∷ xs) ys = ap (◌∷◌ x) (take-append xs ys)

  pub drop-append : (xs ys : List A) → drop (length xs) (xs ++ ys) ≡ ys
  drop-append [] ys = refl
  drop-append (x ∷ xs) ys = drop-append xs ys

module _ {ℓ κ} {A : Type ℓ} (P : A → Type κ) where
  abbrev pub All : List A → Type κ
  All [] = Unit {κ}
  All (x ∷ xs) = P x × All xs

  pub All-append : (xs ys : List A) → All xs → All ys → All (xs ++ ys)
  All-append [] ys h k = k
  All-append (x ∷ xs) ys (h, hs) k = (h, All-append xs ys hs k)

  pub All-append_left : (xs ys : List A) → All (xs ++ ys) → All xs
  All-append_left [] ys h = tt
  All-append_left (x ∷ xs) ys (h, hs) = (h, All-append_left xs ys hs)

  pub All-append_right : (xs ys : List A) → All (xs ++ ys) → All ys
  All-append_right [] ys h = h
  All-append_right (x ∷ xs) ys (h, hs) = All-append_right xs ys hs

module _ {ℓ} {A : Type ℓ} where
  -- `xs` from place `o` on is `ys`.
  pub record At (xs : List A) (o : ℕ) (ys : List A) : Type ℓ where
    pub rest : drop o xs ≡ ys
    pub within : o ≤ length xs

  drop-step : (xs ys : List A) (o : ℕ) (y : A) → drop o xs ≡ y ∷ ys → At xs (o + 1) ys
  drop-step [] ys zero y h = cc
  drop-step [] ys (suc o) y h = cc
  drop-step (x ∷ xs) ys zero y h = record { rest = ground arith; within = omega arith }
  drop-step (x ∷ xs) ys (suc o) y h =
      let at = drop-step xs ys o y h in
      let e : suc o + 1 ≡ suc (o + 1) = omega arith in
      record { rest = rw e at.rest; within = omega (arith, at.within) }

  pub At-elem : (xs ys : List A) (o : ℕ) (y : A) → At xs o (y ∷ ys) → get_elem? xs o ≡ some y
  At-elem xs ys o y h = go xs o h.rest
    where
      go : (xs : List A) (o : ℕ) → drop o xs ≡ y ∷ ys → get_elem? xs o ≡ some y
      go [] zero e = cc
      go [] (suc o) e = cc
      go (x ∷ xs) zero e = cc
      go (x ∷ xs) (suc o) e = go xs o e

  pub At-append : (xs ys zs : List A) (o : ℕ) → At xs o (ys ++ zs) → At xs (o + length ys) zs
  At-append xs [] zs o h = let e : o + 0 ≡ o = omega arith in rw e h
  At-append xs (y ∷ ys) zs o h =
      let e : o + suc (length ys) ≡ o + 1 + length ys = omega arith in
      rw e (At-append xs ys zs (o + 1) (drop-step xs (ys ++ zs) o y h.rest))

  pub At-start : (xs : List A) → At xs 0 xs
  At-start xs = record { rest = refl; within = omega arith }
