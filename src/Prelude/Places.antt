-- ===== src/Prelude/Places.antt =====
-- A list changed at one of its places, and the sum of a measure over a list.
use Prim.Native.Nat.{ℕ, zero, suc, ◌+◌}
use mathlib.Core.Path.{◌≡◌, ap, subst}
use mathlib.Core.List.{List, [], ◌∷◌, ◌++◌}
use mathlib.Core.Option.{some, some-injective}
use native.Mathlib.Omega.{arith}
use wazeko.Prelude.Lists.{length, get_elem?, All}

module _ {ℓ} {A : Type ℓ} where
  abbrev pub remove_at : ℕ → List A → List A
  remove_at i [] = []
  remove_at zero (x ∷ xs) = xs
  remove_at (suc i) (x ∷ xs) = x ∷ remove_at i xs

  abbrev pub set_at : ℕ → A → List A → List A
  set_at i a [] = []
  set_at zero a (x ∷ xs) = a ∷ xs
  set_at (suc i) a (x ∷ xs) = x ∷ set_at i a xs

  abbrev pub total : (A → ℕ) → List A → ℕ
  total f [] = 0
  total f (x ∷ xs) = f x + total f xs

  pub length-set_at : (i : ℕ) (a : A) (xs : List A) → length (set_at i a xs) ≡ length xs
  length-set_at i a [] = omega arith
  length-set_at zero a (x ∷ xs) = omega arith
  length-set_at (suc i) a (x ∷ xs) = omega (arith, length-set_at i a xs)

  pub length-remove_at :
      (i : ℕ) (xs : List A) {x : A}
      → get_elem? xs i ≡ some x
      → length (remove_at i xs) + 1 ≡ length xs
  length-remove_at i [] h = cc
  length-remove_at zero (y ∷ xs) h = omega arith
  length-remove_at (suc i) (y ∷ xs) h = omega (arith, length-remove_at i xs h)

  pub total-append : (f : A → ℕ) (xs ys : List A) → total f (xs ++ ys) ≡ total f xs + total f ys
  total-append f [] ys = omega arith
  total-append f (x ∷ xs) ys = omega (arith, total-append f xs ys)

  pub total-set_at :
      (f : A → ℕ) (i : ℕ) (a : A) (xs : List A) {x : A}
      → get_elem? xs i ≡ some x
      → total f (set_at i a xs) + f x ≡ total f xs + f a
  total-set_at f i a [] h = cc
  total-set_at f zero a (y ∷ xs) {x = x} h =
      let e : f y ≡ f x = ap f (some-injective y x h) in omega arith
  total-set_at f (suc i) a (y ∷ xs) h = omega (arith, total-set_at f i a xs h)

  pub total-remove_at :
      (f : A → ℕ) (i : ℕ) (xs : List A) {x : A}
      → get_elem? xs i ≡ some x
      → total f (remove_at i xs) + f x ≡ total f xs
  total-remove_at f i [] h = cc
  total-remove_at f zero (y ∷ xs) {x = x} h =
      let e : f y ≡ f x = ap f (some-injective y x h) in omega arith
  total-remove_at f (suc i) (y ∷ xs) h = omega (arith, total-remove_at f i xs h)

module _ {ℓ κ} {A : Type ℓ} (P : A → Type κ) where
  pub All-set_at : (i : ℕ) (a : A) (xs : List A) → P a → All P xs → All P (set_at i a xs)
  All-set_at i a [] h k = tt
  All-set_at zero a (x ∷ xs) h (k, ks) = (h, ks)
  All-set_at (suc i) a (x ∷ xs) h (k, ks) = (k, All-set_at i a xs h ks)

  pub All-remove_at : (i : ℕ) (xs : List A) → All P xs → All P (remove_at i xs)
  All-remove_at i [] k = tt
  All-remove_at zero (x ∷ xs) (k, ks) = ks
  All-remove_at (suc i) (x ∷ xs) (k, ks) = (k, All-remove_at i xs ks)

  pub All-get_elem? : (i : ℕ) (xs : List A) {x : A} → get_elem? xs i ≡ some x → All P xs → P x
  All-get_elem? i [] h k = cc
  All-get_elem? zero (y ∷ xs) h (k, ks) = subst P (some-injective y _ h) k
  All-get_elem? (suc i) (y ∷ xs) h (k, ks) = All-get_elem? i xs h ks
