-- ===== src/Core/Rows.antt =====
-- Calls one after the other that share a state, up to the first that throws.
use wazeko.Prelude.{◌≡◌, ap, List, [], ◌∷◌}
use wazeko.Core.Errors.{Result, ok, threw}

abbrev collected {ℓ} : {B : Type ℓ} → B → Result (List B) → Result (List B)
collected x (ok xs) = ok (x ∷ xs)
collected x (threw e) = threw e

module _ {ℓ κ} {B : Type ℓ} {S : Type κ} where
  abbrev pub collect : B → Result (List B) × S → Result (List B) × S
  collect x (ok xs, c) = (ok (x ∷ xs), c)
  collect x (threw e, c) = (threw e, c)

  collect_ok :
      (x : B) (r : Result (List B) × S) (xs : List B) → r.0 ≡ ok xs → (collect x r).0 ≡ ok (x ∷ xs)
  collect_ok x (ok ys, c) xs e = ap (λ r. collected x r) e
  collect_ok x (threw t, c) xs e = cc

  abbrev pub each_after : Result B → Result (List B) × S → S → Result (List B) × S
  each_after (ok y) r c = collect y r
  each_after (threw e) r c = (threw e, c)

module _ {ℓ κ ι} {A : Type ℓ} {B : Type κ} {S : Type ι} where
  abbrev pub each : (A → S → Result B × S) → List A → S → Result (List B) × S
  each f [] c = (ok [], c)
  each f (x ∷ xs) c = each_after (f x c).0 (each f xs (f x c).1) (f x c).1

  pub each_ok :
      (g : A → S → Result B × S) (x : A) (y : B) (xs : List A) (ys : List B) (c c' : S)
      → g x c ≡ (ok y, c')
      → (each g xs c').0 ≡ ok ys
      → (each g (x ∷ xs) c).0 ≡ ok (y ∷ ys)
  each_ok g x y xs ys c c' e h = rw e (collect_ok y (each g xs c') ys h)
