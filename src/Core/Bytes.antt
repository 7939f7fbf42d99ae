-- ===== src/Core/Bytes.antt =====
-- `Uint8Array`: parts of arrays, arrays of zeros, and numbers written with their highest byte
-- first.
use wazeko.Prelude.{
  ℕ, zero, suc, ◌+◌, ◌-◌, ◌*◌, ◌/◌, ◌%◌, ◌^◌, ◌≤◌, ◌<◌, ◌≡◌, refl, ap, List, [], ◌∷◌, ◌++◌, arith,
  length, length-append, take, drop, take-append, drop-append,
}

module _ {ℓ} {A : Type ℓ} where
  -- `xs.subarray(from, to)` for `from` ≤ `to`.
  abbrev pub subarray : ℕ → ℕ → List A → List A
  subarray from to xs = take (to - from) (drop from xs)

  -- `xs.subarray(0, xs.length - n)` and `xs.subarray(xs.length - n)` for an array of at least `n`.
  abbrev pub all_but_last : ℕ → List A → List A
  all_but_last n xs = take (length xs - n) xs

  abbrev pub last_of : ℕ → List A → List A
  last_of n xs = drop (length xs - n) xs

  pub all_but_last-append :
      (xs ys : List A) (n : ℕ) → length ys ≡ n → all_but_last n (xs ++ ys) ≡ xs
  all_but_last-append xs ys n h =
      let e : length (xs ++ ys) - n ≡ length xs = omega (arith, length-append xs ys) in
      rw e (take-append xs ys)

  pub last_of-append : (xs ys : List A) (n : ℕ) → length ys ≡ n → last_of n (xs ++ ys) ≡ ys
  last_of-append xs ys n h =
      let e : length (xs ++ ys) - n ≡ length xs = omega (arith, length-append xs ys) in
      rw e (drop-append xs ys)

  pub take-drop : (n : ℕ) (xs : List A) → take n xs ++ drop n xs ≡ xs
  take-drop zero xs = refl
  take-drop (suc n) [] = refl
  take-drop (suc n) (x ∷ xs) = ap (◌∷◌ x) (take-drop n xs)

  pub length-drop : (n : ℕ) (xs : List A) → length (drop n xs) ≡ length xs - n
  length-drop zero xs = omega arith
  length-drop (suc n) [] = omega arith
  length-drop (suc n) (x ∷ xs) = omega (arith, length-drop n xs)

  pub length-take : (n : ℕ) (xs : List A) → n ≤ length xs → length (take n xs) ≡ n
  length-take zero xs h = omega arith
  length-take (suc n) [] h = absurd (omega arith)
  length-take (suc n) (x ∷ xs) h = omega (arith, length-take n xs)

  pub length-subarray :
      (from to : ℕ) (xs : List A)
      → from ≤ to
      → to ≤ length xs
      → length (subarray from to xs) ≡ to - from
  length-subarray from to xs h k =
      length-take (to - from) (drop from xs) (omega (arith, length-drop from xs))

-- `new Uint8Array(n)`.
abbrev pub zeros : ℕ → List ℕ
zeros zero = []
zeros (suc n) = 0 ∷ zeros n

pub length-zeros : (n : ℕ) → length (zeros n) ≡ n
length-zeros zero = refl
length-zeros (suc n) = omega (arith, length-zeros n)

-- The `n` lowest bytes of a number.
unfoldable pub low_bytes : ℕ → ℕ → List ℕ
low_bytes zero k = []
low_bytes (suc n) k = low_bytes n (k / 256) ++ k % 256 ∷ []

unfoldable pub from_bytes : List ℕ → ℕ → ℕ
from_bytes [] acc = acc
from_bytes (b ∷ bs) acc = from_bytes bs (acc * 256 + b)

pub length-low_bytes : (n k : ℕ) → length (low_bytes n k) ≡ n
unfolding low_bytes
length-low_bytes zero k = refl
length-low_bytes (suc n) k =
    omega (
      arith,
      length-append {0} (low_bytes n (k / 256)) (k % 256 ∷ []),
      length-low_bytes n (k / 256),
    )

from_bytes-append :
    (bs : List ℕ) (b acc : ℕ) → from_bytes (bs ++ b ∷ []) acc ≡ from_bytes bs acc * 256 + b
unfolding from_bytes
from_bytes-append [] b acc = refl
from_bytes-append (c ∷ bs) b acc = from_bytes-append bs b (acc * 256 + c)

pub from_bytes-low_bytes : (n k : ℕ) → k < 256 ^ n → from_bytes (low_bytes n k) 0 ≡ k
unfolding from_bytes low_bytes
from_bytes-low_bytes zero k h = omega arith
from_bytes-low_bytes (suc n) k h =
    rw
      (
        from_bytes-append (low_bytes n (k / 256)) (k % 256) 0,
        from_bytes-low_bytes n (k / 256) (grind arith),
      )
      (omega arith)
