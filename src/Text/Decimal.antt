-- ===== src/Text/Decimal.antt =====
-- Decimal numbers in texts: `${n}` and `parseInt(text, 10)`. Numbers are exact; above 2 ^ 53 the
-- program's are rounded.
use wazeko.Prelude.{
  ℕ, zero, suc, ◌+◌, ◌-◌, ◌*◌, ◌/◌, ◌%◌, ◌<◌, ◌⊎◌, ◌≢◌, ◌≡◌, refl, sym, ap, ◌∙◌, inl, inr,
  Bool-cases, Bool, true, false, ◌&&◌, Option, none, some, [], ◌∷◌, ◌++◌, arith, ltb, leb, ◌==◌,
  if◌then◌else◌, All, All-append,
}
use wazeko.Text.{Text}
use wazeko.Text.Split.{Lacks, IsSolid, trim_start, is_space, trim_start-solid}

-- `negsuc n` is -(n + 1).
pub data ℤ : Type 0 where
  pos : ℕ → ℤ
  negsuc : ℕ → ℤ

abbrev pub is_digit : ℕ → Bool
is_digit c = leb b'0' c && leb c b'9'

digits : ℕ → ℕ → Text
digits zero n = []
digits (suc fuel) n =
    let front = digits fuel (n / 10) in
    if ltb n 10 then (b'0' + n) ∷ [] else front ++ (b'0' + n % 10) ∷ []

-- A number has fewer digits than `suc n`.
unfoldable pub decimal : ℕ → Text
unfolding digits
decimal n = digits (suc n) n

-- `${z}`.
unfoldable pub show_int : ℤ → Text
unfolding decimal
show_int (pos n) = decimal n
show_int (negsuc n) = b'-' ∷ decimal (n + 1)

digit_prefix : Text → Text
digit_prefix [] = []
digit_prefix (c ∷ s) = let rest = digit_prefix s in if is_digit c then c ∷ rest else []

value_from : ℕ → Text → ℕ
value_from acc [] = acc
value_from acc (c ∷ s) = value_from (acc * 10 + (c - b'0')) s

value_of : Text → Option ℕ
unfolding value_from
value_of [] = none
value_of (c ∷ s) = some (value_from 0 (c ∷ s))

abbrev negate : ℕ → ℤ
negate zero = pos 0
negate (suc n) = negsuc n

abbrev with_sign : (ℕ → ℤ) → Option ℕ → Option ℤ
with_sign sign none = none
with_sign sign (some n) = some (sign n)

signed : Text → Option ℤ
unfolding digit_prefix value_of
signed [] = none
signed (c ∷ s) =
    if c == b'-'
    then with_sign negate (value_of (digit_prefix s))
    else if c == b'+'
    then with_sign pos (value_of (digit_prefix s))
    else with_sign pos (value_of (digit_prefix (c ∷ s)))

-- `parseInt(text, 10)`, `none` for NaN. A -0 reads as 0.
unfoldable pub parse_int : Text → Option ℤ
unfolding signed trim_start
parse_int s = signed (trim_start s)

abbrev IsDigit : ℕ → Type 0
IsDigit c = is_digit c ≡ true

digits-IsDigit : (fuel n : ℕ) → All IsDigit (digits fuel n)
unfolding digits
digits-IsDigit zero n = tt
digits-IsDigit (suc fuel) n = elim (Bool-cases (ltb n 10)) [
  | inl small ↦ rw small (ground arith, tt)
  | inr large ↦ rw large (All-append IsDigit _ _ (digits-IsDigit fuel (n / 10)) (ground arith, tt))
]

decimal-IsDigit : (n : ℕ) → All IsDigit (decimal n)
unfolding decimal
decimal-IsDigit n = digits-IsDigit (suc n) n

digit_prefix-digits : (s : Text) → All IsDigit s → digit_prefix s ≡ s
unfolding digit_prefix
digit_prefix-digits [] h = refl
digit_prefix-digits (c ∷ s) (h, hs) = rw h (ap (◌∷◌ c) (digit_prefix-digits s hs))

value_from-append :
    (acc : ℕ) (s : Text) (c : ℕ) → value_from acc (s ++ c ∷ []) ≡ value_from acc s * 10 + (c - b'0')
unfolding value_from
value_from-append acc [] c = refl
value_from-append acc (d ∷ s) c = value_from-append (acc * 10 + (d - b'0')) s c

value_from-digits : (fuel n : ℕ) → n < fuel → value_from 0 (digits fuel n) ≡ n
unfolding digits
value_from-digits zero n h = absurd (omega arith)
value_from-digits (suc fuel) n h = elim (Bool-cases (ltb n 10)) [
  | inl small ↦ rw small (unfold value_from in omega arith)
  | inr large ↦
      rw (large, value_from-append)
        (rw (value_from-digits fuel (n / 10) (ground arith)) (omega arith))
]

append_cons : (s : Text) (d : ℕ) → (c : ℕ) × (t : Text) × (s ++ d ∷ [] ≡ c ∷ t)
append_cons [] d = (d, [], refl)
append_cons (c ∷ s) d = (c, s ++ d ∷ [], refl)

digits-cons : (fuel n : ℕ) → (c : ℕ) × (t : Text) × (digits (suc fuel) n ≡ c ∷ t)
unfolding digits
digits-cons fuel n = elim (Bool-cases (ltb n 10)) [
  | inl small ↦ rw small (b'0' + n, [], refl)
  | inr large ↦ rw large (append_cons (digits fuel (n / 10)) (b'0' + n % 10))
]

decimal-cons : (n : ℕ) → (c : ℕ) × (t : Text) × (decimal n ≡ c ∷ t)
unfolding decimal
decimal-cons n = digits-cons n n

value_of-cons : (c : ℕ) (t s : Text) → s ≡ c ∷ t → value_of s ≡ some (value_from 0 s)
unfolding value_of
value_of-cons c t s e = rw e

value_of-digit_prefix-decimal : (n : ℕ) → value_of (digit_prefix (decimal n)) ≡ some n
unfolding decimal
value_of-digit_prefix-decimal n =
    let (c, t, e) = digits-cons n n in
    rw (digit_prefix-digits (digits (suc n) n) (digits-IsDigit (suc n) n))
      (value_of-cons c t _ e ∙ ap some (value_from-digits (suc n) n (omega arith)))

signed-digits :
    (c : ℕ) (t : Text)
    → is_digit c ≡ true
    → signed (c ∷ t) ≡ with_sign pos (value_of (digit_prefix (c ∷ t)))
unfolding signed
signed-digits c t h =
    let no_minus : (c == b'-') ≡ false = ground arith in
    let no_plus : (c == b'+') ≡ false = ground arith in rw (no_minus, no_plus)

signed-decimal : (n : ℕ) → signed (decimal n) ≡ some (pos n)
signed-decimal n =
    let (c, t, e') = decimal-cons n in
    let h : All IsDigit (c ∷ t) = rw e' at (decimal-IsDigit n) in
    ap signed e'
    ∙ signed-digits c t h.0
    ∙ ap (λ (s : Text). with_sign pos (value_of (digit_prefix s))) (sym e')
    ∙ ap (with_sign pos) (value_of-digit_prefix-decimal n)

signed-show_int : (z : ℤ) → signed (show_int z) ≡ some z
unfolding show_int
signed-show_int (pos n) = signed-decimal n
signed-show_int (negsuc n) =
    unfold signed in ap (with_sign negate) (value_of-digit_prefix-decimal (n + 1)) ∙ ground arith

-- What a numeral is made of.
abbrev pub IsNumeral : ℕ → Type 0
IsNumeral c = (is_digit c ≡ true) ⊎ (c ≡ b'-')

All-weaken : (s : Text) → All IsDigit s → All IsNumeral s
All-weaken [] h = tt
All-weaken (c ∷ s) (h, hs) = (inl h, All-weaken s hs)

pub show_int-IsNumeral : (z : ℤ) → All IsNumeral (show_int z)
unfolding show_int
show_int-IsNumeral (pos n) = All-weaken _ (decimal-IsDigit n)
show_int-IsNumeral (negsuc n) = (inr refl, All-weaken _ (decimal-IsDigit (n + 1)))

IsSolid-numeral : (s : Text) → All IsNumeral s → IsSolid s
unfolding is_space
IsSolid-numeral [] h = tt
IsSolid-numeral (c ∷ s) (inl h, hs) = (ground arith, IsSolid-numeral s hs)
IsSolid-numeral (c ∷ s) (inr h, hs) = (ground arith, IsSolid-numeral s hs)

pub show_int-IsSolid : (z : ℤ) → IsSolid (show_int z)
show_int-IsSolid z = IsSolid-numeral _ (show_int-IsNumeral z)

pub Lacks-numeral :
    (sep : ℕ) (s : Text) → is_digit sep ≡ false → sep ≢ b'-' → All IsNumeral s → Lacks sep s
Lacks-numeral sep [] d m h = tt
Lacks-numeral sep (c ∷ s) d m (inl h, hs) = (ground arith, Lacks-numeral sep s d m hs)
Lacks-numeral sep (c ∷ s) d m (inr h, hs) = (ground arith, Lacks-numeral sep s d m hs)

-- A printed integer reads back.
pub parse_int-show_int : (z : ℤ) → parse_int (show_int z) ≡ some z
unfolding parse_int
parse_int-show_int z =
    ap signed (trim_start-solid (show_int z) (show_int-IsSolid z)) ∙ signed-show_int z
