-- ===== src/Text/Split.antt =====
-- `trim`, `split` and `includes` of strings.
use wazeko.Prelude.{
  ℕ, ◌≡◌, refl, ap, ◌∙◌, Bool, true, false, ◌&&◌, ◌||◌, List, [], ◌∷◌, ◌++◌, arith, leb, ◌==◌,
  if◌then◌else◌, All,
}
use wazeko.Text.{Text}

-- The white space and line ends of ECMAScript.
unfoldable pub is_space : ℕ → Bool
is_space c =
    (leb 0x09 c && leb c 0x0d)
    || c == 0x20
    || c == 0xa0
    || c == 0x1680
    || (leb 0x2000 c && leb c 0x200a)
    || c == 0x2028
    || c == 0x2029
    || c == 0x202f
    || c == 0x205f
    || c == 0x3000
    || c == 0xfeff

unfoldable pub trim_start : Text → Text
trim_start [] = []
trim_start (c ∷ s) = let rest = trim_start s in if is_space c then rest else c ∷ s

abbrev pub is_empty : Text → Bool
is_empty [] = true
is_empty (c ∷ s) = false

unfoldable pub trim_end : Text → Text
trim_end [] = []
trim_end (c ∷ s) = let rest = trim_end s in if is_empty rest && is_space c then [] else c ∷ rest

unfoldable pub trim : Text → Text
unfolding trim_start trim_end
trim s = trim_end (trim_start s)

abbrev add_first : ℕ → List Text → List Text
add_first c [] = []
add_first c (p ∷ ps) = (c ∷ p) ∷ ps

-- `text.split(separator)` for a separator of one character.
unfoldable pub split : ℕ → Text → List Text
split sep [] = [] ∷ []
split sep (c ∷ s) = if c == sep then [] ∷ split sep s else add_first c (split sep s)

abbrev starts_space : Text → Bool
unfolding is_space
starts_space [] = false
starts_space (c ∷ s) = is_space c

-- `text.split(/\s+/)`.
unfoldable pub split_spaces : Text → List Text
unfolding is_space starts_space
split_spaces [] = [] ∷ []
split_spaces (c ∷ s) =
    let rest = split_spaces s in
    if is_space c then if starts_space s then rest else [] ∷ rest else add_first c rest

unfoldable pub includes : ℕ → Text → Bool
includes sep [] = false
includes sep (c ∷ s) = c == sep || includes sep s

abbrev pub Lacks : ℕ → Text → Type 0
Lacks sep s = All (λ c. (c == sep) ≡ false) s

abbrev pub IsSolid : Text → Type 0
IsSolid s = All (λ c. is_space c ≡ false) s

pub split-append : (sep : ℕ) (s t : Text) → Lacks sep s → split sep (s ++ sep ∷ t) ≡ s ∷ split sep t
unfolding split
split-append sep [] t h = ground arith
split-append sep (c ∷ s) t (h, hs) = rw h (ap (add_first c) (split-append sep s t hs))

pub split-lacking : (sep : ℕ) (s : Text) → Lacks sep s → split sep s ≡ s ∷ []
unfolding split
split-lacking sep [] h = refl
split-lacking sep (c ∷ s) (h, hs) = rw h (ap (add_first c) (split-lacking sep s hs))

pub includes-lacking : (sep : ℕ) (s : Text) → Lacks sep s → includes sep s ≡ false
unfolding includes
includes-lacking sep [] h = refl
includes-lacking sep (c ∷ s) (h, hs) = rw h (includes-lacking sep s hs)

pub includes-append : (sep : ℕ) (s t : Text) → includes sep (s ++ sep ∷ t) ≡ true
unfolding includes
includes-append sep [] t = ground arith
includes-append sep (c ∷ s) t = ground (arith, includes-append sep s t)

pub trim_start-solid : (s : Text) → IsSolid s → trim_start s ≡ s
unfolding trim_start
trim_start-solid [] h = refl
trim_start-solid (c ∷ s) (h, hs) = rw h

trim_end-solid : (s : Text) → IsSolid s → trim_end s ≡ s
unfolding trim_end
trim_end-solid [] h = refl
trim_end-solid (c ∷ s) (h, hs) = ground (arith, trim_end-solid s hs)

pub trim-solid : (s : Text) → IsSolid s → trim s ≡ s
unfolding trim
trim-solid s h = ap trim_end (trim_start-solid s h) ∙ trim_end-solid s h
