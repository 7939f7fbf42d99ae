-- ===== src/Protocol/Transfer/Header.antt =====
-- List headers, written and read.
use wazeko.Prelude.{
  ℕ, ◌+◌, ◌*◌, ◌/◌, ◌%◌, ◌<◌, ◌≡◌, ap, refl, inl, inr, true, List, [], ◌∷◌, ◌++◌, arith, ltb, ◌==◌,
  if◌then◌else◌, At, At-append, Bool-cases,
}
use wazeko.Protocol.Encoder.{write_list_header}
use wazeko.Protocol.Decoder.{done, at, read_list_size, is_list_tag}
use wazeko.Protocol.Transfer.{big_endian_two, Emits, Reads, read_byte-At, read_bytes-At}

-- The bytes of a list header.
abbrev pub header_bytes : ℕ → List ℕ
header_bytes n =
    if n == 0
    then 0 ∷ []
    else if ltb n 256
    then 1 ∷ n ∷ []
    else 2 ∷ (n / 256 % 256) ∷ (n % 256) ∷ []

pub write_list_header-Emits : (n : ℕ) → n < 65536 → Emits (write_list_header n) (header_bytes n)
unfolding write_list_header
write_list_header-Emits n h buffer = ground arith

read_size_0 :
    (input ys : List ℕ) (o : ℕ)
    → At input o (0 ∷ ys)
    → read_list_size input (at o) ≡ done (0, o + 1)
unfolding read_list_size
read_size_0 input ys o h = rw (read_byte-At input ys o 0 h)

read_size_8 :
    (input ys : List ℕ) (o n : ℕ)
    → At input o (1 ∷ n ∷ ys)
    → read_list_size input (at o) ≡ done (n, o + 1 + 1)
unfolding read_list_size
read_size_8 input ys o n h =
    rw (read_byte-At input (n ∷ ys) o 1 h)
      (read_byte-At input ys (o + 1) n (At-append input (1 ∷ []) (n ∷ ys) o h))

read_size_16 :
    (input ys : List ℕ) (o a b : ℕ)
    → At input o (2 ∷ a ∷ b ∷ ys)
    → read_list_size input (at o) ≡ done (a * 256 + b, o + 1 + 2)
unfolding read_list_size
read_size_16 input ys o a b h =
    rw
      (
        read_byte-At input (a ∷ b ∷ ys) o 2 h,
        read_bytes-At input (a ∷ b ∷ []) ys (o + 1) (At-append input (2 ∷ []) (a ∷ b ∷ ys) o h),
      )
      (ap (λ (p : ℕ). done (p, o + 1 + 2)) (big_endian_two a b))

pub read_list_size-header :
    (n : ℕ) → n < 65536 → Reads (λ input o. read_list_size input (at o)) (header_bytes n) n
read_list_size-header n h input ys o a = elim (Bool-cases (n == 0)) [
  | inl none_left ↦ ground (arith, read_size_0 input ys o)
  | inr more ↦ elim (Bool-cases (ltb n 256)) [
    | inl small ↦ ground (arith, read_size_8 input ys o n)
    | inr large ↦ ground (arith, read_size_16 input ys o (n / 256 % 256) (n % 256))
  ]
]

pub is_list_tag-header :
    (n : ℕ) (ys : List ℕ)
    → (b : ℕ) × (zs : List ℕ) × (header_bytes n ++ ys ≡ b ∷ zs) × (is_list_tag b ≡ true)
is_list_tag-header n ys = elim (Bool-cases (n == 0)) [
  | inl none_left ↦ rw none_left (0, ys, refl, refl)
  | inr more ↦ elim (Bool-cases (ltb n 256)) [
    | inl small ↦ rw (more, small) (1, n ∷ ys, refl, refl)
    | inr large ↦ rw (more, large) (2, (n / 256 % 256) ∷ (n % 256) ∷ ys, refl, refl)
  ]
]
