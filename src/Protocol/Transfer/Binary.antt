-- ===== src/Protocol/Transfer/Binary.antt =====
-- Byte contents, written and read.
use wazeko.Prelude.{
  ℕ, suc, ◌+◌, ◌/◌, ◌%◌, ◌^◌, ◌<◌, ◌≡◌, refl, ap, inl, inr, true, false, List, [], ◌∷◌, ◌++◌, arith,
  ltb, if◌then◌else◌, length, At, At-append, Bool-cases,
}
use wazeko.Protocol.Encoder.{write_binary}
use wazeko.Protocol.Decoder.{
  done, at, forward, to_int32, big_endian, read_binary, is_list_tag, is_binary_tag,
}
use wazeko.Protocol.Transfer.{Emits, Emits-push, Emits->>, ReadsTo, read_byte-At, read_bytes-At}

abbrev pub length_bytes : ℕ → List ℕ
length_bytes n =
    if ltb n 256
    then 3 ∷ n ∷ []
    else 4 ∷ (n / 2 ^ 24 % 256) ∷ (n / 2 ^ 16 % 256) ∷ (n / 2 ^ 8 % 256) ∷ (n % 256) ∷ []

-- The bytes of a byte content.
abbrev pub binary_bytes : List ℕ → List ℕ
binary_bytes items = length_bytes (length items) ++ items

pub write_binary-Emits : (items : List ℕ) → Emits (write_binary items) (binary_bytes items)
unfolding write_binary
write_binary-Emits items = elim (Bool-cases (ltb (length items) 256)) [
  | inl small ↦ rw (small, write_binary) (Emits->> _ _ _ _ (Emits-push _) (Emits-push items))
  | inr large ↦ rw (large, write_binary) (Emits->> _ _ _ _ (Emits-push _) (Emits-push items))
]

length_from_four :
    (n : ℕ)
    → n < 2 ^ 31
    → to_int32 (
        big_endian 0 ((n / 2 ^ 24 % 256) ∷ (n / 2 ^ 16 % 256) ∷ (n / 2 ^ 8 % 256) ∷ (n % 256) ∷ []))
      ≡ forward n
unfolding to_int32 big_endian
length_from_four n h = ground arith

read_binary-small :
    (items input ys : List ℕ) (o : ℕ)
    → At input o (3 ∷ length items ∷ items ++ ys)
    → read_binary input o ≡ done (items, at (o + suc (suc (length items))))
unfolding read_binary
read_binary-small items input ys o a =
    let n = length items in
    let a₁ = At-append input (3 ∷ []) (n ∷ items ++ ys) o a in
    rw
      (
        read_byte-At input (n ∷ items ++ ys) o 3 a,
        read_byte-At input (items ++ ys) (o + 1) n a₁,
        read_bytes-At input items ys (o + 1 + 1)
            (At-append input (n ∷ []) (items ++ ys) (o + 1) a₁),
      )
      (ap (λ (p : ℕ). done (items, at p)) (omega arith))

read_binary-large :
    (items input ys four : List ℕ) (o : ℕ)
    → length four ≡ 4
    → to_int32 (big_endian 0 four) ≡ forward (length items)
    → At input o (4 ∷ four ++ (items ++ ys))
    → read_binary input o ≡ done (items, at (o + suc (suc (suc (suc (suc (length items)))))))
unfolding read_binary
read_binary-large items input ys four o four_long spelt a =
    let a₁ = At-append input (4 ∷ []) (four ++ (items ++ ys)) o a in
    let a₂ = At-append input four (items ++ ys) (o + 1) a₁ in
    let taken = rw four_long at (read_bytes-At input four (items ++ ys) (o + 1) a₁) in
    let a₃ = rw four_long at a₂ in
    rw
      (
        read_byte-At input (four ++ (items ++ ys)) o 4 a,
        taken,
        spelt,
        read_bytes-At input items ys (o + 1 + 4) a₃,
      )
      (ap (λ (p : ℕ). done (items, at p)) (omega arith))

pub read_binary-bytes :
    (items : List ℕ) → length items < 2 ^ 31 → ReadsTo read_binary (binary_bytes items) items
read_binary-bytes items h = elim (Bool-cases (ltb (length items) 256)) [
  | inl small ↦ rw small (read_binary-small items)
  | inr large ↦ rw large λ input ys o a.
      read_binary-large items input ys _ o refl (length_from_four (length items) h) a
]

pub is_binary_tag-binary_bytes :
    (items ys : List ℕ)
    → (b : ℕ) × (zs : List ℕ) × (binary_bytes items ++ ys ≡ b ∷ zs)
      × (is_list_tag b ≡ false)
      × (is_binary_tag b ≡ true)
is_binary_tag-binary_bytes items ys = elim (Bool-cases (ltb (length items) 256)) [
  | inl small ↦ rw small (3, length items ∷ items ++ ys, refl, refl, refl)
  | inr large ↦ rw large (4, _, refl, refl, refl)
]
