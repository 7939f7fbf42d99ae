-- ===== src/Protocol/Transfer/Strings.antt =====
-- Texts, written as tokens or as UTF-8, and read.
use wazeko.Prelude.{
  ℕ, ◌+◌, ◌/◌, ◌%◌, ◌≤◌, ◌≡◌, ap, ◌∙◌, inl, inr, false, Option, none, some, List, [], ◌∷◌, ◌++◌,
  append_assoc, arith, ltb, length, At-append, All, Option-cases,
}
use wazeko.Text.{Text}
use wazeko.Text.Utf8.{utf8_encode, utf8_decode, IsScalar, StartsPlain, utf8_decode-encode}
use wazeko.Protocol.Tokens.{get_token, get_token_index, get_token-get_token_index}
use wazeko.Protocol.Encoder.{wrote, short_index, write_text_bytes, write_string}
use wazeko.Protocol.Decoder.{done, read_string}
use wazeko.Protocol.Transfer.{Emits, Reads, read_byte-At, read_bytes-At, length_from_two}

-- The bytes of a text that is no token.
abbrev pub string_bytes : List ℕ → List ℕ
string_bytes items = 5 ∷ (length items / 256 % 256) ∷ (length items % 256) ∷ items

write_text_bytes-Emits :
    (items : List ℕ) → length items ≤ 65535 → Emits (write_text_bytes items) (string_bytes items)
unfolding write_text_bytes
write_text_bytes-Emits items h buffer =
    let fits : ltb 65535 (length items) ≡ false = ground arith in
    rw fits (ap wrote (append_assoc buffer _ items))

read_string-bytes :
    (items : List ℕ)
    → length items ≤ 65535
    → Reads read_string (string_bytes items) (utf8_decode items)
unfolding read_string
read_string-bytes items h input ys o a =
    let hi = length items / 256 % 256 in
    let lo = length items % 256 in
    let a₁ = At-append input (5 ∷ []) (hi ∷ lo ∷ items ++ ys) o a in
    let a₂ = At-append input (hi ∷ lo ∷ []) (items ++ ys) (o + 1) a₁ in
    rw
      (
        read_byte-At input (hi ∷ lo ∷ items ++ ys) o 5 a,
        read_bytes-At input (hi ∷ lo ∷ []) (items ++ ys) (o + 1) a₁,
        length_from_two (length items) h,
        read_bytes-At input items ys (o + 1 + 2) a₂,
      )
      (ap (λ (p : ℕ). done (utf8_decode items, p)) (omega arith))

read_string-token : (t : Text) (i : ℕ) → get_token i ≡ some t → Reads read_string (6 ∷ i ∷ []) t
unfolding read_string
read_string-token t i e input ys o a =
    rw
      (
        read_byte-At input (i ∷ ys) o 6 a,
        read_byte-At input ys (o + 1) i (At-append input (6 ∷ []) (i ∷ ys) o a),
        e,
      )
      (ap (λ (p : ℕ). done (t, p)) (omega arith))

-- A text that the encoder can write and that survives the way back.
pub record IsPortable (t : Text) : Type 0 where
  pub scalars : All IsScalar t
  pub plain : StartsPlain t
  pub short : length (utf8_encode t) ≤ 65535

abbrev string_out : Option ℕ → Text → List ℕ
string_out (some i) t = 6 ∷ i ∷ []
string_out none t = string_bytes (utf8_encode t)

abbrev pub text_bytes : Text → List ℕ
text_bytes t = string_out (short_index (get_token_index t)) t

pub write_string-Emits : (t : Text) → IsPortable t → Emits (write_string t) (text_bytes t)
unfolding write_string
write_string-Emits t p buffer = elim (Option-cases (short_index (get_token_index t))) [
  | inl e ↦ rw (e, write_string) (write_text_bytes-Emits (utf8_encode t) p.short buffer)
  | inr (i, e) ↦ rw (e, write_string)
]

pub read_string-text : (t : Text) → IsPortable t → Reads read_string (text_bytes t) t
read_string-text t p = elim (Option-cases (short_index (get_token_index t))) [
  | inl e ↦ rw e λ input ys o a.
      read_string-bytes (utf8_encode t) p.short input ys o a
      ∙ ap (λ (u : Text). done (u, o + length (string_bytes (utf8_encode t))))
          (utf8_decode-encode t p.scalars p.plain)
  | inr (i, e) ↦ rw e (read_string-token t i (get_token-get_token_index t i (ground arith)))
]
