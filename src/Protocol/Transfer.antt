-- ===== src/Protocol/Transfer.antt =====
-- What one call of the encoder writes, the decoder's counterpart reads: `Transfers`, and the
-- parts of a node.
pub mod Header
pub mod Strings
pub mod Binary
pub mod Nodes
use wazeko.Prelude.{
  ℕ, zero, suc, ◌+◌, ◌*◌, ◌/◌, ◌%◌, ◌^◌, ◌≤◌, ◌<◌, ◌≡◌, refl, sym, ap, ◌∙◌, ◌⊎◌, inl, inr, Bool,
  true, false, Option, none, some, List, [], ◌∷◌, ◌++◌, append_assoc, append-nil, arith, ltb, leb,
  ◌==◌, if◌then◌else◌, length, length-append, take, drop, take-append, At, At-elem, At-append, All,
  Option-cases, Bool-cases,
}
use wazeko.Text.{Text}
use wazeko.Text.Utf8.{utf8_encode, utf8_decode, IsScalar, StartsPlain, utf8_decode-encode}
use wazeko.Protocol.Tokens.{get_token, get_token_index, get_token-get_token_index}
use wazeko.Protocol.Attributes.{NodeAttributes, assign, assign_all}
use wazeko.Protocol.Encoder.{
  Writer, wrote, threw, push, skip, ◌>>◌, short_index, write_list_header, write_text_bytes,
  write_string, write_binary, write_attrs,
}
use wazeko.Protocol.Decoder.{
  peek_byte, Read, Cursor, at, done, ◌>>=◌, Cursor, at, forward, to_int32, big_endian, byte_at,
  read_byte, read_bytes, read_length, read_list_size, list_size_after, read_string, string_after,
  read_binary, binary_after, read_attrs, is_list_tag, is_binary_tag,
}

-- The writer appends `out` to the buffer, and does not throw.
abbrev pub Emits : Writer → List ℕ → Type 0
Emits p out = (buffer : List ℕ) → p buffer ≡ wrote (buffer ++ out)

pub Emits-push : (items : List ℕ) → Emits (push items) items
Emits-push items buffer = refl

pub Emits-skip : Emits skip []
Emits-skip buffer = ap wrote (sym (append-nil buffer))

pub Emits->> : (p q : Writer) (a b : List ℕ) → Emits p a → Emits q b → Emits (p >> q) (a ++ b)
Emits->> p q a b hp hq buffer =
    rw (hp buffer, ◌>>◌) (hq (buffer ++ a) ∙ ap wrote (append_assoc buffer a b))

-- At any place of any input where `out` stands, `read` returns `a` and moves past `out`.
abbrev pub Reads {ℓ} : {A : Type ℓ} → (List ℕ → ℕ → Read (A × ℕ)) → List ℕ → A → Type ℓ
Reads read out a =
    (input ys : List ℕ) (o : ℕ) → At input o (out ++ ys) → read input o ≡ done (a, o + length out)

-- The same for a read whose end is a cursor.
abbrev pub ReadsTo {ℓ} : {A : Type ℓ} → (List ℕ → ℕ → Read (A × Cursor)) → List ℕ → A → Type ℓ
ReadsTo read out a =
    (input ys : List ℕ) (o : ℕ)
    → At input o (out ++ ys)
    → read input o ≡ done (a, at (o + length out))

pub read_byte-At :
    (input ys : List ℕ) (o b : ℕ) → At input o (b ∷ ys) → read_byte input o ≡ done (b, o + 1)
unfolding read_byte
read_byte-At input ys o b h = ground (arith, At-elem input ys o b h)

pub peek_byte-At : (input ys : List ℕ) (o b : ℕ) → At input o (b ∷ ys) → peek_byte input o ≡ done b
unfolding peek_byte
peek_byte-At input ys o b h = ground (arith, At-elem input ys o b h)

pub read_bytes-At :
    (input xs ys : List ℕ) (o : ℕ)
    → At input o (xs ++ ys)
    → read_bytes input (length xs) o ≡ done (xs, o + length xs)
unfolding read_bytes
read_bytes-At input xs ys o h =
    let fits : ltb (length input) (o + length xs) ≡ false =
      (let w = (At-append input xs ys o h).within in ground arith) in
    rw (fits, h.rest, take-append xs ys)

pub big_endian_two : (a b : ℕ) → big_endian 0 (a ∷ b ∷ []) ≡ a * 256 + b
unfolding big_endian
big_endian_two a b = omega arith

pub length_from_two : (n : ℕ) → n ≤ 65535 → big_endian 0 ((n / 256 % 256) ∷ (n % 256) ∷ []) ≡ n
length_from_two n h = big_endian_two _ _ ∙ omega arith
