-- ===== src/Protocol/Decoder.antt =====
-- packages/wazeko-protocol/src/decoder.ts. A decoder's state is its offset, and each read returns
-- the offset that it leaves. The state after an exception is not modelled.
use wazeko.Prelude.{
  ℕ, zero, suc, ◌+◌, ◌-◌, ◌*◌, ◌/◌, ◌%◌, ◌^◌, Bool, ◌||◌, Option, none, some, List, [], ◌∷◌, ltb,
  leb, ◌==◌, if◌then◌else◌, length, take, drop, get_elem?,
}
use wazeko.Text.{Text}
use wazeko.Text.Utf8.{utf8_encode, utf8_decode}
use wazeko.Protocol.Tokens.{get_token}
use wazeko.Protocol.Attributes.{NodeAttributes, assign}
use wazeko.Protocol.Node.{
  ProtocolNode, NodeContent, Nodes, node, undefined, bytes, nodes, nil, cons,
}
use wazeko.Protocol.Encoder.{
  tag_list_empty, tag_list_8, tag_list_16, tag_binary_8, tag_binary_32, tag_string, tag_token,
}

-- `type_error` is that of `tag.toString(16)` where `tag` is undefined.
pub data DecodeError : Type 0 where
  empty_node_list unexpected_eof unexpected_eof_slice type_error : DecodeError
  invalid_list_tag invalid_token_index invalid_string_tag invalid_binary_tag : ℕ → DecodeError

-- `out_of_fuel` is no outcome of the program: there the recursion goes deeper than the fuel.
pub data Read {ℓ} (A : Type ℓ) : Type ℓ where
  done : A → Read A
  failed : DecodeError → Read A
  out_of_fuel : Read A

infixl 5 ◌>>=◌
abbrev pub ◌>>=◌ {ℓ κ} : {A : Type ℓ} {B : Type κ} → Read A → (A → Read B) → Read B
done a >>= f = f a
failed e >>= f = failed e
out_of_fuel >>= f = out_of_fuel

-- An offset. Reading a length with its top bit set can move it below 0; every read from there
-- throws, so that its value does not matter.
pub data Cursor : Type 0 where
  at : ℕ → Cursor
  below_start : Cursor

-- A signed 32-bit length.
pub data Length32 : Type 0 where
  forward : ℕ → Length32
  backward : ℕ → Length32

-- `(b[0] << 24) | (b[1] << 16) | (b[2] << 8) | b[3]`, from its value as an unsigned number.
unfoldable pub to_int32 : ℕ → Length32
to_int32 n = if ltb n (2 ^ 31) then forward n else backward (2 ^ 32 - n)

-- The number that bytes spell, the first the highest. Bytes share no bits, so `|` adds.
unfoldable pub big_endian : ℕ → List ℕ → ℕ
big_endian acc [] = acc
big_endian acc (b ∷ bs) = big_endian (acc * 256 + b) bs

abbrev token_or_fail : ℕ → ℕ → Option Text → Read (Text × ℕ)
token_or_fail index o none = failed (invalid_token_index index)
token_or_fail index o (some token) = done (token, o)

abbrev pub is_list_tag : ℕ → Bool
is_list_tag tag = tag == tag_list_empty || tag == tag_list_8 || tag == tag_list_16

abbrev pub is_binary_tag : ℕ → Bool
is_binary_tag tag = tag == tag_binary_8 || tag == tag_binary_32

module _ (input : List ℕ) where
  unfoldable pub byte_at : ℕ → Read ℕ
  byte_at o = elim (get_elem? input o) [ none ↦ failed unexpected_eof | some b ↦ done b ]

  -- `peekByte`, then `readByte`.
  unfoldable pub peek_byte : ℕ → Read ℕ
  unfolding byte_at
  peek_byte o = byte_at o

  unfoldable pub read_byte : ℕ → Read (ℕ × ℕ)
  unfolding byte_at
  read_byte o = do b ← byte_at o; done (b, o + 1)

  unfoldable pub read_bytes : ℕ → ℕ → Read (List ℕ × ℕ)
  read_bytes len o =
      if ltb (length input) (o + len)
      then failed unexpected_eof_slice
      else done (take len (drop o input), o + len)

  -- The slice for a length of -`back`, and the offset after it. An end below 0 counts from the
  -- end of the data.
  unfoldable pub read_bytes_back : ℕ → ℕ → List ℕ × Cursor
  read_bytes_back back o =
      if leb back o
      then ([], at (o - back))
      else (drop o (take (length input + o - back) input), below_start)

  unfoldable pub read_length : Length32 → ℕ → Read (List ℕ × Cursor)
  unfolding read_bytes read_bytes_back
  read_length (forward len) o = do (b, o') ← read_bytes len o; done (b, at o')
  read_length (backward back) o = done (read_bytes_back back o)

  unfoldable pub list_size_after : ℕ → ℕ → Read (ℕ × ℕ)
  unfolding read_byte read_bytes
  list_size_after tag o =
      if tag == tag_list_empty
      then done (0, o)
      else if tag == tag_list_8
      then read_byte o
      else if tag == tag_list_16
      then (read_bytes 2 o >>= λ (b, o'). done (big_endian 0 b, o'))
      else failed (invalid_list_tag tag)

  unfoldable pub read_list_size : Cursor → Read (ℕ × ℕ)
  unfolding list_size_after
  read_list_size below_start = failed type_error
  read_list_size (at o) = do (tag, o') ← read_byte o; list_size_after tag o'

  unfoldable pub string_after : ℕ → ℕ → Read (Text × ℕ)
  unfolding read_byte read_bytes
  string_after tag o =
      if tag == tag_token
      then (read_byte o >>= λ (index, o'). token_or_fail index o' (get_token index))
      else if tag == tag_string
      then (read_bytes 2 o >>= λ (b, o₁).
          read_bytes (big_endian 0 b) o₁ >>= λ (items, o₂). done (utf8_decode items, o₂))
      else failed (invalid_string_tag tag)

  unfoldable pub read_string : ℕ → Read (Text × ℕ)
  unfolding string_after
  read_string o = do (tag, o') ← read_byte o; string_after tag o'

  unfoldable pub binary_after : ℕ → ℕ → Read (List ℕ × Cursor)
  unfolding read_byte read_bytes read_length
  binary_after tag o =
      if tag == tag_binary_8
      then (read_byte o >>= λ (len, o'). read_length (forward len) o')
      else if tag == tag_binary_32
      then (read_bytes 4 o >>= λ (b, o'). read_length (to_int32 (big_endian 0 b)) o')
      else failed (invalid_binary_tag tag)

  unfoldable pub read_binary : ℕ → Read (List ℕ × Cursor)
  unfolding binary_after
  read_binary o = do (tag, o') ← read_byte o; binary_after tag o'

  unfoldable pub read_attrs : ℕ → NodeAttributes → ℕ → Read (NodeAttributes × ℕ)
  unfolding read_string
  read_attrs zero attributes o = done (attributes, o)
  read_attrs (suc n) attributes o = do
    (key, o₁) ← read_string o
    (value, o₂) ← read_string o₁
    read_attrs n (assign key value attributes) o₂

  -- The loop over the children.
  unfoldable pub read_nodes :
      (Cursor → Read (ProtocolNode × Cursor)) → ℕ → Cursor → Read (Nodes × Cursor)
  read_nodes read zero c = done (nil, c)
  read_nodes read (suc n) c = do
    (child, c₁) ← read c
    (rest, c₂) ← read_nodes read n c₁
    done (cons child rest, c₂)

  module _ (read : Cursor → Read (ProtocolNode × Cursor)) where
    unfoldable pub read_children : ℕ → Read (NodeContent × Cursor)
    unfolding read_list_size read_nodes
    read_children o = do
      (size, o') ← read_list_size (at o)
      (children, c) ← read_nodes read size (at o')
      done (nodes children, c)

    unfoldable pub content_after : ℕ → ℕ → Read (NodeContent × Cursor)
    unfolding read_children read_binary read_string
    content_after tag o =
        if is_list_tag tag
        then read_children o
        else if is_binary_tag tag
        then (read_binary o >>= λ (b, c). done (bytes b, c))
        else (read_string o >>= λ (text, o'). done (bytes (utf8_encode text), at o'))

    unfoldable pub read_content : ℕ → Read (NodeContent × Cursor)
    unfolding peek_byte content_after
    read_content o =
        if leb (length input) o
        then done (undefined, at o)
        else (peek_byte o >>= λ tag. content_after tag o)

    unfoldable pub read_body : ℕ → ℕ → Read (ProtocolNode × Cursor)
    unfolding read_string read_attrs read_content
    read_body size o = read_string o >>= λ (tag, o₁).
        read_attrs ((size - 1) / 2) [] o₁ >>= λ (attributes, o₂).
        if (size - 1) % 2 == 1
        then (read_content o₂ >>= λ (content, c). done (node tag attributes content, c))
        else done (node tag attributes undefined, at o₂)

  -- One unit of fuel for each level of nesting.
  unfoldable pub read_node : ℕ → Cursor → Read (ProtocolNode × Cursor)
  unfolding read_list_size read_body
  read_node zero c = out_of_fuel
  read_node (suc fuel) c = read_list_size c >>= λ (size, o).
      if size == 0 then failed empty_node_list else read_body (read_node fuel) size o

unfoldable pub decode : ℕ → List ℕ → Read ProtocolNode
unfolding read_node
decode fuel input = do (n, c) ← read_node input fuel (at 0); done n
