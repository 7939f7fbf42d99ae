-- ===== src/Protocol/Encoder.antt =====
-- packages/wazeko-protocol/src/encoder.ts. A number in the buffer is a byte.
use wazeko.Prelude.{
  ℕ, ◌+◌, ◌*◌, ◌/◌, ◌%◌, ◌^◌, Option, none, some, List, [], ◌∷◌, ◌++◌, ltb, ◌==◌, if◌then◌else◌,
  length,
}
use wazeko.Text.{Text}
use wazeko.Text.Utf8.{utf8_encode}
use wazeko.Protocol.Tokens.{get_token_index}
use wazeko.Protocol.Attributes.{NodeAttributes}
use wazeko.Protocol.Node.{
  ProtocolNode, NodeContent, Nodes, node, null, undefined, bytes, nodes, nil, cons, count,
}

abbrev pub tag_list_empty : ℕ
tag_list_empty = 0x00

abbrev pub tag_list_8 : ℕ
tag_list_8 = 0x01

abbrev pub tag_list_16 : ℕ
tag_list_16 = 0x02

abbrev pub tag_binary_8 : ℕ
tag_binary_8 = 0x03

abbrev pub tag_binary_32 : ℕ
tag_binary_32 = 0x04

abbrev pub tag_string : ℕ
tag_string = 0x05

abbrev pub tag_token : ℕ
tag_token = 0x06

pub data EncodeError : Type 0 where
  list_size_exceeded : ℕ → EncodeError
  string_length_exceeded : EncodeError

-- What a call leaves in `this.buffer`, by a return or by a throw.
pub data Written : Type 0 where
  wrote : List ℕ → Written
  threw : EncodeError → List ℕ → Written

abbrev pub Writer : Type 0
Writer = List ℕ → Written

infixl 5 ◌>>◌
abbrev pub ◌>>◌ : Writer → Writer → Writer
◌>>◌ p q = λ buffer. elim (p buffer) [ wrote b ↦ q b | threw e b ↦ threw e b ]

abbrev pub skip : Writer
skip buffer = wrote buffer

-- `this.buffer.push(...)`.
abbrev pub push : List ℕ → Writer
push items buffer = wrote (buffer ++ items)

abbrev pub throw : EncodeError → Writer
throw e buffer = threw e buffer

unfoldable pub write_list_header : ℕ → Writer
write_list_header size =
    if size == 0
    then push (tag_list_empty ∷ [])
    else if ltb size 256
    then push (tag_list_8 ∷ size ∷ [])
    else if ltb size 65536
    then push (tag_list_16 ∷ (size / 256 % 256) ∷ (size % 256) ∷ [])
    else throw (list_size_exceeded size)

unfoldable pub write_text_bytes : List ℕ → Writer
write_text_bytes encoded =
    if ltb 65535 (length encoded)
    then throw string_length_exceeded
    else (push (tag_string ∷ (length encoded / 256 % 256) ∷ (length encoded % 256) ∷ [])
        >> push encoded)

-- The index is below 256 for every token of the table; the source tests it all the same.
abbrev pub short_index : Option ℕ → Option ℕ
short_index none = none
short_index (some i) = if ltb i 256 then some i else none

unfoldable pub write_string : Text → Writer
unfolding write_text_bytes
write_string text = elim (short_index (get_token_index text)) [
  | some i ↦ push (tag_token ∷ i ∷ [])
  | none ↦ write_text_bytes (utf8_encode text)
]

unfoldable pub write_binary : List ℕ → Writer
write_binary items =
    let len = length items in
    (if ltb len 256
      then push (tag_binary_8 ∷ len ∷ [])
      else push (
          tag_binary_32
          ∷ (len / 2 ^ 24 % 256)
          ∷ (len / 2 ^ 16 % 256)
          ∷ (len / 2 ^ 8 % 256)
          ∷ (len % 256)
          ∷ []))
    >> push items

unfoldable pub write_attrs : NodeAttributes → Writer
write_attrs [] = skip
write_attrs ((key, value) ∷ entries) = write_string key >> write_string value >> write_attrs entries

-- 1 for content that is neither null nor undefined.
abbrev pub content_items : NodeContent → ℕ
content_items null = 0
content_items undefined = 0
content_items (bytes b) = 1
content_items (nodes ns) = 1

abbrev pub list_size : NodeAttributes → NodeContent → ℕ
list_size attributes content = 1 + length attributes * 2 + content_items content

unfoldable mutual
  pub write_node : ProtocolNode → Writer
  write_node (node tag attributes content) =
      write_list_header (list_size attributes content)
      >> write_string tag
      >> write_attrs attributes
      >> write_content content

  pub write_content : NodeContent → Writer
  write_content null = skip
  write_content undefined = skip
  write_content (bytes b) = write_binary b
  write_content (nodes ns) = write_list_header (count ns) >> write_nodes ns

  pub write_nodes : Nodes → Writer
  write_nodes nil = skip
  write_nodes (cons n ns) = write_node n >> write_nodes ns

pub record BinaryEncoder : Type 0 where
  pub buffer : List ℕ

pub data Encoded : Type 0 where
  encoded : List ℕ → Encoded
  failed : EncodeError → Encoded

-- The buffer that the call leaves behind is what the next one finds.
abbrev pub finish : Written → Encoded × BinaryEncoder
finish (wrote b) = (encoded b, record { buffer = b })
finish (threw e b) = (failed e, record { buffer = b })

unfoldable pub encode : BinaryEncoder → ProtocolNode → Encoded × BinaryEncoder
encode encoder n =
    let emptied = record encoder { buffer = [] } in finish (write_node n emptied.buffer)
