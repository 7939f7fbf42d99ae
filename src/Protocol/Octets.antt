-- ===== src/Protocol/Octets.antt =====
-- packages/wazeko-protocol/src/encoder.ts: what is in the buffer of an encoder is bytes.
use wazeko.Prelude.{
  ℕ, ◌/◌, ◌%◌, ◌^◌, ◌<◌, ◌≡◌, refl, sym, subst, Option, none, some, List, [], ◌∷◌, All, All-append,
  arith, ltb, ltb→lt, ◌==◌, length, if-cases,
}
use wazeko.Text.{Text}
use wazeko.Text.Utf8.{utf8_encode, encode_char, encode_char-IsByte}
use wazeko.Protocol.Tokens.{get_token_index}
use wazeko.Protocol.Attributes.{NodeAttributes}
use wazeko.Protocol.Node.{
  ProtocolNode, NodeContent, Nodes, node, null, undefined, bytes, nodes, nil, cons, count,
}
use wazeko.Protocol.Encoder.{
  Written, wrote, threw, Writer, ◌>>◌, push, write_list_header, write_text_bytes, write_string,
  short_index, write_binary, write_attrs, write_node, write_content, write_nodes, list_size,
  BinaryEncoder, finish, encode, tag_string, tag_token, tag_binary_8, tag_binary_32,
}

abbrev pub IsByte : ℕ → Type 0
IsByte b = b < 256

-- A text of JavaScript: its code points.
abbrev pub IsText : Text → Type 0
IsText s = All (λ c. c < 0x110000) s

abbrev pub HasTexts : NodeAttributes → Type 0
HasTexts [] = Unit
HasTexts ((key, value) ∷ entries) = IsText key × IsText value × HasTexts entries

-- A node as its type says: its texts are texts and its bytes are bytes, all the way down.
unfoldable mutual
  pub IsTyped : ProtocolNode → Type 0
  IsTyped (node tag attributes content) = IsText tag × HasTexts attributes × IsTypedContent content

  pub IsTypedContent : NodeContent → Type 0
  IsTypedContent null = Unit
  IsTypedContent undefined = Unit
  IsTypedContent (bytes b) = All IsByte b
  IsTypedContent (nodes ns) = AreTyped ns

  pub AreTyped : Nodes → Type 0
  AreTyped nil = Unit
  AreTyped (cons n ns) = IsTyped n × AreTyped ns

-- What is left in the buffer, by a return or by a throw.
abbrev pub left : Written → List ℕ
left (wrote b) = b
left (threw e b) = b

-- A writer that leaves bytes where it finds bytes.
abbrev WritesBytes : Writer → Type 0
WritesBytes w = (buffer : List ℕ) → All IsByte buffer → All IsByte (left (w buffer))

push-WritesBytes : (items : List ℕ) → All IsByte items → WritesBytes (push items)
push-WritesBytes items h buffer k = All-append IsByte buffer items k h

then_left :
    (x : Written) (q : Writer)
    → All IsByte (left x)
    → WritesBytes q
    → All IsByte (left (elim x [ wrote b ↦ q b | threw e b ↦ threw e b ]))
then_left (wrote b) q h k = k b h
then_left (threw e b) q h k = h

then-WritesBytes : (p q : Writer) → WritesBytes p → WritesBytes q → WritesBytes (p >> q)
then-WritesBytes p q h k buffer l = then_left (p buffer) q (h buffer l) k

write_list_header-WritesBytes : (size : ℕ) → WritesBytes (write_list_header size)
unfolding write_list_header
write_list_header-WritesBytes size buffer k =
    if-cases (λ (w : Writer). All IsByte (left (w buffer))) (size == 0) _ _
      (λ _. push-WritesBytes (0 ∷ []) (omega arith, tt) buffer k)
      (λ _.
        if-cases (λ (w : Writer). All IsByte (left (w buffer))) (ltb size 256) _ _
          (λ e. push-WritesBytes (1 ∷ size ∷ []) (omega arith, (ltb→lt size 256 e, tt)) buffer k)
          (λ _.
            if-cases (λ (w : Writer). All IsByte (left (w buffer))) (ltb size 65536) _ _
              (λ _.
                push-WritesBytes (2 ∷ (size / 256 % 256) ∷ (size % 256) ∷ [])
                  (omega arith, (omega arith, (omega arith, tt))) buffer k)
              (λ _. k)))

utf8_encode-IsByte : (s : Text) → IsText s → All IsByte (utf8_encode s)
unfolding utf8_encode
utf8_encode-IsByte [] h = tt
utf8_encode-IsByte (c ∷ s) (h, hs) =
    All-append IsByte (encode_char c) (utf8_encode s) (encode_char-IsByte c h)
      (utf8_encode-IsByte s hs)

write_text_bytes-WritesBytes :
    (items : List ℕ) → All IsByte items → WritesBytes (write_text_bytes items)
unfolding write_text_bytes
write_text_bytes-WritesBytes items h buffer k =
    let n = length items in
    if-cases (λ (w : Writer). All IsByte (left (w buffer))) (ltb 65535 n) _ _ (λ _. k)
      (λ _.
        then-WritesBytes (push (tag_string ∷ (n / 256 % 256) ∷ (n % 256) ∷ [])) (push items)
          (push-WritesBytes _ (omega arith, (omega arith, (omega arith, tt))))
          (push-WritesBytes items h) buffer k)

short_index-lt : (o : Option ℕ) (i : ℕ) → short_index o ≡ some i → i < 256
short_index-lt none i e = cc
short_index-lt (some j) i e = ground arith

write_string-WritesBytes : (s : Text) → IsText s → WritesBytes (write_string s)
unfolding write_string
write_string-WritesBytes s h = go (short_index (get_token_index s)) refl
  where
    go :
        (o : Option ℕ)
        → short_index (get_token_index s) ≡ o
        → WritesBytes (elim o [
          | some i ↦ push (tag_token ∷ i ∷ [])
          | none ↦ write_text_bytes (utf8_encode s)
        ])
    go none e = write_text_bytes-WritesBytes (utf8_encode s) (utf8_encode-IsByte s h)
    go (some i) e =
        push-WritesBytes (tag_token ∷ i ∷ [])
          (omega arith, (short_index-lt (get_token_index s) i e, tt))

write_binary-WritesBytes : (items : List ℕ) → All IsByte items → WritesBytes (write_binary items)
unfolding write_binary
write_binary-WritesBytes items h buffer k =
    let n = length items in
    if-cases (λ (w : Writer). All IsByte (left ((w >> push items) buffer))) (ltb n 256) _ _
      (λ e.
        then-WritesBytes (push (tag_binary_8 ∷ n ∷ [])) (push items)
          (push-WritesBytes _ (omega arith, (ltb→lt n 256 e, tt))) (push-WritesBytes items h) buffer
          k)
      (λ _.
        then-WritesBytes
          (push (
            tag_binary_32
            ∷ (n / 2 ^ 24 % 256)
            ∷ (n / 2 ^ 16 % 256)
            ∷ (n / 2 ^ 8 % 256)
            ∷ (n % 256)
            ∷ []))
          (push items)
          (push-WritesBytes _
            (omega arith, (omega arith, (omega arith, (omega arith, (omega arith, tt))))))
          (push-WritesBytes items h) buffer k)

write_attrs-WritesBytes : (as' : NodeAttributes) → HasTexts as' → WritesBytes (write_attrs as')
unfolding write_attrs
write_attrs-WritesBytes [] h = λ buffer k. k
write_attrs-WritesBytes ((key, value) ∷ entries) (h, i, hs) =
    then-WritesBytes (write_string key >> write_string value) (write_attrs entries)
      (then-WritesBytes (write_string key) (write_string value) (write_string-WritesBytes key h)
        (write_string-WritesBytes value i))
      (write_attrs-WritesBytes entries hs)

mutual
  unfolding write_node write_content write_nodes IsTyped IsTypedContent AreTyped

  write_node-WritesBytes : (n : ProtocolNode) → IsTyped n → WritesBytes (write_node n)
  write_node-WritesBytes (node tag attributes content) (h, i, j) =
      let header = write_list_header (list_size attributes content) in
      let start = header >> write_string tag in
      then-WritesBytes (start >> write_attrs attributes) (write_content content)
        (then-WritesBytes start (write_attrs attributes)
          (then-WritesBytes header (write_string tag)
            (write_list_header-WritesBytes (list_size attributes content))
            (write_string-WritesBytes tag h))
          (write_attrs-WritesBytes attributes i))
        (write_content-WritesBytes content j)

  write_content-WritesBytes :
      (content : NodeContent) → IsTypedContent content → WritesBytes (write_content content)
  write_content-WritesBytes null h = λ buffer k. k
  write_content-WritesBytes undefined h = λ buffer k. k
  write_content-WritesBytes (bytes b) h = write_binary-WritesBytes b h
  write_content-WritesBytes (nodes ns) h =
      then-WritesBytes (write_list_header (count ns)) (write_nodes ns)
        (write_list_header-WritesBytes (count ns)) (write_nodes-WritesBytes ns h)

  write_nodes-WritesBytes : (ns : Nodes) → AreTyped ns → WritesBytes (write_nodes ns)
  write_nodes-WritesBytes nil h = λ buffer k. k
  write_nodes-WritesBytes (cons n ns) (h, hs) =
      then-WritesBytes (write_node n) (write_nodes ns) (write_node-WritesBytes n h)
        (write_nodes-WritesBytes ns hs)

finish-left : (x : Written) → (finish x).1.buffer ≡ left x
finish-left (wrote b) = refl
finish-left (threw e b) = refl

-- For a node whose texts are texts and whose bytes are bytes, every number that `encode` leaves in
-- the buffer is a byte, whether it returns or throws.
pub encode-IsByte :
    (encoder : BinaryEncoder) (n : ProtocolNode)
    → IsTyped n
    → All IsByte (encode encoder n).1.buffer
unfolding encode
encode-IsByte encoder n h =
    subst (λ (b : List ℕ). All IsByte b) (sym (finish-left (write_node n [])))
      (write_node-WritesBytes n h [] tt)
