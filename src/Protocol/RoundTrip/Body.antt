-- ===== src/Protocol/RoundTrip/Body.antt =====
-- packages/wazeko-protocol/src/decoder.ts, `readNode`: the parts of a node are read back.
use wazeko.Prelude.{
  ℕ, suc, ◌⊎◌, inl, inr, if◌then◌else◌, ◌+◌, ◌/◌, ◌-◌, ◌%◌, ◌<◌, ◌≡◌, refl, ap, ◌∙◌, false, List,
  [], ◌∷◌, ◌++◌, append_assoc, arith, ◌==◌, length, length-append, At, At-append,
}
use wazeko.Text.{Text}
use wazeko.Protocol.Attributes.{
  NodeAttributes, assign, assign_all, IsObject, assign_all-IsObject_self,
}
use wazeko.Protocol.Node.{ProtocolNode, NodeContent, node, null, undefined, bytes, nodes}
use wazeko.Protocol.Encoder.{content_items, list_size}
use wazeko.Protocol.Decoder.{
  done, ◌>>=◌, Cursor, at, read_list_size, read_attrs, read_content, read_body, read_node,
}
use wazeko.Protocol.Transfer.{Reads, ReadsTo}
use wazeko.Protocol.Transfer.Header.{header_bytes, read_list_size-header}
use wazeko.Protocol.Transfer.Strings.{IsPortable, text_bytes, read_string-text}
use wazeko.Protocol.Validity.{ArePortable, normalise, normalise_content}
use wazeko.Protocol.Transfer.Nodes.{attrs_bytes, node_bytes, content_bytes}

read_attrs-bytes :
    (m acc : NodeAttributes)
    → ArePortable m
    → Reads (λ input o. read_attrs input (length m) acc o) (attrs_bytes m) (assign_all m acc)
unfolding read_attrs attrs_bytes assign_all
read_attrs-bytes [] acc h input ys o a = ap (λ (p : ℕ). done (acc, p)) (omega arith)
read_attrs-bytes ((k, v) ∷ m) acc (hk, hv, h) input ys o a =
    let tail = attrs_bytes m ++ ys in
    let a₁ = rw (append_assoc, append_assoc) at a in
    let a₂ = At-append input (text_bytes k) (text_bytes v ++ tail) o a₁ in
    let a₃ = At-append input (text_bytes v) tail _ a₂ in
    rw
      (
        read_string-text k hk input (text_bytes v ++ tail) o a₁,
        read_string-text v hv input tail _ a₂,
        read_attrs-bytes m (assign k v acc) h input ys _ a₃,
      )
      (ap (λ (p : ℕ). done (assign_all m (assign k v acc), p))
        (omega (
          arith,
          length-append {0} (text_bytes k ++ text_bytes v) (attrs_bytes m),
          length-append {0} (text_bytes k) (text_bytes v),
        )))

-- What `read_node` is to do with a node, `read_content` with a content and `read_nodes` with a list.
abbrev pub NodeReads : ℕ → ProtocolNode → Type 0
NodeReads fuel n = ReadsTo (λ input o. read_node input fuel (at o)) (node_bytes n) (normalise n)

-- A content is written exactly if it is neither null nor undefined.
content_kinds :
    (c : NodeContent)
    → ((content_items c ≡ 0) × (content_bytes c ≡ []) × (normalise_content c ≡ undefined))
      ⊎ (content_items c ≡ 1)
unfolding content_bytes normalise_content
content_kinds null = inl (refl, refl, refl)
content_kinds undefined = inl (refl, refl, refl)
content_kinds (bytes b) = inr refl
content_kinds (nodes ns) = inr refl

abbrev pub ContentReads : ℕ → NodeContent → Type 0
ContentReads fuel c =
    content_items c ≡ 1
    → ReadsTo (λ input o. read_content input (read_node input fuel) o) (content_bytes c)
        (normalise_content c)

pairs_in_size :
    (attributes : NodeAttributes) (c : NodeContent)
    → content_items c < 2
    → ((list_size attributes c - 1) / 2 ≡ length attributes)
      × ((list_size attributes c - 1) % 2 ≡ content_items c)
pairs_in_size attributes c h = omega arith

content_items_lt : (c : NodeContent) → content_items c < 2
content_items_lt null = omega arith
content_items_lt undefined = omega arith
content_items_lt (bytes b) = omega arith
content_items_lt (nodes ns) = omega arith

-- The end of the node, after its tag and its attributes.
after_attrs :
    (fuel : ℕ) (attributes : NodeAttributes) (content : NodeContent) (input ys : List ℕ) (o : ℕ)
    (tag : Text)
    → ContentReads fuel content
    → At input o (content_bytes content ++ ys)
    → (if content_items content == 1
        then ◌>>=◌ {B = ProtocolNode × Cursor}
            (read_content input (read_node input fuel) o)
            (λ (r, c). done (node tag attributes r, c))
        else done (node tag attributes undefined, at o))
      ≡ done
          (node tag attributes (normalise_content content), at (o + length (content_bytes content)))
after_attrs fuel attributes content input ys o tag hc a = elim (content_kinds content) [
  | inl (e, empty, absent) ↦
      rw (e, empty, absent)
        (ap (λ (p : ℕ). done (node tag attributes undefined, at p)) (omega arith))
  | inr e ↦ rw (e, hc e input ys o a)
]

read_body-bytes :
    (fuel : ℕ) (tag : Text) (attributes : NodeAttributes) (content : NodeContent)
    (input ys : List ℕ) (o : ℕ)
    → IsPortable tag
    → IsObject attributes
    → ArePortable attributes
    → ContentReads fuel content
    → At input o (text_bytes tag ++ (attrs_bytes attributes ++ (content_bytes content ++ ys)))
    → read_body input (read_node input fuel) (list_size attributes content) o
      ≡ done (
        node tag attributes (normalise_content content),
        at (
            o
            + length (text_bytes tag)
            + length (attrs_bytes attributes)
            + length (content_bytes content)),
      )
unfolding read_body
read_body-bytes fuel tag attributes content input ys o ht ho ha hc a =
    let tail = content_bytes content ++ ys in
    let a₁ = At-append input (text_bytes tag) (attrs_bytes attributes ++ tail) o a in
    let a₂ = At-append input (attrs_bytes attributes) tail _ a₁ in
    let (pairs, odd) = pairs_in_size attributes content (content_items_lt content) in
    rw
      (
        read_string-text tag ht input (attrs_bytes attributes ++ tail) o a,
        pairs,
        odd,
        read_attrs-bytes attributes [] ha input tail _ a₁,
        assign_all-IsObject_self attributes ho,
      )
      (after_attrs fuel attributes content input ys _ tag hc a₂)

read_node_step :
    (fuel n o : ℕ) (input : List ℕ) (c : Cursor)
    → read_list_size input c ≡ done (n, o)
    → (n == 0) ≡ false
    → read_node input (suc fuel) c ≡ read_body input (read_node input fuel) n o
unfolding read_node
read_node_step fuel n o input c e nonempty = rw (e, nonempty)

pub read_node-bytes :
    (fuel : ℕ) (tag : Text) (attributes : NodeAttributes) (content : NodeContent)
    → IsPortable tag
    → IsObject attributes
    → ArePortable attributes
    → list_size attributes content < 65536
    → ContentReads fuel content
    → NodeReads (suc fuel) (node tag attributes content)
unfolding read_node node_bytes normalise
read_node-bytes fuel tag attributes content ht ho ha hs hc input ys o a =
    let tail = attrs_bytes attributes ++ (content_bytes content ++ ys) in
    let a' = rw (append_assoc, append_assoc, append_assoc) at a in
    let header = header_bytes (list_size attributes content) in
    let a₁ = At-append input header (text_bytes tag ++ tail) o a' in
    read_node_step fuel _ _ input (at o)
      (read_list_size-header _ hs input (text_bytes tag ++ tail) o a') (ground arith)
    ∙ read_body-bytes fuel tag attributes content input ys _ ht ho ha hc a₁
    ∙ ap (λ (p : ℕ). done (node tag attributes (normalise_content content), at p))
        (omega (
          arith,
          length-append {0} ((header ++ text_bytes tag) ++ attrs_bytes attributes)
              (content_bytes content),
          length-append {0} (header ++ text_bytes tag) (attrs_bytes attributes),
          length-append {0} header (text_bytes tag),
        ))
