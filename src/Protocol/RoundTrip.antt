-- ===== src/Protocol/RoundTrip.antt =====
-- What the encoder writes the decoder reads back.
mod Body
use wazeko.Prelude.{
  ℕ, zero, suc, ◌⊎◌, inl, inr, if◌then◌else◌, ◌+◌, ◌/◌, ◌-◌, ◌%◌, ◌^◌, ◌≤◌, ◌<◌, ◌≡◌, refl, ap, ◌∙◌,
  true, false, List, [], ◌∷◌, ◌++◌, append_assoc, append-nil, arith, leb, ◌==◌, length,
  length-append, At, At-start, At-append,
}
use wazeko.Text.{Text}
use wazeko.Protocol.Attributes.{
  NodeAttributes, assign, assign_all, IsObject, assign_all-IsObject_self,
}
use wazeko.Protocol.Node.{
  ProtocolNode, NodeContent, Nodes, node, null, undefined, bytes, nodes, nil, cons, count, depth,
  depth_content, depth_nodes,
}
use wazeko.Protocol.Encoder.{
  BinaryEncoder, encode, encoded, content_items, list_size, finish, Written, wrote, threw,
  write_node,
}
use wazeko.Protocol.Decoder.{
  done, ◌>>=◌, Cursor, at, read_list_size, read_attrs, read_nodes, decode, read_children,
  content_after, read_content, read_body, read_node, read_binary, is_list_tag, is_binary_tag,
}
use wazeko.Protocol.Transfer.{peek_byte-At, Reads, ReadsTo}
use wazeko.Protocol.Transfer.Header.{header_bytes, read_list_size-header, is_list_tag-header}
use wazeko.Protocol.Transfer.Strings.{IsPortable, text_bytes, read_string-text}
use wazeko.Protocol.Transfer.Binary.{read_binary-bytes, is_binary_tag-binary_bytes}
use wazeko.Protocol.Validity.{
  ArePortable, IsValid, IsValidContent, AreValid, normalise, normalise_content, normalise_nodes,
}
use wazeko.Protocol.Transfer.Nodes.{
  attrs_bytes, node_bytes, content_bytes, nodes_bytes, write_node-Emits,
}
use wazeko.Protocol.RoundTrip.Body.{NodeReads, ContentReads, read_node-bytes}

content_first :
    (fuel : ℕ) (input ys : List ℕ) (o b : ℕ)
    → At input o (b ∷ ys)
    → read_content input (read_node input fuel) o ≡ content_after input (read_node input fuel) b o
unfolding read_content
content_first fuel input ys o b a =
    let within = (At-append input (b ∷ []) ys o a).within in
    let inside : leb (length input) o ≡ false = ground arith in
    rw (inside, peek_byte-At input ys o b a)

content_after-list :
    (fuel : ℕ) (input : List ℕ) (b o : ℕ)
    → is_list_tag b ≡ true
    → content_after input (read_node input fuel) b o ≡ read_children input (read_node input fuel) o
unfolding content_after
content_after-list fuel input b o e = rw e

content_after-binary :
    (fuel : ℕ) (input : List ℕ) (b o : ℕ)
    → is_list_tag b ≡ false
    → is_binary_tag b ≡ true
    → content_after input (read_node input fuel) b o
      ≡ (read_binary input o >>= λ (items, c). done (bytes items, c))
unfolding content_after
content_after-binary fuel input b o e f = rw (e, f)

NodesRead : ℕ → Nodes → Type 0
NodesRead fuel ns =
    ReadsTo (λ input o. read_nodes input (read_node input fuel) (count ns) (at o)) (nodes_bytes ns)
      (normalise_nodes ns)

read_content-nodes :
    (fuel : ℕ) (ns : Nodes) → count ns < 65536 → NodesRead fuel ns → ContentReads fuel (nodes ns)
unfolding read_children NodesRead content_bytes normalise_content
read_content-nodes fuel ns h k items input ys o a =
    let header = header_bytes (count ns) in
    let a' = rw append_assoc at a in
    let (b, zs, e, listed) = is_list_tag-header (count ns) (nodes_bytes ns ++ ys) in
    content_first fuel input zs o b (rw e at a')
    ∙ content_after-list fuel input b o listed
    ∙ rw
        (
          read_list_size-header (count ns) h input (nodes_bytes ns ++ ys) o a',
          k input ys _ (At-append input header (nodes_bytes ns ++ ys) o a'),
        )
        (ap (λ (p : ℕ). done (nodes (normalise_nodes ns), at p))
          (omega (arith, length-append {0} header (nodes_bytes ns))))

read_content-binary : (fuel : ℕ) (b : List ℕ) → length b < 2 ^ 31 → ContentReads fuel (bytes b)
unfolding content_bytes normalise_content
read_content-binary fuel b h items input ys o a =
    let (tag, zs, e, not_list, binary) = is_binary_tag-binary_bytes b ys in
    content_first fuel input zs o tag (rw e at a)
    ∙ content_after-binary fuel input tag o not_list binary
    ∙ rw (read_binary-bytes b h input ys o a)

mutual
  unfolding NodesRead read_nodes nodes_bytes normalise_nodes depth read_content-nodes

  read_node-normalise :
      (fuel : ℕ) (n : ProtocolNode) → IsValid n → depth n ≤ fuel → NodeReads fuel n
  read_node-normalise zero (node tag attributes content) v d = absurd (omega arith)
  read_node-normalise (suc fuel) (node tag attributes content) (ht, ho, ha, hs, hc) d =
      read_node-bytes fuel tag attributes content ht ho ha hs
        (read_content-normalise fuel content hc (omega arith))

  read_content-normalise :
      (fuel : ℕ) (c : NodeContent) → IsValidContent c → depth_content c ≤ fuel → ContentReads fuel c
  read_content-normalise fuel null h d = λ e. absurd (omega arith)
  read_content-normalise fuel undefined h d = λ e. absurd (omega arith)
  read_content-normalise fuel (bytes b) h d = read_content-binary fuel b h
  read_content-normalise fuel (nodes ns) (h, hs) d =
      read_content-nodes fuel ns h (read_nodes-normalise fuel ns hs d)

  read_nodes-normalise :
      (fuel : ℕ) (ns : Nodes) → AreValid ns → depth_nodes ns ≤ fuel → NodesRead fuel ns
  read_nodes-normalise fuel nil h d input ys o a = ap (λ (p : ℕ). done (nil, at p)) (omega arith)
  read_nodes-normalise fuel (cons n ns) (h, hs) d input ys o a =
      let a' = rw append_assoc at a in
      rw
        (
          read_node-normalise fuel n h (omega arith) input (nodes_bytes ns ++ ys) o a',
          read_nodes-normalise fuel ns hs (omega arith) input ys _
              (At-append input (node_bytes n) (nodes_bytes ns ++ ys) o a'),
        )
        (ap (λ (p : ℕ). done (cons (normalise n) (normalise_nodes ns), at p))
          (omega (arith, length-append {0} (node_bytes n) (nodes_bytes ns))))

-- Encoding a valid node succeeds with whatever encoder, and decoding the bytes with fuel for the
-- node's depth or more gives the node back, content that is null as undefined.
pub decode-encode :
    (encoder : BinaryEncoder) (n : ProtocolNode) (fuel : ℕ)
    → IsValid n
    → depth n ≤ fuel
    → (out : List ℕ) × ((encode encoder n).0 ≡ encoded out) × (decode fuel out ≡ done (normalise n))
unfolding encode decode
decode-encode encoder n fuel v d =
    let out = node_bytes n in
    let start : At out 0 (out ++ []) = rw append-nil (At-start out) in
    (out, rw (write_node-Emits n v []), rw (read_node-normalise fuel n v d out [] 0 start))

finish-buffer :
    (w : Written) (out : List ℕ)
    → (finish w).0 ≡ encoded out
    → finish w ≡ (encoded out, record { buffer = out })
finish-buffer (wrote b) out e = let same : b ≡ out = cc in rw same refl
finish-buffer (threw x b) out e = cc

-- The bytes that a call returns are what it leaves in the buffer.
pub encode-buffer :
    (encoder : BinaryEncoder) (n : ProtocolNode) (out : List ℕ)
    → (encode encoder n).0 ≡ encoded out
    → encode encoder n ≡ (encoded out, record { buffer = out })
unfolding encode
encode-buffer encoder n out e = finish-buffer (write_node n []) out e
