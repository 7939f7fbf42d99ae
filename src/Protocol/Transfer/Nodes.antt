-- ===== src/Protocol/Transfer/Nodes.antt =====
-- Whole nodes, written: the bytes of a valid node.
use wazeko.Prelude.{ℕ, List, [], ◌∷◌, ◌++◌}
use wazeko.Protocol.Attributes.{NodeAttributes}
use wazeko.Protocol.Node.{
  ProtocolNode, NodeContent, Nodes, node, null, undefined, bytes, nodes, nil, cons, count,
}
use wazeko.Protocol.Encoder.{write_attrs, write_node, write_content, write_nodes, list_size}
use wazeko.Protocol.Transfer.{Emits, Emits-skip, Emits->>}
use wazeko.Protocol.Transfer.Header.{header_bytes, write_list_header-Emits}
use wazeko.Protocol.Transfer.Strings.{text_bytes, write_string-Emits}
use wazeko.Protocol.Transfer.Binary.{binary_bytes, write_binary-Emits}
use wazeko.Protocol.Validity.{ArePortable, IsValid, IsValidContent, AreValid}

unfoldable pub attrs_bytes : NodeAttributes → List ℕ
attrs_bytes [] = []
attrs_bytes ((k, v) ∷ m) = (text_bytes k ++ text_bytes v) ++ attrs_bytes m

unfoldable mutual
  pub node_bytes : ProtocolNode → List ℕ
  node_bytes (node tag attributes content) =
      ((header_bytes (list_size attributes content) ++ text_bytes tag) ++ attrs_bytes attributes)
      ++ content_bytes content

  pub content_bytes : NodeContent → List ℕ
  content_bytes null = []
  content_bytes undefined = []
  content_bytes (bytes b) = binary_bytes b
  content_bytes (nodes ns) = header_bytes (count ns) ++ nodes_bytes ns

  pub nodes_bytes : Nodes → List ℕ
  nodes_bytes nil = []
  nodes_bytes (cons n ns) = node_bytes n ++ nodes_bytes ns

write_attrs-Emits : (m : NodeAttributes) → ArePortable m → Emits (write_attrs m) (attrs_bytes m)
unfolding write_attrs attrs_bytes
write_attrs-Emits [] h = Emits-skip
write_attrs-Emits ((k, v) ∷ m) (hk, hv, h) =
    Emits->> _ _ _ _ (Emits->> _ _ _ _ (write_string-Emits k hk) (write_string-Emits v hv))
      (write_attrs-Emits m h)

mutual
  unfolding write_node node_bytes

  pub write_node-Emits : (n : ProtocolNode) → IsValid n → Emits (write_node n) (node_bytes n)
  write_node-Emits (node tag attributes content) (ht, ho, ha, hs, hc) =
      Emits->> _ _ _ _
        (Emits->> _ _ _ _
          (Emits->> _ _ _ _ (write_list_header-Emits _ hs) (write_string-Emits tag ht))
          (write_attrs-Emits attributes ha))
        (write_content-Emits content hc)

  write_content-Emits :
      (c : NodeContent) → IsValidContent c → Emits (write_content c) (content_bytes c)
  write_content-Emits null h = Emits-skip
  write_content-Emits undefined h = Emits-skip
  write_content-Emits (bytes b) h = write_binary-Emits b
  write_content-Emits (nodes ns) (h, hs) =
      Emits->> _ _ _ _ (write_list_header-Emits _ h) (write_nodes-Emits ns hs)

  write_nodes-Emits : (ns : Nodes) → AreValid ns → Emits (write_nodes ns) (nodes_bytes ns)
  write_nodes-Emits nil h = Emits-skip
  write_nodes-Emits (cons n ns) (h, hs) =
      Emits->> _ _ _ _ (write_node-Emits n h) (write_nodes-Emits ns hs)
