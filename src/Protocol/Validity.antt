-- ===== src/Protocol/Validity.antt =====
-- The nodes that the binary format has room for, and what decoding makes of them.
use wazeko.Prelude.{◌^◌, ◌<◌, [], ◌∷◌, length}
use wazeko.Protocol.Attributes.{NodeAttributes, IsObject}
use wazeko.Protocol.Node.{
  ProtocolNode, NodeContent, Nodes, node, null, undefined, bytes, nodes, nil, cons, count,
}
use wazeko.Protocol.Encoder.{list_size}
use wazeko.Protocol.Transfer.Strings.{IsPortable}

abbrev pub ArePortable : NodeAttributes → Type 0
ArePortable [] = Unit {0}
ArePortable ((k, v) ∷ m) = IsPortable k × IsPortable v × ArePortable m

-- A node that the format has room for: portable texts, the entries of an object, and sizes
-- within the bounds of their fields.
abbrev mutual
  pub IsValid : ProtocolNode → Type 0
  IsValid (node tag attributes content) =
      IsPortable tag
      × IsObject attributes
      × ArePortable attributes
      × (list_size attributes content < 65536)
      × IsValidContent content

  pub IsValidContent : NodeContent → Type 0
  IsValidContent null = Unit {0}
  IsValidContent undefined = Unit {0}
  IsValidContent (bytes b) = length b < 2 ^ 31
  IsValidContent (nodes ns) = (count ns < 65536) × AreValid ns

  pub AreValid : Nodes → Type 0
  AreValid nil = Unit {0}
  AreValid (cons n ns) = IsValid n × AreValid ns

-- The node as the decoder gives it: content that is null comes back undefined.
unfoldable mutual
  pub normalise : ProtocolNode → ProtocolNode
  normalise (node tag attributes content) = node tag attributes (normalise_content content)

  pub normalise_content : NodeContent → NodeContent
  normalise_content null = undefined
  normalise_content undefined = undefined
  normalise_content (bytes b) = bytes b
  normalise_content (nodes ns) = nodes (normalise_nodes ns)

  pub normalise_nodes : Nodes → Nodes
  normalise_nodes nil = nil
  normalise_nodes (cons n ns) = cons (normalise n) (normalise_nodes ns)
