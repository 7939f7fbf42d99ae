-- ===== src/Protocol/Builder.antt =====
-- packages/wazeko-protocol/src/node.ts: what every sequence of builder calls establishes.
use wazeko.Prelude.{ℕ, List}
use wazeko.Text.{Text}
use wazeko.Protocol.Attributes.{NodeAttributes, IsObject, assign-IsObject, assign_all-IsObject}
use wazeko.Protocol.Node.{
  ProtocolNode, ProtocolNodeBuilder, create, attr, attrs, content_bytes, content_nodes, build,
  attrs_of,
}

-- The builders that calls of the class lead to.
pub data Built : ProtocolNodeBuilder → Type 0 where
  created : (tag : Text) → Built (create tag)
  attr_set : {b : ProtocolNodeBuilder} (key value : Text) → Built b → Built (attr key value b)
  attrs_set : {b : ProtocolNodeBuilder} (m : NodeAttributes) → Built b → Built (attrs m b)
  bytes_set : {b : ProtocolNodeBuilder} (items : List ℕ) → Built b → Built (content_bytes items b)
  nodes_set :
      {b : ProtocolNodeBuilder} (ns : List ProtocolNode) → Built b → Built (content_nodes ns b)

-- Whatever the keys given, in whatever order and however often, the attributes of the node that
-- the builder returns are the entries of an object: distinct, in the order of `Object.entries`,
-- and without "__proto__".
pub build-IsObject : {b : ProtocolNodeBuilder} → Built b → IsObject (attrs_of (build b))
unfolding build create attr attrs content_bytes content_nodes
build-IsObject (created tag) = tt
build-IsObject (attr_set key value r) = assign-IsObject key value _ (build-IsObject r)
build-IsObject (attrs_set m r) = assign_all-IsObject m _ (build-IsObject r)
build-IsObject (bytes_set items r) = build-IsObject r
build-IsObject (nodes_set ns r) = build-IsObject r
