-- ===== src/Protocol/Node.antt =====
-- packages/wazeko-protocol/src/node.ts: protocol nodes, their builder and the search for children.
use wazeko.Prelude.{ℕ, suc, ◌≡◌, refl, Option, none, some, List, [], ◌∷◌, arith, if◌then◌else◌, max}
use wazeko.Text.{Text, text_eq}
use wazeko.Protocol.Attributes.{NodeAttributes, assign, assign_all}

-- `nodes` holds the array of children.
mutual
  pub data ProtocolNode : Type 0 where
    node : Text → NodeAttributes → NodeContent → ProtocolNode

  pub data NodeContent : Type 0 where
    null : NodeContent
    undefined : NodeContent
    bytes : List ℕ → NodeContent
    nodes : Nodes → NodeContent

  pub data Nodes : Type 0 where
    nil : Nodes
    cons : ProtocolNode → Nodes → Nodes

abbrev pub tag_of : ProtocolNode → Text
tag_of (node tag attrs content) = tag

abbrev pub attrs_of : ProtocolNode → NodeAttributes
attrs_of (node tag attrs content) = attrs

abbrev pub content_of : ProtocolNode → NodeContent
content_of (node tag attrs content) = content

abbrev pub count : Nodes → ℕ
count nil = 0
count (cons n ns) = suc (count ns)

abbrev pub of_list : List ProtocolNode → Nodes
of_list [] = nil
of_list (n ∷ ns) = cons n (of_list ns)

abbrev pub to_list : Nodes → List ProtocolNode
to_list nil = []
to_list (cons n ns) = n ∷ to_list ns

pub record ProtocolNodeBuilder : Type 0 where
  pub tag : Text
  pub attributes : NodeAttributes
  pub content : NodeContent

unfoldable pub create : Text → ProtocolNodeBuilder
create tag = record { tag = tag; attributes = []; content = undefined }

unfoldable pub attr : Text → Text → ProtocolNodeBuilder → ProtocolNodeBuilder
attr key value b = record b { attributes = assign key value b.attributes }

unfoldable pub attrs : NodeAttributes → ProtocolNodeBuilder → ProtocolNodeBuilder
attrs entries b = record b { attributes = assign_all entries b.attributes }

unfoldable pub content_bytes : List ℕ → ProtocolNodeBuilder → ProtocolNodeBuilder
content_bytes data' b = record b { content = bytes data' }

unfoldable pub content_nodes : List ProtocolNode → ProtocolNodeBuilder → ProtocolNodeBuilder
content_nodes children b = record b { content = nodes (of_list children) }

-- `{ ...attrs }` copies the object's own entries, each under its own key.
unfoldable pub build : ProtocolNodeBuilder → ProtocolNode
build b = node b.tag b.attributes b.content

find_child : Text → Nodes → Option ProtocolNode
find_child tag nil = none
find_child tag (cons n ns) = if text_eq (tag_of n) tag then some n else find_child tag ns

filter_children : Text → Nodes → List ProtocolNode
filter_children tag nil = []
filter_children tag (cons n ns) =
    let rest = filter_children tag ns in if text_eq (tag_of n) tag then n ∷ rest else rest

get_child_node_in : Text → NodeContent → Option ProtocolNode
unfolding find_child
get_child_node_in tag (nodes ns) = find_child tag ns
get_child_node_in tag _ = none

pub get_child_node : ProtocolNode → Text → Option ProtocolNode
unfolding get_child_node_in
get_child_node n tag = get_child_node_in tag (content_of n)

get_children_nodes_in : Text → NodeContent → List ProtocolNode
unfolding filter_children
get_children_nodes_in tag (nodes ns) = filter_children tag ns
get_children_nodes_in tag _ = []

pub get_children_nodes : ProtocolNode → Text → List ProtocolNode
unfolding get_children_nodes_in
get_children_nodes n tag = get_children_nodes_in tag (content_of n)

abbrev pub first_of_list : List ProtocolNode → Option ProtocolNode
first_of_list [] = none
first_of_list (n ∷ ns) = some n

find_child-filter_children :
    (tag : Text) (ns : Nodes) → find_child tag ns ≡ first_of_list (filter_children tag ns)
unfolding find_child filter_children
find_child-filter_children tag nil = refl
find_child-filter_children tag (cons n ns) = ground (arith, find_child-filter_children tag ns)

-- The one child found is the first of all the children found, for content of every kind.
pub get_child_node-get_children_nodes :
    (n : ProtocolNode) (tag : Text)
    → get_child_node n tag ≡ first_of_list (get_children_nodes n tag)
unfolding get_child_node get_children_nodes
get_child_node-get_children_nodes (node t a (nodes ns)) tag = find_child-filter_children tag ns
get_child_node-get_children_nodes (node t a _) tag = refl

-- How deep nodes are nested.
unfoldable mutual
  pub depth : ProtocolNode → ℕ
  depth (node tag attributes content) = suc (depth_content content)

  pub depth_content : NodeContent → ℕ
  depth_content null = 0
  depth_content undefined = 0
  depth_content (bytes b) = 0
  depth_content (nodes ns) = depth_nodes ns

  pub depth_nodes : Nodes → ℕ
  depth_nodes nil = 0
  depth_nodes (cons n ns) = max (depth n) (depth_nodes ns)
