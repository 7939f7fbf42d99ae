-- ===== src/Client/Groups/Participants.antt =====
-- packages/wazeko/src/groups.ts: the nodes that name the participants of a request.
use wazeko.Prelude.{suc, ◌≤◌, ◌≡◌, refl, ap, List, [], ◌∷◌, arith, length, All}
use wazeko.Text.{codes, text_eq}
use wazeko.Types.Jid.{Jid}
use wazeko.Protocol.Attributes.{assign, insert_entry}
use wazeko.Protocol.Node.{
  undefined, node, count, of_list, depth, depth_nodes, depth_content, create, attr, build,
}
use wazeko.Protocol.Transfer.Strings.{IsPortable}
use wazeko.Protocol.Words.{word}
use wazeko.Protocol.Validity.{AreValid, normalise, normalise_nodes, normalise_content}
use wazeko.Client.Groups.{address, participant_node, participant_nodes}

pub participant_node-attributes :
    (j : Jid)
    → participant_node j ≡ node (codes "participant") ((codes "jid", address j) ∷ []) undefined
unfolding participant_node create attr build assign insert_entry text_eq
participant_node-attributes j = refl

-- A text that a node can carry, at the length of an address.
pub participant_nodes-AreValid :
    (js : List Jid)
    → All (λ j. IsPortable (address j)) js
    → AreValid (of_list (participant_nodes js))
unfolding text_eq
participant_nodes-AreValid [] h = tt
participant_nodes-AreValid (j ∷ js) (h, hs) = (
  rw (participant_node-attributes j) (
    word (codes "participant") refl refl,
    (refl, tt, tt),
    (word (codes "jid") refl refl, h, tt),
    omega arith,
    tt,
  ),
  participant_nodes-AreValid js hs,
)

pub count-participant_nodes : (js : List Jid) → count (of_list (participant_nodes js)) ≡ length js
count-participant_nodes [] = refl
count-participant_nodes (j ∷ js) = ap suc (count-participant_nodes js)

pub depth-participant_nodes : (js : List Jid) → depth_nodes (of_list (participant_nodes js)) ≤ 1
unfolding depth depth_nodes depth_content
depth-participant_nodes [] = omega arith
depth-participant_nodes (j ∷ js) =
    rw (participant_node-attributes j) (omega (arith, depth-participant_nodes js))

pub normalise-participant_nodes :
    (js : List Jid)
    → normalise_nodes (of_list (participant_nodes js)) ≡ of_list (participant_nodes js)
unfolding normalise normalise_nodes normalise_content
normalise-participant_nodes [] = refl
normalise-participant_nodes (j ∷ js) =
    rw (participant_node-attributes j, normalise-participant_nodes js) refl
