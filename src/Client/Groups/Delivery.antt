-- ===== src/Client/Groups/Delivery.antt =====
-- packages/wazeko/src/groups.ts: what a receiver reads in the bytes of a request.
use wazeko.Prelude.{
  ℕ, ◌<◌, ◌≤◌, ◌≡◌, refl, sym, ap, ◌∙◌, subst, none, List, [], ◌∷◌, arith, length, All, ◌++◌,
}
use wazeko.Text.{Text, codes, text_eq}
use wazeko.Types.Jid.{Jid, JidOrText, ok}
use wazeko.Protocol.Attributes.{
  assign, insert_entry, goes_before, index_before, array_index, digits_value,
}
use wazeko.Protocol.Node.{
  ProtocolNode, Nodes, undefined, node, nodes, nil, cons, of_list, depth, depth_nodes,
  depth_content, create, attr, content_nodes, build,
}
use wazeko.Protocol.Decoder.{done, decode}
use wazeko.Protocol.Transfer.Strings.{IsPortable}
use wazeko.Protocol.Words.{word}
use wazeko.Protocol.Validity.{IsValid, normalise, normalise_nodes, normalise_content}
use wazeko.Protocol.RoundTrip.{decode-encode, encode-buffer}
use wazeko.Client.{Wazeko, Outcome, returned, dispatch_node, emit_message}
use wazeko.Client.Groups.{
  address, iq, participant_nodes, change_node, with_users, resolve_jid, resolve_user_jid, set,
  add_participants, remove_participants, promote_participants, demote_participants,
}
use wazeko.Client.Groups.Participants.{
  participant_node-attributes, participant_nodes-AreValid, count-participant_nodes,
  depth-participant_nodes, normalise-participant_nodes,
}

-- The requests that change the participants of a group.
pub data Change : Type 0 where
  adds removes promotes demotes : Change

abbrev pub call_of : Change → JidOrText → List JidOrText → Wazeko → Outcome (Unit {0}) × Wazeko
call_of adds = add_participants
call_of removes = remove_participants
call_of promotes = promote_participants
call_of demotes = demote_participants

abbrev pub word_of : Change → Text
word_of adds = codes "add"
word_of removes = codes "remove"
word_of promotes = codes "promote"
word_of demotes = codes "demote"

word_of-IsPortable : (change : Change) → IsPortable (word_of change)
word_of-IsPortable adds = word (codes "add") refl refl
word_of-IsPortable removes = word (codes "remove") refl refl
word_of-IsPortable promotes = word (codes "promote") refl refl
word_of-IsPortable demotes = word (codes "demote") refl refl

-- The participants of a call, each as the JID that it stands for.
abbrev pub AreResolved : List JidOrText → List Jid → Type 0
AreResolved [] [] = Unit
AreResolved (p ∷ ps) (j ∷ js) = (resolve_user_jid p ≡ ok j) × AreResolved ps js
AreResolved _ _ = ⊥

with_users-resolved :
    {A : Type 0} (ps : List JidOrText) (js : List Jid)
    (rest : List Jid → Wazeko → Outcome A × Wazeko) (c : Wazeko)
    → AreResolved ps js
    → with_users ps rest c ≡ rest js c
unfolding with_users
with_users-resolved [] [] rest c h = refl
with_users-resolved [] (j ∷ js) rest c h = absurd h
with_users-resolved (p ∷ ps) [] rest c h = absurd h
with_users-resolved (p ∷ ps) (j ∷ js) rest c (h, hs) =
    rw h (with_users-resolved ps js (λ js. rest (j ∷ js)) c hs)

call_of-change_node :
    (change : Change) (to : JidOrText) (group : Jid) (ps : List JidOrText) (js : List Jid)
    (c : Wazeko)
    → resolve_jid to ≡ ok group
    → AreResolved ps js
    → call_of change to ps c ≡ dispatch_node (change_node (word_of change) group js) none tt c
unfolding add_participants remove_participants promote_participants demote_participants
call_of-change_node adds to group ps js c h hs = rw h (with_users-resolved ps js _ c hs)
call_of-change_node removes to group ps js c h hs = rw h (with_users-resolved ps js _ c hs)
call_of-change_node promotes to group ps js c h hs = rw h (with_users-resolved ps js _ c hs)
call_of-change_node demotes to group ps js c h hs = rw h (with_users-resolved ps js _ c hs)

-- What a receiver is to read: who is meant, for each participant, and the request as a whole.
abbrev pub addressee : Jid → Text
addressee j = j.user ++ (codes "@" ++ j.server)

abbrev pub named : List Jid → Nodes
named [] = nil
named (j ∷ js) =
    cons (node (codes "participant") ((codes "jid", addressee j) ∷ []) undefined) (named js)

abbrev pub requested : Change → Jid → List Jid → ProtocolNode
requested change group js =
    node (codes "iq")
      ((codes "type", codes "set")
        ∷ (codes "xmlns", codes "w:g2")
        ∷ (codes "to", addressee group)
        ∷ [])
      (nodes (cons (node (word_of change) [] (nodes (named js))) nil))

participant_nodes-named : (js : List Jid) → of_list (participant_nodes js) ≡ named js
participant_nodes-named [] = refl
participant_nodes-named (j ∷ js) =
    rw (participant_node-attributes j, participant_nodes-named js) refl

module _ (change : Change) (group : Jid) (js : List Jid) where
  abbrev request : ProtocolNode
  request = change_node (word_of change) group js

  request-node :
      request
      ≡ node
          (codes "iq")
          ((codes "type", set) ∷ (codes "xmlns", codes "w:g2") ∷ (codes "to", address group) ∷ [])
          (nodes (cons (node (word_of change) [] (nodes (of_list (participant_nodes js)))) nil))
  unfolding iq create attr content_nodes build assign insert_entry goes_before index_before
      array_index digits_value text_eq change_node
  request-node = refl

  request-requested : request ≡ requested change group js
  request-requested = rw (request-node, participant_nodes-named js) refl

  request-IsValid :
      IsPortable (address group)
      → All (λ j. IsPortable (address j)) js
      → length js < 65536
      → IsValid request
  unfolding text_eq goes_before index_before array_index digits_value
  request-IsValid h hs short = subst IsValid (sym request-node) (
    word (codes "iq") refl refl,
    (
      refl,
      (record { differ = refl; ordered = refl }, (record { differ = refl; ordered = refl }, tt)),
      (refl, (record { differ = refl; ordered = refl }, tt), (refl, tt, tt)),
    ),
    (
      word (codes "type") refl refl,
      word set refl refl,
      (
        word (codes "xmlns") refl refl,
        word (codes "w:g2") refl refl,
        (word (codes "to") refl refl, h, tt),
      ),
    ),
    omega arith,
    (
      omega arith,
      (
        (
          word_of-IsPortable change,
          tt,
          tt,
          omega arith,
          (omega (arith, count-participant_nodes js, short), participant_nodes-AreValid js hs),
        ),
        tt,
      ),
    ),
  )

  depth-request : depth request ≤ 4
  unfolding depth depth_nodes depth_content
  depth-request = rw request-node (omega (arith, depth-participant_nodes js))

  normalise-request : normalise request ≡ request
  unfolding normalise normalise_nodes normalise_content
  normalise-request = rw (request-node, normalise-participant_nodes js) refl

dispatch_node-decode :
    {A : Type 0} (n : ProtocolNode) (a : A) (c : Wazeko) (fuel : ℕ)
    → IsValid n
    → depth n ≤ fuel
    → ((dispatch_node n none a c).0 ≡ returned a)
      × (decode fuel (dispatch_node n none a c).1.encoder.buffer ≡ done (normalise n))
      × ((dispatch_node n none a c).1.emitted ≡ c.emitted)
      × ((dispatch_node n none a c).1.event_queue ≡ c.event_queue)
unfolding dispatch_node emit_message
dispatch_node-decode n a c fuel v d =
    let (out, e, back) = decode-encode c.encoder n fuel v d in
    rw (encode-buffer c.encoder n out e) (refl, back, refl, refl)

-- For a group and participants that are given as JIDs or as texts that stand for some, whose
-- addresses the format can carry, each of the four requests succeeds, and a receiver that decodes
-- its bytes with fuel for four levels gets the request written out: a set of the space w:g2 to the
-- user and server of the group, with the change and in it the user and server of each participant in
-- order. The listeners of the client and its event queue get nothing.
pub call_of-decode :
    (change : Change) (to : JidOrText) (group : Jid) (ps : List JidOrText) (js : List Jid)
    (c : Wazeko) (fuel : ℕ)
    → resolve_jid to ≡ ok group
    → AreResolved ps js
    → IsPortable (addressee group)
    → All (λ j. IsPortable (addressee j)) js
    → length js < 65536
    → 4 ≤ fuel
    → ((call_of change to ps c).0 ≡ returned tt)
      × (decode fuel (call_of change to ps c).1.encoder.buffer ≡ done (requested change group js))
      × ((call_of change to ps c).1.emitted ≡ c.emitted)
      × ((call_of change to ps c).1.event_queue ≡ c.event_queue)
call_of-decode change to group ps js c fuel g r h hs short enough =
    let (sent, back, told, queued) =
      dispatch_node-decode (request change group js) tt c fuel
        (request-IsValid change group js h hs short)
        (omega (arith, depth-request change group js, enough)) in
    rw (call_of-change_node change to group ps js c g r) (
      sent,
      back ∙ ap done (normalise-request change group js ∙ request-requested change group js),
      told,
      queued,
    )
