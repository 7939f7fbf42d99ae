-- ===== src/Client/Groups.antt =====
-- packages/wazeko/src/groups.ts. A call returns its outcome with the client after it; the clock is
-- an argument, in milliseconds.
pub mod Participants
pub mod Delivery
use wazeko.Prelude.{ℕ, ◌/◌, false, Option, none, some, List, [], ◌∷◌, ◌++◌, if◌then◌else◌}
use wazeko.Text.{Text, codes}
use wazeko.Text.Decimal.{decimal}
use wazeko.Text.Split.{includes}
use wazeko.Text.Utf8.{utf8_encode}
use wazeko.Types.Jid.{Jid, JidOrText, jid, text, Parsed, ok, err, jid_user, jid_group, parse_jid}
use wazeko.Types.Group.{GroupParticipant, GroupMetadata, member, superadmin}
use wazeko.Protocol.Node.{ProtocolNode, create, attr, content_bytes, content_nodes, build}
use wazeko.Client.{Wazeko, Outcome, rejected, bad_jid, get_me, dispatch_node}

-- `typeof jid === "string" ? (jid.includes("@") ? parseJid(jid) : named(jid)) : jid`.
abbrev resolve_by : (Text → Jid) → JidOrText → Parsed
unfolding parse_jid
resolve_by named (jid j) = ok j
resolve_by named (text t) = if includes b'@' t then parse_jid t else ok (named t)

unfoldable pub resolve_jid : JidOrText → Parsed
unfolding jid_group parse_jid
resolve_jid j = resolve_by jid_group j

unfoldable pub resolve_user_jid : JidOrText → Parsed
unfolding jid_user parse_jid
resolve_user_jid j = resolve_by jid_user j

-- `${jid.user}@${jid.server}`.
abbrev pub address : Jid → Text
address j = j.user ++ b'@' ∷ j.server

-- What an exception of a resolution does to a call: it is rejected, and nothing has changed.
abbrev pub with_jid {ℓ} :
    {A : Type ℓ} → Parsed → (Jid → Wazeko → Outcome A × Wazeko) → Wazeko → Outcome A × Wazeko
with_jid (ok j) rest c = rest j c
with_jid (err e) rest c = (rejected (bad_jid e), c)

-- `participants.map((p) => this.resolveUserJid(p))`, the first exception ends it.
unfoldable pub with_users {ℓ} :
    {A : Type ℓ}
    → List JidOrText
    → (List Jid → Wazeko → Outcome A × Wazeko)
    → Wazeko
    → Outcome A × Wazeko
unfolding resolve_user_jid
with_users [] rest c = rest [] c
with_users (p ∷ ps) rest c =
    with_jid (resolve_user_jid p) (λ j. with_users ps (λ js. rest (j ∷ js))) c

unfoldable pub iq : Text → Text → List ProtocolNode → ProtocolNode
unfolding create attr content_nodes build
iq type' to children = build (
    content_nodes children (
      attr (codes "to") to
        (attr (codes "xmlns") (codes "w:g2") (attr (codes "type") type' (create (codes "iq"))))))

unfoldable pub participant_node : Jid → ProtocolNode
unfolding create attr build
participant_node j = build (attr (codes "jid") (address j) (create (codes "participant")))

abbrev pub participant_nodes : List Jid → List ProtocolNode
participant_nodes [] = []
participant_nodes (j ∷ js) = participant_node j ∷ participant_nodes js

abbrev members : List Jid → List GroupParticipant
members [] = []
members (j ∷ js) = record { id = j; role = member } ∷ members js

abbrev add_self : Option Jid → List GroupParticipant → List GroupParticipant
add_self none ps = ps
add_self (some me) ps = record { id = me; role = superadmin } ∷ ps

abbrev pub set : Text
set = codes "set"

abbrev get : Text
get = codes "get"

-- `now` is the clock at the start of the call, and `later` when the answer is made up.
unfoldable pub create_group :
    Text → List JidOrText → ℕ → ℕ → Wazeko → Outcome GroupMetadata × Wazeko
unfolding with_users iq participant_node create attr content_nodes build dispatch_node jid_group
create_group subject participants now later c =
    with_users participants
      (λ js c.
        dispatch_node
          (iq set (codes "g.us") (
            build (
              content_nodes (participant_nodes js)
                (attr (codes "subject") subject (create (codes "create"))))
            ∷ []))
          none
          (record {
            id = jid_group (decimal now);
            subject = subject;
            description = none;
            owner = get_me c;
            creation_time = later / 1000;
            participants = add_self (get_me c) (members js);
            restrict = false;
            announce = false;
          })
          c)
      c

unfoldable pub info : JidOrText → ℕ → Wazeko → Outcome GroupMetadata × Wazeko
unfolding resolve_jid iq create attr build dispatch_node
info j later = with_jid (resolve_jid j) (λ group.
    dispatch_node
      (iq get (address group)
        (build (attr (codes "request") (codes "interactive") (create (codes "query"))) ∷ []))
      none
      (record {
        id = group;
        subject = codes "Group";
        description = none;
        owner = none;
        creation_time = later / 1000;
        participants = [];
        restrict = false;
        announce = false;
      }))

unfoldable pub update_subject : JidOrText → Text → Wazeko → Outcome (Unit {0}) × Wazeko
unfolding resolve_jid iq create content_bytes build dispatch_node
update_subject j subject = with_jid (resolve_jid j) (λ group.
    dispatch_node
      (iq set (address group)
        (build (content_bytes (utf8_encode subject) (create (codes "subject"))) ∷ []))
      none tt)

unfoldable pub update_description : JidOrText → Text → ℕ → Wazeko → Outcome (Unit {0}) × Wazeko
unfolding resolve_jid iq create attr content_bytes build dispatch_node
update_description j description now = with_jid (resolve_jid j) (λ group.
    dispatch_node
      (iq set (address group) (
        build (
          content_bytes (utf8_encode description)
            (attr (codes "id") (decimal now) (create (codes "description"))))
        ∷ []))
      none tt)

-- The requests that change participants, which differ in the name of the change.
unfoldable pub change_node : Text → Jid → List Jid → ProtocolNode
unfolding iq create content_nodes build participant_node
change_node change group js =
    iq set (address group) (build (content_nodes (participant_nodes js) (create change)) ∷ [])

abbrev change_participants :
    Text → JidOrText → List JidOrText → Wazeko → Outcome (Unit {0}) × Wazeko
unfolding resolve_jid with_users iq create content_nodes build participant_node dispatch_node
change_participants change j participants =
    with_jid (resolve_jid j)
      (λ group. with_users participants (λ js. dispatch_node (change_node change group js) none tt))

unfoldable pub add_participants : JidOrText → List JidOrText → Wazeko → Outcome (Unit {0}) × Wazeko
unfolding resolve_jid with_users iq create content_nodes build participant_node dispatch_node
add_participants = change_participants (codes "add")

unfoldable pub remove_participants :
    JidOrText → List JidOrText → Wazeko → Outcome (Unit {0}) × Wazeko
unfolding resolve_jid with_users iq create content_nodes build participant_node dispatch_node
remove_participants = change_participants (codes "remove")

unfoldable pub promote_participants :
    JidOrText → List JidOrText → Wazeko → Outcome (Unit {0}) × Wazeko
unfolding resolve_jid with_users iq create content_nodes build participant_node dispatch_node
promote_participants = change_participants (codes "promote")

unfoldable pub demote_participants :
    JidOrText → List JidOrText → Wazeko → Outcome (Unit {0}) × Wazeko
unfolding resolve_jid with_users iq create content_nodes build participant_node dispatch_node
demote_participants = change_participants (codes "demote")

unfoldable pub get_invite_code : JidOrText → Wazeko → Outcome Text × Wazeko
unfolding resolve_jid iq create build dispatch_node
get_invite_code j = with_jid (resolve_jid j) (λ group.
    dispatch_node (iq get (address group) (build (create (codes "invite")) ∷ [])) none
      (codes "INVITE_CODE_123456"))

unfoldable pub join_with_code : Text → ℕ → Wazeko → Outcome GroupMetadata × Wazeko
unfolding iq create attr build dispatch_node jid_group
join_with_code code later =
    dispatch_node
      (iq set (codes "g.us") (build (attr (codes "code") code (create (codes "accept"))) ∷ [])) none
      (record {
        id = jid_group (codes "120363000000");
        subject = codes "Joined Group";
        description = none;
        owner = none;
        creation_time = later / 1000;
        participants = [];
        restrict = false;
        announce = false;
      })

unfoldable pub leave : JidOrText → Wazeko → Outcome (Unit {0}) × Wazeko
unfolding resolve_jid iq create attr content_nodes build dispatch_node
leave j = with_jid (resolve_jid j) (λ group.
    dispatch_node
      (iq set (address group) (
        build (
          content_nodes (build (attr (codes "id") (address group) (create (codes "group"))) ∷ [])
            (create (codes "leave")))
        ∷ []))
      none tt)
