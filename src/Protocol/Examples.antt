-- ===== src/Protocol/Examples.antt =====
-- packages/wazeko-protocol/src: the theorems on nodes at concrete nodes and bytes.
use wazeko.Prelude.{ℕ, ◌≡◌, ◌≤◌, refl, List, [], ◌∷◌, ◌++◌, arith, All}
use wazeko.Text.{codes, text_eq}
use wazeko.Protocol.Octets.{IsByte, IsTyped, IsTypedContent, encode-IsByte}
use wazeko.Protocol.Node.{
  ProtocolNode, ProtocolNodeBuilder, node, null, bytes, nodes, nil, cons, depth, depth_nodes,
  depth_content, create, attr,
}
use wazeko.Protocol.Encoder.{BinaryEncoder, encoded, encode}
use wazeko.Protocol.Decoder.{done, out_of_fuel, decode}
use wazeko.Protocol.Validity.{IsValid, normalise}
use wazeko.Protocol.RoundTrip.{decode-encode}
use wazeko.Protocol.Hostile.{going_back, decode-going_back}
use wazeko.Protocol.Words.{word}

abbrev used_encoder : BinaryEncoder
used_encoder = record { buffer = 7 ∷ 8 ∷ [] }

abbrev child : ProtocolNode
child = node (codes "body") [] (bytes (1 ∷ 2 ∷ 3 ∷ []))

abbrev request : ProtocolNode
request =
    node (codes "iq") ((codes "type", codes "set") ∷ [])
      (nodes (cons child (cons (node (codes "x") [] null) nil)))

request-IsValid : IsValid request
unfolding text_eq
request-IsValid = (
  word (codes "iq") refl refl,
  (refl, tt, tt),
  (word (codes "type") refl refl, word (codes "set") refl refl, tt),
  omega arith,
  (
    omega arith,
    (
      (word (codes "body") refl refl, tt, tt, omega arith, omega arith),
      ((word (codes "x") refl refl, tt, tt, omega arith, tt), tt),
    ),
  ),
)

depth-request : depth request ≤ 2
unfolding depth depth_nodes depth_content
depth-request = omega arith

decode-encode_example :
    (out : List ℕ) × ((encode used_encoder request).0 ≡ encoded out)
    × (decode 2 out ≡ done (normalise request))
decode-encode_example = decode-encode used_encoder request 2 request-IsValid depth-request

decode-going_back_example : decode 100 (going_back ++ 5 ∷ []) ≡ out_of_fuel
decode-going_back_example = decode-going_back (5 ∷ []) 100

abbrev builder : ProtocolNodeBuilder
builder = attr (codes "2") (codes "b") (attr (codes "id") (codes "a") (create (codes "iq")))

abbrev ping : ProtocolNode
ping = node (codes "é") ((codes "t", codes "x") ∷ []) (bytes (7 ∷ 255 ∷ []))

ping-IsTyped : IsTyped ping
unfolding IsTyped IsTypedContent
ping-IsTyped = (
  (omega arith, tt),
  ((omega arith, tt), (omega arith, tt), tt),
  (omega arith, (omega arith, tt)),
)

encode-IsByte_example : All IsByte (encode used_encoder ping).1.buffer
encode-IsByte_example = encode-IsByte used_encoder ping ping-IsTyped
