-- ===== src/Protocol/Hostile.antt =====
-- packages/wazeko-protocol/src/decoder.ts: input on which the decoder never returns a node. A
-- length with its top bit set is read as a negative number, and moves the offset back.
use wazeko.Prelude.{ℕ, zero, suc, ◌≡◌, refl, List, [], ◌∷◌, ◌++◌, arith}
use wazeko.Protocol.Decoder.{out_of_fuel, at, read_node, decode, to_int32, big_endian}
use wazeko.Protocol.Tokens.{get_token}

-- A node with two children. The first child's content has the length 0xfffffff1, which is -15 in
-- 32 bits, and 15 is the offset behind it: the second child is read at offset 0.
abbrev pub going_back : List ℕ
going_back =
    0x01 ∷ 0x02 ∷ 0x06 ∷ 0x01 ∷ 0x01 ∷ 0x02 ∷ 0x01 ∷ 0x02 ∷ 0x06 ∷ 0x01 ∷ 0x04 ∷ 0xff ∷ 0xff ∷ 0xff
    ∷ 0xf1 ∷ []

read_node-going_back :
    (rest : List ℕ) (fuel : ℕ) → read_node (going_back ++ rest) fuel (at 0) ≡ out_of_fuel
unfolding read_node to_int32 big_endian get_token
read_node-going_back rest zero = refl
read_node-going_back rest (suc zero) = ground arith
read_node-going_back rest (suc (suc fuel)) = ground (arith, read_node-going_back rest (suc fuel))

-- Whatever follows the fifteen bytes of `going_back`, no depth of recursion is enough to decode the
-- input.
pub decode-going_back : (rest : List ℕ) (fuel : ℕ) → decode fuel (going_back ++ rest) ≡ out_of_fuel
unfolding decode
decode-going_back rest fuel = rw (read_node-going_back rest fuel)
