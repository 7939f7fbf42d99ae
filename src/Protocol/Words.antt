-- ===== src/Protocol/Words.antt =====
-- packages/wazeko-protocol/src/encoder.ts: the texts that are certainly written and read back.
use wazeko.Prelude.{
  ◌≡◌, refl, Bool, true, false, if◌then◌else◌, [], ◌∷◌, arith, ltb, leb, leb→le, length, All,
}
use wazeko.Text.{Text}
use wazeko.Text.Utf8.{IsScalar, StartsPlain, utf8_encode, encode_char}
use wazeko.Protocol.Transfer.Strings.{IsPortable}

abbrev pub is_ascii : Text → Bool
is_ascii [] = true
is_ascii (c ∷ s) = let rest = is_ascii s in if ltb c 0x80 then rest else false

length-utf8_encode_ascii : (t : Text) → is_ascii t ≡ true → length (utf8_encode t) ≡ length t
unfolding utf8_encode encode_char
length-utf8_encode_ascii [] h = refl
length-utf8_encode_ascii (c ∷ s) h = ground (arith, length-utf8_encode_ascii s)

ascii-scalars : (t : Text) → is_ascii t ≡ true → All IsScalar t
ascii-scalars [] h = tt
ascii-scalars (c ∷ s) h = ground (arith, ascii-scalars s)

ascii-plain : (t : Text) → is_ascii t ≡ true → StartsPlain t
ascii-plain [] h = tt
ascii-plain (c ∷ s) h = ground arith

-- Short texts of ASCII characters are portable.
pub word : (t : Text) → is_ascii t ≡ true → leb (length t) 65535 ≡ true → IsPortable t
word t h k = record {
  scalars = ascii-scalars t h;
  plain = ascii-plain t h;
  short = omega (arith, length-utf8_encode_ascii t h, leb→le _ _ k);
}
