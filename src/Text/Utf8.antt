-- ===== src/Text/Utf8.antt =====
-- `TextEncoder` and `TextDecoder`: UTF-8 with replacement of what is ill-formed, and without a
-- leading byte order mark, as the WHATWG Encoding standard has it.
use wazeko.Prelude.{
  ℕ, zero, suc, ◌+◌, ◌-◌, ◌*◌, ◌/◌, ◌%◌, ◌≤◌, ◌<◌, ◌≡◌, refl, ap, ◌∙◌, ◌⊎◌, inr, ◌≢◌, ◌&&◌, List,
  [], ◌∷◌, ◌++◌, arith, ltb, leb, ◌==◌, if◌then◌else◌, All,
}
use wazeko.Text.{Text}

abbrev pub replacement : ℕ
replacement = 0xfffd

abbrev pub byte_order_mark : ℕ
byte_order_mark = 0xfeff

-- A code point that is no surrogate.
abbrev pub IsScalar : ℕ → Type 0
IsScalar c = (c < 0xd800) ⊎ ((0xdfff < c) × (c < 0x110000))

unfoldable pub encode_char : ℕ → List ℕ
encode_char c =
    if ltb c 0x80
    then c ∷ []
    else if ltb c 0x800
    then (0xc0 + c / 64) ∷ (0x80 + c % 64) ∷ []
    else if leb 0xd800 c && leb c 0xdfff
    then 0xef ∷ 0xbf ∷ 0xbd ∷ []
    else if ltb c 0x10000
    then (0xe0 + c / 4096) ∷ (0x80 + c / 64 % 64) ∷ (0x80 + c % 64) ∷ []
    else (0xf0 + c / 262144) ∷ (0x80 + c / 4096 % 64) ∷ (0x80 + c / 64 % 64) ∷ (0x80 + c % 64) ∷ []

-- `new TextEncoder().encode(text)`.
unfoldable pub utf8_encode : Text → List ℕ
utf8_encode [] = []
utf8_encode (c ∷ s) = encode_char c ++ utf8_encode s

-- Where the decoder stands: between characters, or with a part of one read and `more + 1` bytes
-- to come, the next of them between `lower` and `upper`.
pub data Progress : Type 0 where
  idle : Progress
  waiting : (more point lower upper : ℕ) → Progress

pub record Fed : Type 0 where
  pub out : Text
  pub state : Progress

abbrev pub fed : Text → Progress → Fed
fed o s = record { out = o; state = s }

lead : ℕ → Fed
lead b =
    if ltb b 0x80
    then fed (b ∷ []) idle
    else if ltb b 0xc2
    then fed (replacement ∷ []) idle
    else if ltb b 0xe0
    then fed [] (waiting 0 (b - 0xc0) 0x80 0xbf)
    else if ltb b 0xf0
    then fed []
        (waiting 1 (b - 0xe0) (if b == 0xe0 then 0xa0 else 0x80) (if b == 0xed then 0x9f else 0xbf))
    else if ltb b 0xf5
    then fed []
        (waiting 2 (b - 0xf0) (if b == 0xf0 then 0x90 else 0x80) (if b == 0xf4 then 0x8f else 0xbf))
    else fed (replacement ∷ []) idle

follow : ℕ → ℕ → Fed
follow zero point = fed (point ∷ []) idle
follow (suc more) point = fed [] (waiting more point 0x80 0xbf)

-- An ill-formed byte ends the character begun, and is read again as a first byte.
feed : Progress → ℕ → Fed
unfolding lead follow
feed idle b = lead b
feed (waiting more point lower upper) b =
    if leb lower b && leb b upper
    then follow more (point * 64 + b % 64)
    else fed (replacement ∷ (lead b).out) (lead b).state

unfoldable pub decode_from : Progress → List ℕ → Text
unfolding feed
decode_from idle [] = []
decode_from (waiting more point lower upper) [] = replacement ∷ []
decode_from s (b ∷ bs) = (feed s b).out ++ decode_from (feed s b).state bs

drop_mark : Text → Text
drop_mark [] = []
drop_mark (c ∷ s) = if c == byte_order_mark then s else c ∷ s

-- `new TextDecoder().decode(bytes)`.
unfoldable pub utf8_decode : List ℕ → Text
unfolding drop_mark decode_from
utf8_decode bytes = drop_mark (decode_from idle bytes)

-- `toString("utf-8")` of a `Buffer`, which keeps the mark.
unfoldable pub buffer_text : List ℕ → Text
unfolding decode_from
buffer_text bytes = decode_from idle bytes

-- The bytes after the first, each in its range.
decode_from-last :
    (point lower upper b : ℕ) (rest : List ℕ)
    → lower ≤ b
    → b ≤ upper
    → decode_from (waiting 0 point lower upper) (b ∷ rest)
      ≡ (point * 64 + b % 64) ∷ decode_from idle rest
unfolding decode_from
decode_from-last point lower upper b rest h k = ground arith

decode_from-more :
    (more point lower upper b : ℕ) (rest : List ℕ)
    → lower ≤ b
    → b ≤ upper
    → decode_from (waiting (suc more) point lower upper) (b ∷ rest)
      ≡ decode_from (waiting more (point * 64 + b % 64) 0x80 0xbf) rest
unfolding decode_from
decode_from-more more point lower upper b rest h k = ground arith

decode_from-lead :
    (b : ℕ) (more point lower upper : ℕ) (rest : List ℕ)
    → lead b ≡ fed [] (waiting more point lower upper)
    → decode_from idle (b ∷ rest) ≡ decode_from (waiting more point lower upper) rest
unfolding decode_from
decode_from-lead b more point lower upper rest e = rw e

decode_from-two :
    (c : ℕ) (rest : List ℕ)
    → 0x80 ≤ c
    → c < 0x800
    → decode_from idle ((0xc0 + c / 64) ∷ (0x80 + c % 64) ∷ rest) ≡ c ∷ decode_from idle rest
decode_from-two c rest h k =
    decode_from-lead (0xc0 + c / 64) 0 (c / 64) 0x80 0xbf _ (unfold lead in ground arith)
    ∙ decode_from-last (c / 64) 0x80 0xbf (0x80 + c % 64) rest (omega arith) (omega arith)
    ∙ ap (λ (p : ℕ). p ∷ decode_from idle rest) (omega arith)

abbrev lower_three : ℕ → ℕ
lower_three b = if b == 0xe0 then 0xa0 else 0x80

abbrev upper_three : ℕ → ℕ
upper_three b = if b == 0xed then 0x9f else 0xbf

decode_from-three :
    (c : ℕ) (rest : List ℕ)
    → 0x800 ≤ c
    → c < 0x10000
    → IsScalar c
    → decode_from idle ((0xe0 + c / 4096) ∷ (0x80 + c / 64 % 64) ∷ (0x80 + c % 64) ∷ rest)
      ≡ c ∷ decode_from idle rest
decode_from-three c rest h k scalar =
    let b = 0xe0 + c / 4096 in
    decode_from-lead b 1 (c / 4096) (lower_three b) (upper_three b) _ (unfold lead in ground arith)
    ∙ decode_from-more 0 (c / 4096) (lower_three b) (upper_three b) (0x80 + c / 64 % 64) _
        (ground arith) (ground arith)
    ∙ decode_from-last (c / 4096 * 64 + (0x80 + c / 64 % 64) % 64) 0x80 0xbf (0x80 + c % 64) rest
        (omega arith) (omega arith)
    ∙ ap (λ (p : ℕ). p ∷ decode_from idle rest) (omega arith)

abbrev lower_four : ℕ → ℕ
lower_four b = if b == 0xf0 then 0x90 else 0x80

abbrev upper_four : ℕ → ℕ
upper_four b = if b == 0xf4 then 0x8f else 0xbf

decode_from-four :
    (c : ℕ) (rest : List ℕ)
    → 0x10000 ≤ c
    → c < 0x110000
    → decode_from idle (
        (0xf0 + c / 262144)
        ∷ (0x80 + c / 4096 % 64)
        ∷ (0x80 + c / 64 % 64)
        ∷ (0x80 + c % 64)
        ∷ rest)
      ≡ c ∷ decode_from idle rest
decode_from-four c rest h k =
    let b = 0xf0 + c / 262144 in
    let p = c / 262144 * 64 + (0x80 + c / 4096 % 64) % 64 in
    decode_from-lead b 2 (c / 262144) (lower_four b) (upper_four b) _ (unfold lead in ground arith)
    ∙ decode_from-more 1 (c / 262144) (lower_four b) (upper_four b) (0x80 + c / 4096 % 64) _
        (ground arith) (ground arith)
    ∙ decode_from-more 0 p 0x80 0xbf (0x80 + c / 64 % 64) _ (omega arith) (omega arith)
    ∙ decode_from-last (p * 64 + (0x80 + c / 64 % 64) % 64) 0x80 0xbf (0x80 + c % 64) rest
        (omega arith) (omega arith)
    ∙ ap (λ (p : ℕ). p ∷ decode_from idle rest) (omega arith)

decode_from-one :
    (c : ℕ) (rest : List ℕ) → c < 0x80 → decode_from idle (c ∷ rest) ≡ c ∷ decode_from idle rest
unfolding decode_from
decode_from-one c rest h = ground arith

decode_from-encode_char :
    (c : ℕ) (rest : List ℕ)
    → IsScalar c
    → decode_from idle (encode_char c ++ rest) ≡ c ∷ decode_from idle rest
unfolding encode_char
decode_from-encode_char c rest h = ground (
  arith,
  decode_from-one c rest,
  decode_from-two c rest,
  decode_from-three c rest,
  decode_from-four c rest,
)

decode_from-utf8_encode : (s : Text) → All IsScalar s → decode_from idle (utf8_encode s) ≡ s
unfolding utf8_encode
decode_from-utf8_encode [] h = unfold decode_from in refl
decode_from-utf8_encode (c ∷ s) (h, hs) =
    decode_from-encode_char c (utf8_encode s) h ∙ ap (◌∷◌ c) (decode_from-utf8_encode s hs)

-- What a text must be for the two to be inverse: scalars only, and no byte order mark in front.
abbrev pub StartsPlain : Text → Type 0
StartsPlain [] = Unit {0}
StartsPlain (c ∷ s) = c ≢ byte_order_mark

pub utf8_decode-encode :
    (s : Text) → All IsScalar s → StartsPlain s → utf8_decode (utf8_encode s) ≡ s
unfolding utf8_decode
utf8_decode-encode [] h p = unfold utf8_encode in refl
utf8_decode-encode (c ∷ s) h p = rw (decode_from-utf8_encode (c ∷ s) h) (ground arith)

pub buffer_text-encode : (s : Text) → All IsScalar s → buffer_text (utf8_encode s) ≡ s
unfolding buffer_text
buffer_text-encode s h = decode_from-utf8_encode s h

pub encode_char-IsByte : (c : ℕ) → c < 0x110000 → All (λ b. b < 256) (encode_char c)
unfolding encode_char
encode_char-IsByte c h = ground arith

-- What an encoder does to a text whose first character is the mark: it is lost on the way back.
pub utf8_decode-encode_mark :
    (s : Text) → All IsScalar s → utf8_decode (utf8_encode (byte_order_mark ∷ s)) ≡ s
unfolding utf8_decode
utf8_decode-encode_mark s h =
    rw (decode_from-utf8_encode (byte_order_mark ∷ s) (inr (omega arith), h))
