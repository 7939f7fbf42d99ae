-- ===== src/Types/Jid/RoundTrip.antt =====
-- packages/wazeko-types/src/jid.ts: printing a JID and parsing it back.
use wazeko.Prelude.{
  ℕ, ◌≡◌, ◌≢◌, refl, ap, ◌∙◌, false, Option, none, some, [], ◌∷◌, ◌++◌, append-nil, arith,
  All-append, ◌==◌, ◌<◌, ◌^◌, suc,
}
use wazeko.Text.{Text}
use wazeko.Text.Decimal.{
  ℤ, is_digit, show_int, parse_int-show_int, show_int-IsNumeral, show_int-IsSolid, Lacks-numeral,
  pos, negsuc,
}
use wazeko.Text.Split.{
  is_space, split, Lacks, IsSolid, is_empty, split-append, split-lacking, includes-lacking,
  includes-append, trim-solid,
}
use wazeko.Types.Jid.{Jid, ok, suffix, jid_to_string, take_suffix, parse_parts, parse_jid}

-- A number that JavaScript holds exactly and prints as its digits.
abbrev IsSafe : ℤ → Type 0
IsSafe (pos n) = n < 2 ^ 53
IsSafe (negsuc n) = suc n < 2 ^ 53

abbrev IsSafeOption : Option ℤ → Type 0
IsSafeOption none = Unit
IsSafeOption (some n) = IsSafe n

-- A JID whose parts hold no white space and none of the separators that would cut them, and whose
-- numbers are safe integers.
pub record IsPlain (j : Jid) : Type 0 where
  pub solid_user : IsSolid j.user
  pub solid_server : IsSolid j.server
  pub user_at : Lacks b'@' j.user
  pub user_colon : Lacks b':' j.user
  pub user_underscore : Lacks b'_' j.user
  pub server_at : Lacks b'@' j.server
  pub safe_agent : IsSafeOption j.agent
  pub safe_device : IsSafeOption j.device

suffix-IsSolid : (sep : ℕ) (n : Option ℤ) → is_space sep ≡ false → IsSolid (suffix sep n)
suffix-IsSolid sep none h = tt
suffix-IsSolid sep (some n) h = (h, show_int-IsSolid n)

suffix-Lacks :
    (sep other : ℕ) (n : Option ℤ)
    → (other == sep) ≡ false
    → is_digit sep ≡ false
    → sep ≢ b'-'
    → Lacks sep (suffix other n)
suffix-Lacks sep other none h d m = tt
suffix-Lacks sep other (some n) h d m = (h, Lacks-numeral sep _ d m (show_int-IsNumeral n))

-- Cutting a suffix off the name that it was put to.
take_suffix-suffix :
    (sep : ℕ) (name : Text) (n : Option ℤ)
    → Lacks sep name
    → is_digit sep ≡ false
    → sep ≢ b'-'
    → take_suffix sep (name ++ suffix sep n) ≡ record { name = name; number = n }
unfolding take_suffix
take_suffix-suffix sep name none h d m = rw (append-nil name, includes-lacking sep name h)
take_suffix-suffix sep name (some n) h d m = rw (
  includes-append sep name (show_int n),
  split-append sep name (show_int n) h,
  split-lacking sep (show_int n) (Lacks-numeral sep _ d m (show_int-IsNumeral n)),
  parse_int-show_int n,
)

-- The name with both suffixes, as `jidToString` puts it before the '@'.
abbrev full_user : Jid → Text
full_user j = (j.user ++ suffix b'_' j.agent) ++ suffix b':' j.device

full_user-IsSolid : (j : Jid) → IsPlain j → IsSolid (full_user j)
full_user-IsSolid j p =
    All-append _ _ _
      (All-append _ _ _ p.solid_user (suffix-IsSolid b'_' j.agent (unfold is_space in refl)))
      (suffix-IsSolid b':' j.device (unfold is_space in refl))

full_user-Lacks_at : (j : Jid) → IsPlain j → Lacks b'@' (full_user j)
full_user-Lacks_at j p =
    All-append _ _ _
      (All-append _ _ _ p.user_at (suffix-Lacks b'@' b'_' j.agent refl refl (omega arith)))
      (suffix-Lacks b'@' b':' j.device refl refl (omega arith))

jid_to_string-IsSolid : (j : Jid) → IsPlain j → IsSolid (jid_to_string j)
unfolding jid_to_string
jid_to_string-IsSolid j p =
    All-append _ _ _ (full_user-IsSolid j p) (unfold is_space in refl, p.solid_server)

parse_parts-full_user :
    (whole : Text) (j : Jid) → IsPlain j → parse_parts whole (full_user j ∷ j.server ∷ []) ≡ ok j
unfolding parse_parts
parse_parts-full_user whole j p =
    let before_device =
      All-append (λ c. (c == b':') ≡ false) _ _ p.user_colon
        (suffix-Lacks b':' b'_' j.agent refl refl (omega arith)) in
    rw (
      take_suffix-suffix b':' (j.user ++ suffix b'_' j.agent) j.device before_device refl
          (omega arith),
      take_suffix-suffix b'_' j.user j.agent p.user_underscore refl (omega arith),
    )

nonempty : (s t : Text) (c : ℕ) → is_empty (s ++ c ∷ t) ≡ false
nonempty [] t c = refl
nonempty (d ∷ s) t c = refl

-- Parsing the text of a JID gives the JID back, with its agent and its device if it has any, where
-- its parts hold no white space and no separator that would cut them, and its agent and its device
-- are safe integers.
pub parse_jid-jid_to_string : (j : Jid) → IsPlain j → parse_jid (jid_to_string j) ≡ ok j
unfolding parse_jid
parse_jid-jid_to_string j p =
    let cut : split b'@' (jid_to_string j) ≡ full_user j ∷ j.server ∷ [] =
      unfold jid_to_string in
      split-append b'@' (full_user j) j.server (full_user-Lacks_at j p)
      ∙ ap (◌∷◌ (full_user j)) (split-lacking b'@' j.server p.server_at) in
    let filled : is_empty (jid_to_string j) ≡ false =
      unfold jid_to_string in nonempty (full_user j) j.server b'@' in
    rw (trim-solid (jid_to_string j) (jid_to_string-IsSolid j p), filled, cut)
      (parse_parts-full_user (jid_to_string j) j p)
