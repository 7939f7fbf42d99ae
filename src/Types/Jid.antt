-- ===== src/Types/Jid.antt =====
-- packages/wazeko-types/src/jid.ts. Agents and devices are numbers of JavaScript, of which the model
-- has the safe integers, below 2 ^ 53 in absolute value: those print as their digits and are read
-- exactly. It says nothing of larger numbers, which are rounded and from 1e21 on print with an
-- exponent, of fractions, or of those that are not finite.
pub mod RoundTrip
use wazeko.Prelude.{ℕ, Bool, Option, none, some, List, [], ◌∷◌, ◌++◌, if◌then◌else◌}
use wazeko.Text.{Text, codes, text_eq}
use wazeko.Text.Decimal.{ℤ, is_digit, show_int, parse_int}
use wazeko.Text.Split.{trim, split, includes, is_empty}

pub record Jid : Type 0 where
  pub user : Text
  pub server : Text
  pub agent : Option ℤ
  pub device : Option ℤ

-- A parameter of type `Jid | string`.
pub data JidOrText : Type 0 where
  jid : Jid → JidOrText
  text : Text → JidOrText

pub data JidError : Type 0 where
  empty_jid : JidError
  invalid_format : Text → JidError

pub data Parsed : Type 0 where
  ok : Jid → Parsed
  err : JidError → Parsed

unfoldable pub keep_digits : Text → Text
keep_digits [] = []
keep_digits (c ∷ s) = let rest = keep_digits s in if is_digit c then c ∷ rest else rest

abbrev pub user_server : Text
user_server = codes "s.whatsapp.net"

abbrev pub group_server : Text
group_server = codes "g.us"

unfoldable pub jid_user : Text → Jid
unfolding keep_digits
jid_user phone_number = record {
  user = keep_digits phone_number;
  server = user_server;
  agent = none;
  device = none;
}

unfoldable pub jid_group : Text → Jid
jid_group group_id = record { user = group_id; server = group_server; agent = none; device = none }

-- `separator` and the number, if there is one.
abbrev pub suffix : ℕ → Option ℤ → Text
suffix separator none = []
suffix separator (some n) = separator ∷ show_int n

unfoldable pub jid_to_string : Jid → Text
jid_to_string j = ((j.user ++ suffix b'_' j.agent) ++ suffix b':' j.device) ++ b'@' ∷ j.server

-- The parts of a user name before and behind its first separator.
pub record Suffixed : Type 0 where
  pub name : Text
  pub number : Option ℤ

first_two : List Text → Suffixed
first_two [] = record { name = []; number = none }
first_two (u ∷ []) = record { name = u; number = none }
first_two (u ∷ n ∷ rest) = record { name = u; number = parse_int n }

-- `if (name.includes(separator)) { const [u, n] = name.split(separator); … }`.
unfoldable pub take_suffix : ℕ → Text → Suffixed
unfolding first_two
take_suffix separator name =
    if includes separator name
    then first_two (split separator name)
    else record { name = name; number = none }

unfoldable pub parse_parts : Text → List Text → Parsed
unfolding take_suffix
parse_parts whole (full_user ∷ server ∷ []) =
    let with_device = take_suffix b':' full_user in
    let with_agent = take_suffix b'_' with_device.name in
    ok (record {
      user = with_agent.name;
      server = server;
      agent = with_agent.number;
      device = with_device.number;
    })
parse_parts whole _ = err (invalid_format whole)

unfoldable pub parse_jid : Text → Parsed
unfolding parse_parts
parse_jid jid_string =
    let trimmed = trim jid_string in
    if is_empty trimmed then err empty_jid else parse_parts jid_string (split b'@' trimmed)

abbrev pub is_server : Text → Parsed → Option Bool
is_server server (ok j) = some (text_eq j.server server)
is_server server (err e) = none

-- The argument as a JID; a text that does not parse throws.
unfoldable pub resolve : JidOrText → Parsed
resolve (jid j) = ok j
resolve (text t) = parse_jid t

-- `none` is the exception of `parseJid`.
unfoldable pub is_jid_group : JidOrText → Option Bool
unfolding resolve
is_jid_group j = is_server group_server (resolve j)

unfoldable pub is_jid_user : JidOrText → Option Bool
unfolding resolve
is_jid_user j = is_server user_server (resolve j)
