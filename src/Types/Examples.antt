-- ===== src/Types/Examples.antt =====
-- packages/wazeko-types/src: the theorems on JIDs at a concrete JID.
use wazeko.Prelude.{◌≡◌, arith, none, some}
use wazeko.Text.{codes}
use wazeko.Text.Decimal.{pos}
use wazeko.Types.Jid.{Jid, ok, jid_to_string, parse_jid}
use wazeko.Types.Jid.RoundTrip.{IsPlain, parse_jid-jid_to_string}

abbrev linked_device : Jid
linked_device = record {
  user = codes "628123";
  server = codes "s.whatsapp.net";
  agent = none;
  device = some (pos 12);
}

linked_device-IsPlain : IsPlain linked_device
unfolding wazeko.Text.Split.is_space
linked_device-IsPlain = record {
  solid_user = ground arith;
  solid_server = ground arith;
  user_at = ground arith;
  user_colon = ground arith;
  user_underscore = ground arith;
  server_at = ground arith;
  safe_agent = tt;
  safe_device = omega arith;
}

parse_jid-jid_to_string_example : parse_jid (jid_to_string linked_device) ≡ ok linked_device
parse_jid-jid_to_string_example = parse_jid-jid_to_string linked_device linked_device-IsPlain
