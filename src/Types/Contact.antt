-- ===== src/Types/Contact.antt =====
-- packages/wazeko-types/src/contact.ts.
use wazeko.Prelude.{Option}
use wazeko.Text.{Text}
use wazeko.Types.Jid.{Jid}

pub record Contact : Type 0 where
  pub id : Jid
  pub name : Option Text
  pub notify : Option Text
  pub verified_name : Option Text
  pub status : Option Text
