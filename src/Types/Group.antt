-- ===== src/Types/Group.antt =====
-- packages/wazeko-types/src/group.ts.
use wazeko.Prelude.{ℕ, Bool, Option, List}
use wazeko.Text.{Text}
use wazeko.Types.Jid.{Jid}

pub data ParticipantRole : Type 0 where
  member admin superadmin : ParticipantRole

pub record GroupParticipant : Type 0 where
  pub id : Jid
  pub role : ParticipantRole

pub record GroupMetadata : Type 0 where
  pub id : Jid
  pub subject : Text
  pub description : Option Text
  pub owner : Option Jid
  pub creation_time : ℕ
  pub participants : List GroupParticipant
  pub restrict : Bool
  pub announce : Bool
