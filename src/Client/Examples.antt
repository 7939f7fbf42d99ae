-- ===== src/Client/Examples.antt =====
-- packages/wazeko/src: the theorems on group requests and messages at concrete ones.
use wazeko.Prelude.{◌≡◌, refl, none, false, [], ◌∷◌, arith, List}
use wazeko.Text.{codes}
use wazeko.Types.Jid.{Jid, JidOrText, jid, text, jid_user, keep_digits}
use wazeko.Text.Split.{includes}
use wazeko.Types.Message.{Message, MessageContent}
use wazeko.Types.Events.{connected}
use wazeko.Protocol.Decoder.{done, decode}
use wazeko.Protocol.Words.{word}
use wazeko.Client.{Wazeko, returned}
use wazeko.Client.Groups.{resolve_jid, resolve_user_jid}
use wazeko.Client.Messaging.{new_message}
use wazeko.Client.Groups.Delivery.{removes, call_of, requested, call_of-decode}

abbrev team : Jid
team = record { user = codes "12036"; server = codes "g.us"; agent = none; device = none }

abbrev people : List Jid
people =
    record { user = codes "62811"; server = codes "s.whatsapp.net"; agent = none; device = none }
    ∷ record { user = codes "62812"; server = codes "s.whatsapp.net"; agent = none; device = none }
    ∷ []

abbrev client : Wazeko
client = record {
  credentials = record { me = none; registered = false };
  state = connected;
  event_queue = record { queue = []; waiters = []; closed = false; asked = 0; deliveries = [] };
  encoder = record { buffer = 9 ∷ [] };
  emitted = [];
}

-- The first of them by its number.
abbrev given : List JidOrText
given =
    text (codes "+62 811")
    ∷ jid (record {
      user = codes "62812";
      server = codes "s.whatsapp.net";
      agent = none;
      device = none;
    })
    ∷ []

call_of-decode_example :
    ((call_of removes (jid team) given client).0 ≡ returned tt)
    × (decode 4 (call_of removes (jid team) given client).1.encoder.buffer
        ≡ done (requested removes team people))
    × ((call_of removes (jid team) given client).1.emitted ≡ [])
    × ((call_of removes (jid team) given client).1.event_queue ≡ client.event_queue)
unfolding resolve_jid resolve_user_jid jid_user keep_digits includes
call_of-decode_example =
    call_of-decode removes (jid team) team given people client 4 refl (refl, (refl, tt))
      (word _ refl refl) (word _ refl refl, (word _ refl refl, tt)) (omega arith) (omega arith)

abbrev hello : Message
hello =
    new_message (text (codes "+62 811")) (MessageContent.text (codes "hi")) (codes "0A") 5000 client
