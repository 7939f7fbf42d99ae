-- ===== src/Auth/Pairing.antt =====
-- packages/wazeko-auth/src/pairing.ts and packages/wazeko-auth/src/qr.ts.
use wazeko.Prelude.{Bool, ℕ, Option, none, some, List, [], ◌∷◌, ◌++◌, get_elem?}
use wazeko.Text.{Text, codes}
use wazeko.Text.Decimal.{decimal}
use wazeko.Types.Events.{PairingCodeEvent, QrCodeEvent}

abbrev pub charset : Text
charset = codes "23456789ABCDEFGHJKLMNPQRSTUVWXYZ"

pub record PairingCodeManager : Type 0 where
  pub current_code : Option PairingCodeEvent

-- `charset[i]`, added to a text.
abbrev drawn : Option ℕ → Text
drawn (some c) = c ∷ []
drawn none = codes "undefined"

-- The loop, with the draws of each round for both parts.
unfoldable pub draw_parts : List (ℕ × ℕ) → Text → Text → Text × Text
draw_parts [] p1 p2 = (p1, p2)
draw_parts ((i, j) ∷ draws) p1 p2 =
    draw_parts draws (p1 ++ drawn (get_elem? charset i)) (p2 ++ drawn (get_elem? charset j))

-- `draws` are the four rounds.
unfoldable pub generate_code :
    ℕ → List (ℕ × ℕ) → PairingCodeManager → PairingCodeEvent × PairingCodeManager
unfolding draw_parts
generate_code expires_in_seconds draws m =
    let parts = draw_parts draws [] [] in
    let event : PairingCodeEvent = record {
      code = parts.0 ++ (codes "-" ++ parts.1);
      expires_in_seconds = expires_in_seconds;
    } in
    (event, record { current_code = some event })

pub record QrCodeManager : Type 0 where
  pub current_qr : Option QrCodeEvent

unfoldable pub update_qr : Text → ℕ → ℕ → QrCodeManager → QrCodeEvent × QrCodeManager
update_qr raw attempts timeout_seconds m =
    let event : QrCodeEvent = record {
      raw = raw;
      attempts = attempts;
      timeout_seconds = timeout_seconds;
    } in
    (event, record { current_qr = some event })

-- The lines that a manager prints, and what `current` gives; `generate` is what `qrcode-terminal`
-- draws of a text, small or not.
abbrev printed_code : Option PairingCodeEvent → List Text
printed_code none = []
printed_code (some event) =
    codes "\n=============================="
    ∷ (codes "  WHATSAPP PAIRING CODE: " ++ event.code)
    ∷ (codes "  Expires in: " ++ decimal event.expires_in_seconds ++ codes "s")
    ∷ codes "==============================\n"
    ∷ []

unfoldable pub print_code : PairingCodeManager → List Text
unfolding decimal
print_code m = printed_code m.current_code

abbrev pub current : PairingCodeManager → Option PairingCodeEvent
current m = m.current_code

abbrev printed_qr : (Text → Bool → Text) → Bool → Option QrCodeEvent → List Text
printed_qr generate small none = []
printed_qr generate small (some event) =
    (codes "\n=== SCAN WHATSAPP QR CODE (Attempt #" ++ decimal event.attempts ++ codes ") ===")
    ∷ generate event.raw small
    ∷ codes "===================================================\n"
    ∷ []

unfoldable pub print_terminal : (Text → Bool → Text) → Bool → QrCodeManager → List Text
unfolding decimal
print_terminal generate small m = printed_qr generate small m.current_qr

abbrev pub current_event : QrCodeManager → Option QrCodeEvent
current_event m = m.current_qr
