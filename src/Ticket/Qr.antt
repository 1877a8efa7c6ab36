-- ===== src/Ticket/Qr.antt =====
-- The text in the QR code: `buildQrPayload` and `parseQrPayload` of
-- backend/src/modules/ticket/utils/qr-payload.util.ts.
use se_ticketbox.Prelude.{
  ℕ, ◌≡◌, refl, Bool, true, false, not, ◌&&◌, Option, none, some, List, [], ◌∷◌, ◌++◌, ◌==◌,
  if◌then◌else◌, arith,
}
use se_ticketbox.Prelude.Text.{Text, is_empty}

abbrev pub colon : ℕ
colon = b':'

unfoldable pub build_qr_payload : Text → Text → Text → Text
build_qr_payload id raw_token gate_id = id ++ (colon ∷ (raw_token ++ (colon ∷ gate_id)))

-- A code point in front of the first part.
abbrev pub extend : ℕ → List Text → List Text
extend x [] = (x ∷ []) ∷ []
extend x (p ∷ ps) = (x ∷ p) ∷ ps

-- `payload.split(':')`, which has a part even for an empty text.
unfoldable pub split : Text → List Text
split [] = [] ∷ []
split (x ∷ xs) = let rest = split xs in if x == colon then [] ∷ rest else extend x rest

pub record QrParts : Type 0 where
  pub ticket_id : Text
  pub raw_token : Text
  pub gate_id : Text

unfoldable pub from_parts : List Text → Option QrParts
from_parts (a ∷ b ∷ c ∷ []) =
    if (not (is_empty a) && not (is_empty b)) && not (is_empty c)
    then some (record { ticket_id = a; raw_token = b; gate_id = c })
    else none
from_parts _ = none

unfoldable pub parse_qr_payload : Text → Option QrParts
parse_qr_payload payload = from_parts (split payload)

-- No colon in the text.
unfoldable pub plain : Text → Bool
plain [] = true
plain (x ∷ xs) = not (x == colon) && plain xs

pub split-plain : (s : Text) → plain s ≡ true → split s ≡ s ∷ []
unfolding split plain
split-plain [] h = refl
split-plain (x ∷ xs) h = ground (arith, h, split-plain xs)

pub split-append : (s t : Text) → plain s ≡ true → split (s ++ (colon ∷ t)) ≡ s ∷ split t
unfolding split plain
split-append [] t h = ground arith
split-append (x ∷ xs) t h = ground (arith, h, split-append xs t)

-- A payload is read back as it was built, where the id and the token are not empty and no part has a
-- colon in it; but without a gate it is refused.
pub parse_qr_payload-build_qr_payload :
    (id raw_token gate_id : Text)
    → plain id ≡ true
    → plain raw_token ≡ true
    → plain gate_id ≡ true
    → is_empty id ≡ false
    → is_empty raw_token ≡ false
    → parse_qr_payload (build_qr_payload id raw_token gate_id) ≡ (
        if is_empty gate_id
        then none
        else some (record { ticket_id = id; raw_token = raw_token; gate_id = gate_id }))
unfolding parse_qr_payload build_qr_payload from_parts
parse_qr_payload-build_qr_payload id raw_token gate_id a b c d e = ground (
  arith,
  a,
  b,
  c,
  d,
  e,
  split-append id (raw_token ++ (colon ∷ gate_id)) a,
  split-append raw_token gate_id b,
  split-plain gate_id c,
)
