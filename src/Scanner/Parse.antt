-- ===== src/Scanner/Parse.antt =====
-- The text of a QR code as the scanner app reads it: `parseQrPayload` of
-- frontend/checkin-pwa/src/hooks/useOfflineCheckin.ts, beside the backend's payload.
use se_ticketbox.Prelude.{
  ℕ, ◌≡◌, refl, Bool, true, false, not, ◌&&◌, ◌||◌, Option, none, some, List, [], ◌∷◌, ◌++◌,
  reverse, leb, ◌==◌, if◌then◌else◌, arith, Bool-cases, inl, inr,
}
use se_ticketbox.Prelude.Text.{Text, is_empty}
use se_ticketbox.Ticket.Qr.{
  colon, extend, split, split-append, QrParts, build_qr_payload, parse_qr_payload,
  parse_qr_payload-build_qr_payload, from_parts, plain,
}

-- White space and line ends of JavaScript.
abbrev pub is_space : ℕ → Bool
is_space c =
    (leb 9 c && leb c 13)
    || ((c == 32 || (c == 160 || c == 5760))
        || ((leb 8192 c && leb c 8202)
            || ((c == 8232 || c == 8233)
                || ((c == 8239 || c == 8287) || (c == 12288 || c == 65279)))))

unfoldable pub trim_start : Text → Text
trim_start [] = []
trim_start (x ∷ xs) = if is_space x then trim_start xs else x ∷ xs

unfoldable pub trim : Text → Text
unfolding trim_start
trim s = reverse (trim_start (reverse (trim_start s)))

-- `join(':')`.
unfoldable pub join : List Text → Text
join [] = []
join (p ∷ []) = p
join (p ∷ q ∷ ps) = p ++ (colon ∷ join (q ∷ ps))

-- The first two parts, and the others joined.
unfoldable pub scan_parts : List Text → Option QrParts
unfolding join
scan_parts (id ∷ token ∷ g ∷ gs) =
    let gate = join (g ∷ gs) in
    if (not (is_empty id) && not (is_empty token)) && not (is_empty gate)
    then some (record { ticket_id = id; raw_token = token; gate_id = gate })
    else none
scan_parts _ = none

-- `parseQrPayload` of the app.
unfoldable pub parse_scan : Text → Option QrParts
unfolding trim scan_parts
parse_scan raw = scan_parts (split (trim raw))

join-extend : (x : ℕ) (ps : List Text) → join (extend x ps) ≡ x ∷ join ps
unfolding join
join-extend x [] = refl
join-extend x (p ∷ []) = refl
join-extend x (p ∷ q ∷ ps) = refl

-- Splitting gives at least one part.
abbrev NonEmpty : List Text → Type 0
NonEmpty [] = ⊥
NonEmpty (p ∷ ps) = Unit

split-NonEmpty : (s : Text) → NonEmpty (split s)
unfolding split
split-NonEmpty [] = tt
split-NonEmpty (x ∷ xs) = one (x == colon) (split xs)
  where
    one : (b : Bool) (ps : List Text) → NonEmpty (if b then [] ∷ ps else extend x ps)
    one true ps = tt
    one false [] = tt
    one false (p ∷ ps) = tt

join_cons : (ps : List Text) → NonEmpty ps → join ([] ∷ ps) ≡ colon ∷ join ps
unfolding join
join_cons [] h = absurd h
join_cons (p ∷ ps) h = refl

-- The parts joined again are the text.
join-split : (s : Text) → join (split s) ≡ s
unfolding split join
join-split [] = refl
join-split (x ∷ xs) =
    ground
      (arith, join-split xs, join-extend x (split xs), join_cons (split xs) (split-NonEmpty xs))

parse_parts :
    (id raw_token : Text) (ps : List Text)
    → NonEmpty ps
    → is_empty id ≡ false
    → is_empty raw_token ≡ false
    → is_empty (join ps) ≡ false
    → scan_parts (id ∷ raw_token ∷ ps)
      ≡ some (record { ticket_id = id; raw_token = raw_token; gate_id = join ps })
unfolding scan_parts
parse_parts id raw_token [] n a b g = absurd n
parse_parts id raw_token (p ∷ ps) n a b g = ground (arith, a, b, g)

abbrev Two : List Text → Type 0
Two [] = ⊥
Two (p ∷ []) = ⊥
Two (p ∷ q ∷ ps) = Unit

-- A text with a colon has two parts.
split-Two : (s : Text) → plain s ≡ false → Two (split s)
unfolding split plain
split-Two [] h = ground arith
split-Two (x ∷ xs) h =
    one (x == colon) (split xs) (split-NonEmpty xs)
      (λ other. split-Two xs (ground (arith, h, other)))
  where
    one :
        (b : Bool) (ps : List Text)
        → NonEmpty ps
        → (b ≡ false → Two ps)
        → Two (if b then [] ∷ ps else extend x ps)
    one true [] n two = n
    one true (p ∷ ps) n two = tt
    one false [] n two = n
    one false (p ∷ []) n two = two refl
    one false (p ∷ q ∷ ps) n two = tt

Two-from_parts :
    (id raw_token : Text) (ps : List Text) → Two ps → from_parts (id ∷ raw_token ∷ ps) ≡ none
unfolding from_parts
Two-from_parts id raw_token [] h = absurd h
Two-from_parts id raw_token (p ∷ []) h = absurd h
Two-from_parts id raw_token (p ∷ q ∷ ps) h = refl

-- The app reads a backend payload as it was built, where the id, the token and the gate are not
-- empty, the id and the token have no colon and nothing is trimmed. The backend's own parser reads
-- the same, but refuses the payload where the gate's name has a colon.
pub parse_scan-build_qr_payload :
    (id raw_token gate_id : Text)
    → plain id ≡ true
    → plain raw_token ≡ true
    → is_empty id ≡ false
    → is_empty raw_token ≡ false
    → is_empty gate_id ≡ false
    → trim (build_qr_payload id raw_token gate_id) ≡ build_qr_payload id raw_token gate_id
    → let parts : QrParts = record { ticket_id = id; raw_token = raw_token; gate_id = gate_id } in
      (parse_scan (build_qr_payload id raw_token gate_id) ≡ some parts)
      × (parse_qr_payload (build_qr_payload id raw_token gate_id)
          ≡ (if plain gate_id then some parts else none))
unfolding parse_scan build_qr_payload parse_qr_payload
parse_scan-build_qr_payload id raw_token gate_id a b c d e t =
    let parts : split (build_qr_payload id raw_token gate_id) ≡ id ∷ raw_token ∷ split gate_id =
      ground (
        arith,
        split-append id (raw_token ++ (colon ∷ gate_id)) a,
        split-append raw_token gate_id b,
      ) in
    (
      ground (
        arith,
        t,
        parts,
        join-split gate_id,
        parse_parts id raw_token (split gate_id) (split-NonEmpty gate_id) c d,
        e,
      ),
      elim (Bool-cases (plain gate_id)) [
        | inl y ↦
            rw y
              (ground (arith, e, parse_qr_payload-build_qr_payload id raw_token gate_id a b y c d))
        | inr y ↦ rw (y, parts) (Two-from_parts id raw_token (split gate_id) (split-Two gate_id y))
      ],
    )
