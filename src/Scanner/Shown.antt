-- ===== src/Scanner/Shown.antt =====
-- A ticket from the customer's screen to the gate: the QR code of
-- backend/src/modules/ticket/ticket.service.ts, read by the scanner app
-- (frontend/checkin-pwa/src/hooks/useOfflineCheckin.ts) and verified by
-- backend/src/modules/checkin/checkin.service.ts.
use se_ticketbox.Prelude.{ℕ, ◌≡◌, true, false, Option, none, some, List, [], ◌∷◌, arith}
use se_ticketbox.Prelude.Text.{Text, text_eq-eq, is_empty}
use se_ticketbox.Store.{Db, Ticket, TicketStatus, ok}
use se_ticketbox.Ticket.Token.{Crypto}
use se_ticketbox.Ticket.Qr.{QrParts, plain}
use se_ticketbox.Ticket.Queries.{payload_of, get_ticket_qr_data}
use se_ticketbox.Checkin.Desk.{Desk, find_ticket, check_in, log_checkin_attempt, logged, or_empty}
use se_ticketbox.Checkin.Verify.{VerifyTicketDto, verify_and_checkin, verify_found, enter}
use se_ticketbox.Checkin.Once.{Admissible}
use se_ticketbox.Scanner.{
  Device, delivered, valid, verify_dto, handle_scan, scan_parsed, scan_online, gate_or_none,
}
use se_ticketbox.Scanner.Guard.{check_in-AsCheckedIn}
use se_ticketbox.Scanner.Parse.{trim, parse_scan, parse_scan-build_qr_payload}

abbrev CanEnter : Option (List Ticket) → Type 0
CanEnter none = ⊥
CanEnter (some us) = Unit

-- The conditional update goes through where the ticket is issued.
check_in-CanEnter :
    (id : Text) (ts : List Ticket) (t : Ticket)
    → find_ticket id ts ≡ some t
    → t.status ≡ TicketStatus.issued
    → CanEnter (check_in id ts)
unfolding check_in find_ticket
check_in-CanEnter id [] t found issued = ground arith
check_in-CanEnter id (u ∷ ts) t found issued =
    ground (arith, found, issued, check_in-CanEnter id ts t)

find_ticket-id :
    (id : Text) (ts : List Ticket) (t : Ticket) → find_ticket id ts ≡ some t → t.id ≡ id
unfolding find_ticket
find_ticket-id id [] t h = ground arith
find_ticket-id id (u ∷ ts) t h = ground (arith, h, text_eq-eq u.id id, find_ticket-id id ts t)

-- A ticket that passes every check is let in.
verify-Admissible :
    (c : Crypto) (dto : VerifyTicketDto) (staff : ℕ) (d : Desk) (t : Ticket)
    → find_ticket dto.ticket_id d.tickets ≡ some t
    → Admissible c dto.gate_id dto.token t
    → (verify_and_checkin c dto staff d).0 ≡ ok t
unfolding verify_and_checkin verify_found enter log_checkin_attempt logged
verify-Admissible c dto staff d t found a = ground (
  arith,
  found,
  a.gates_agree,
  a.signature_holds,
  a.token_holds,
  check_in-CanEnter dto.ticket_id d.tickets t found a.was_issued,
  check_in-AsCheckedIn dto.ticket_id d.tickets,
)

-- The code that a customer is given for a ticket is let in by the scanner app, online, at a gate that
-- agrees with the ticket's: where the app gets the answer and the ticket passes the checks of a scan,
-- its id, token and gate are not empty, the id and the token have no colon and nothing is trimmed.
pub qr_data_scanned :
    (c : Crypto) (staff user event_id : ℕ) (id payload : Text) (t : Ticket) (device : Device)
    (db : Db) (desk : Desk)
    → get_ticket_qr_data id user db ≡ ok payload
    → find_ticket id db.tickets ≡ some t
    → find_ticket id desk.tickets ≡ some t
    → Admissible c (gate_or_none device.gate) t.qr_raw_token t
    → plain t.id ≡ true
    → plain t.qr_raw_token ≡ true
    → is_empty t.id ≡ false
    → is_empty t.qr_raw_token ≡ false
    → is_empty (or_empty t.gate_id) ≡ false
    → trim payload ≡ payload
    → (handle_scan c staff true delivered event_id payload (device, desk)).0 ≡ valid false
unfolding handle_scan scan_parsed scan_online get_ticket_qr_data
qr_data_scanned c staff user event_id id payload t device db desk given stored at_desk a p q f g h
      trimmed =
    let parts : QrParts = record {
      ticket_id = t.id;
      raw_token = t.qr_raw_token;
      gate_id = or_empty t.gate_id;
    } in
    let same : payload_of t ≡ payload = ground (arith, given, stored) in
    let untrimmed : trim (payload_of t) ≡ payload_of t = ground (arith, same, trimmed) in
    let read : parse_scan payload ≡ some parts = ground (
      arith,
      same,
      parse_scan-build_qr_payload t.id t.qr_raw_token (or_empty t.gate_id) p q f g h untrimmed,
    ) in
    let here : find_ticket t.id desk.tickets ≡ some t =
      ground (arith, at_desk, find_ticket-id id desk.tickets t at_desk) in
    ground (arith, read, verify-Admissible c (verify_dto device parts) staff desk t here a)
