-- ===== src/Checkin/Once.antt =====
-- What a scan at the gate promises: who gets in, and that nobody gets in twice on one ticket
-- (`verifyAndCheckin` and `processSyncRecord` of backend/src/modules/checkin/checkin.service.ts).
use se_ticketbox.Prelude.{ℕ, ◌≡◌, false, Option, none, some, List, [], ◌∷◌, ◌++◌, arith}
use se_ticketbox.Prelude.Text.{Text}
use se_ticketbox.Store.{Ticket, TicketStatus, Result, ok, err}
use se_ticketbox.Ticket.Token.{Crypto}
use se_ticketbox.Checkin.Desk.{
  CheckinStatus, Desk, find_ticket, check_in, log_checkin_attempt, gates_differ, signature_fails,
  token_fails,
}
use se_ticketbox.Checkin.Verify.{VerifyTicketDto, online_log, verify_and_checkin}

abbrev pub StatusIs : TicketStatus → Option Ticket → Type 0
StatusIs s none = ⊥
StatusIs s (some t) = t.status ≡ s

abbrev CheckedIn : Text → List Ticket → Option (List Ticket) → Type 0
CheckedIn id ts none = Unit
CheckedIn id ts (some us) =
    StatusIs TicketStatus.issued (find_ticket id ts)
    × StatusIs TicketStatus.checked_in (find_ticket id us)

-- The conditional update finds the ticket ISSUED, and leaves it CHECKED_IN.
check_in_lem : (id : Text) (ts : List Ticket) → CheckedIn id ts (check_in id ts)
unfolding check_in find_ticket
check_in_lem id [] = tt
check_in_lem id (t ∷ ts) = ground (arith, check_in_lem id ts)

-- A ticket that is CHECKED_IN cannot be checked in.
pub check_in_again :
    (id : Text) (ts : List Ticket)
    → StatusIs TicketStatus.checked_in (find_ticket id ts)
    → check_in id ts ≡ none
unfolding check_in find_ticket
check_in_again id [] h = absurd h
check_in_again id (t ∷ ts) h = ground (arith, check_in_again id ts)

-- What a scan has checked where it lets a ticket in: the ticket is issued, the gates agree, the
-- signature is right or missing, and the token is the one whose hash is stored.
pub record Admissible (c : Crypto) (gate : Option Text) (token : Text) (t : Ticket) : Type 0 where
  pub was_issued : t.status ≡ TicketStatus.issued
  pub gates_agree : gates_differ gate t.gate_id ≡ false
  pub signature_holds : signature_fails c t ≡ false
  pub token_holds : token_fails c t token ≡ false

abbrev pub Verified : Crypto → VerifyTicketDto → ℕ → Desk → Result Ticket × Desk → Type 0
Verified c dto staff d (ok t, d') =
    (find_ticket dto.ticket_id d.tickets ≡ some t)
    × Admissible c dto.gate_id dto.token t
    × StatusIs TicketStatus.checked_in (find_ticket dto.ticket_id d'.tickets)
    × (d'.logs ≡ d.logs ++ online_log dto staff (some t.concert_id) CheckinStatus.success ∷ [])
Verified c dto staff d (err e, d') = d'.tickets ≡ d.tickets

-- `verifyAndCheckin` lets in only a ticket that is there, issued, for this gate and shown with its
-- own token; it then leaves the ticket checked in and one success in the log. A scan that throws
-- changes no ticket.
pub verify_checked :
    (c : Crypto) (dto : VerifyTicketDto) (staff : ℕ) (d : Desk)
    → Verified c dto staff d (verify_and_checkin c dto staff d)
unfolding verify_and_checkin log_checkin_attempt
verify_checked c dto staff d = ground (arith, check_in_lem dto.ticket_id d.tickets)

abbrev pub Refused {ℓ} : {A : Type ℓ} → Result A → Type 0
Refused (ok a) = ⊥
Refused (err e) = Unit

-- A ticket that has been let in is refused at every later scan, with any data.
pub verify_twice :
    (c : Crypto) (dto again : VerifyTicketDto) (staff other : ℕ) (d d' : Desk) {t : Ticket}
    → verify_and_checkin c dto staff d ≡ (ok t, d')
    → again.ticket_id ≡ dto.ticket_id
    → Refused (verify_and_checkin c again other d').0
unfolding verify_and_checkin log_checkin_attempt
verify_twice c dto again staff other d d' done same =
    ground
      (arith, same, done, verify_checked c dto staff d, check_in_again dto.ticket_id d'.tickets)
