-- ===== src/Scanner/Guard.antt =====
-- The app's guard against a second offline scan of a ticket
-- (frontend/checkin-pwa/src/hooks/useOfflineCheckin.ts, frontend/checkin-pwa/src/lib/idb.ts), and a
-- scan whose answer is lost.
use se_ticketbox.Prelude.{
  ℕ, ◌+◌, ◌≤◌, ◌≡◌, refl, subst, true, false, not, ◌&&◌, Option, none, some, List, [], ◌∷◌, ◌++◌,
  if◌then◌else◌, arith,
}
use se_ticketbox.Prelude.Text.{Text, text_eq}
use se_ticketbox.Store.{Ticket, TicketStatus, ok}
use se_ticketbox.Ticket.Qr.{QrParts}
use se_ticketbox.Ticket.Token.{Crypto}
use se_ticketbox.Checkin.Desk.{
  CheckinStatus, CheckinLog, Desk, find_ticket, check_in, find_log, logged, log_checkin_attempt,
  gates_differ, signature_fails, token_fails,
}
use se_ticketbox.Checkin.Verify.{VerifyTicketDto, verify_and_checkin, online_log}
use se_ticketbox.Checkin.Sync.{process_sync_record, sync_new, sync_found, admit}
use se_ticketbox.Checkin.Once.{Verified, verify_checked, check_in_again}
use se_ticketbox.Scanner.{Device, gate_or_none, new_record, verify_dto}
use se_ticketbox.Scanner.Idb.{OfflineScan, has_ticket_been_scanned}

-- The unsynced scans of a ticket.
unfoldable pub queued : Text → List OfflineScan → ℕ
queued id [] = 0
queued id (s ∷ ss) = (if not s.synced && text_eq s.scan.ticket_id id then 1 else 0) + queued id ss

-- A ticket has at most one unsynced scan, and none where the device's guard does not know it.
abbrev pub Guarded : Device → Type 0
Guarded device =
    (id : Text)
    → queued id device.logs + (if has_ticket_been_scanned id device.scanned then 0 else 1) ≤ 1

abbrev pub AsCheckedIn : Text → List Ticket → Option (List Ticket) → Type 0
AsCheckedIn id ts none = Unit
AsCheckedIn id ts (some us) = find_ticket id us ≡ elim (find_ticket id ts) [
  | none ↦ none
  | some t ↦ some (record t { status = TicketStatus.checked_in })
]

pub check_in-AsCheckedIn : (id : Text) (ts : List Ticket) → AsCheckedIn id ts (check_in id ts)
unfolding check_in find_ticket
check_in-AsCheckedIn id [] = tt
check_in-AsCheckedIn id (t ∷ ts) = ground (arith, check_in-AsCheckedIn id ts)

gates_same :
    (gate : Text) (o : Option Text)
    → gates_differ (some gate) o ≡ gates_differ (gate_or_none gate) o
unfolding gates_differ
gates_same gate none = ground arith
gates_same gate (some g) = ground arith

find_log-online :
    (device event : ℕ) (ls : List CheckinLog) (l : CheckinLog)
    → l.offline_event_id ≡ none
    → find_log device event (ls ++ l ∷ []) ≡ find_log device event ls
unfolding find_log
find_log-online device event [] l h = ground arith
find_log-online device event (m ∷ ls) l h = ground (arith, find_log-online device event ls l h)

-- The ticket as it stands after it has been let in.
abbrev let_in : Ticket → Ticket
let_in t = record t { status = TicketStatus.checked_in }

-- The signature and the token do not depend on the status.
same_checks :
    (c : Crypto) (t : Ticket) (token : Text)
    → (signature_fails c (let_in t) ≡ signature_fails c t)
      × (token_fails c (let_in t) token ≡ token_fails c t token)
unfolding signature_fails token_fails
same_checks c t token = (refl, refl)

verified_row :
    (c : Crypto) (dto : VerifyTicketDto) (staff : ℕ) (d d' : Desk) (t : Ticket)
    → verify_and_checkin c dto staff d ≡ (ok t, d')
    → find_ticket dto.ticket_id d'.tickets ≡ some (let_in t)
unfolding verify_and_checkin log_checkin_attempt
verified_row c dto staff d d' t done =
    ground (arith, done, check_in-AsCheckedIn dto.ticket_id d.tickets)

-- Where the backend lets a ticket in but its answer does not arrive, the app queues the scan under a
-- new event, and its upload is then refused as a conflict, though the ticket was let in by that scan.
lost_answer_conflicts :
    (c : Crypto) (staff other event_id : ℕ) (p : QrParts) (device : Device) (d d' : Desk)
    (t : Ticket)
    → verify_and_checkin c (verify_dto device p) staff d ≡ (ok t, d')
    → find_log device.id event_id d.logs ≡ none
    → (process_sync_record c (new_record device event_id p) other d').0
      ≡ ok (record { success = false; status = CheckinStatus.rejected_conflict; conflict = true })
unfolding process_sync_record sync_new sync_found admit log_checkin_attempt logged
lost_answer_conflicts c staff other event_id p device d d' t done new =
    let dto = verify_dto device p in
    let (found, admissible, status, logs) =
      subst (Verified c dto staff d) done (verify_checked c dto staff d) in
    let l = online_log dto staff (some t.concert_id) CheckinStatus.success in
    let unlogged : find_log device.id event_id d'.logs ≡ none =
      ground (arith, logs, new, find_log-online device.id event_id d.logs l refl) in
    let (signature, token) = same_checks c t p.raw_token in
    ground (
      arith,
      unlogged,
      verified_row c dto staff d d' t done,
      check_in_again p.ticket_id d'.tickets status,
      gates_same device.gate t.gate_id,
      admissible.gates_agree,
      admissible.signature_holds,
      admissible.token_holds,
      signature,
      token,
    )
