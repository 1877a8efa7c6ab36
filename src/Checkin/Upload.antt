-- ===== src/Checkin/Upload.antt =====
-- Uploads of offline scans: a record that is sent again, a ticket that is not there, and the count of
-- the answer (`syncCheckin` and `processSyncRecord` of backend/src/modules/checkin/checkin.service.ts).
use se_ticketbox.Prelude.{
  ℕ, ◌+◌, ◌≡◌, refl, subst, Bool, true, false, Option, none, some, List, [], ◌∷◌, ◌++◌,
  if◌then◌else◌, arith, Option-cases, Bool-cases, inl, inr, length,
}
use se_ticketbox.Store.{Ticket, database, Result, ok, err}
use se_ticketbox.Ticket.Token.{Crypto}
use se_ticketbox.Checkin.Desk.{
  CheckinStatus, CheckinLog, Desk, find_ticket, check_in, same_event, find_log, logged,
  log_checkin_attempt, gates_differ, signature_fails, token_fails, log_then,
}
use se_ticketbox.Checkin.Verify.{VerifyTicketDto, verify_and_checkin}
use se_ticketbox.Checkin.Sync.{
  SyncRecord, SyncResult, SyncResponse, offline_log, reject, admit, sync_found, sync_new,
  process_sync_record, sync_loop, sync_checkin,
}

find_log-append :
    (device event : ℕ) (ls : List CheckinLog) (l : CheckinLog)
    → find_log device event ls ≡ none
    → same_event device event l ≡ true
    → find_log device event (ls ++ l ∷ []) ≡ some l
unfolding find_log
find_log-append device event [] l h s = ground arith
find_log-append device event (m ∷ ls) l h s = ground (arith, find_log-append device event ls l)

abbrev pub Recorded : SyncRecord → Result SyncResult × Desk → Type 0
Recorded r (ok x, d) =
    (l : CheckinLog) × (find_log r.device_id r.offline_event_id d.logs ≡ some l)
    × (l.status ≡ x.status)
    × (l.conflict ≡ x.conflict)
Recorded r (err e, d) = Unit

log-Recorded :
    (r : SyncRecord) (l : CheckinLog) (b : Bool) (d : Desk)
    → find_log r.device_id r.offline_event_id d.logs ≡ none
    → same_event r.device_id r.offline_event_id l ≡ true
    → Recorded r (
        log_then
          (ok (record { success = b; status = l.status; conflict = l.conflict }))
          (log_checkin_attempt l d))
unfolding log_checkin_attempt
log-Recorded r l b d new same = elim (Option-cases (find_ticket l.ticket_id d.tickets)) [
  | inl e ↦ rw (e, log_checkin_attempt) tt
  | inr (t, e) ↦ elim (Bool-cases (logged l d.logs)) [
    | inl y ↦ rw (e, log_checkin_attempt) (rw y tt)
    | inr y ↦
        rw (e, log_checkin_attempt)
          (rw y (l, find_log-append r.device_id r.offline_event_id d.logs l new same, refl, refl))
  ]
]

if-Recorded :
    (r : SyncRecord) (b : Bool) (p q : Result SyncResult × Desk)
    → Recorded r p
    → Recorded r q
    → Recorded r (if b then p else q)
if-Recorded r true p q e f = e
if-Recorded r false p q e f = f

reject-Recorded :
    (r : SyncRecord) (staff : ℕ) (s : CheckinStatus) (b : Bool) (d : Desk)
    → find_log r.device_id r.offline_event_id d.logs ≡ none
    → Recorded r (reject r staff s b d)
reject-Recorded r staff s b d new =
    log-Recorded r (offline_log r staff none s b) false d new (ground arith)

admit-Recorded :
    (r : SyncRecord) (staff : ℕ) (t : Ticket) (o : Option (List Ticket)) (d : Desk)
    → find_log r.device_id r.offline_event_id d.logs ≡ none
    → Recorded r (admit r staff t o d)
unfolding admit
admit-Recorded r staff t none d new =
    reject-Recorded r staff CheckinStatus.rejected_conflict true d new
admit-Recorded r staff t (some us) d new =
    log-Recorded r (offline_log r staff (some t.concert_id) CheckinStatus.success false) true
      (record d { tickets = us }) new (ground arith)

found-Recorded :
    (c : Crypto) (r : SyncRecord) (staff : ℕ) (o : Option Ticket) (d : Desk)
    → find_log r.device_id r.offline_event_id d.logs ≡ none
    → Recorded r (sync_found c r staff o d)
unfolding sync_found
found-Recorded c r staff none d new =
    reject-Recorded r staff CheckinStatus.invalid_ticket false d new
found-Recorded c r staff (some t) d new =
    let admitted = admit-Recorded r staff t (check_in r.ticket_id d.tickets) d new in
    let invalid = reject-Recorded r staff CheckinStatus.invalid_ticket false d new in
    let mismatch = reject-Recorded r staff CheckinStatus.gate_mismatch false d new in
    if-Recorded r (gates_differ r.gate_id t.gate_id) _ _ mismatch (
      if-Recorded r (signature_fails c t) _ _ invalid
        (if-Recorded r (token_fails c t r.token) _ _ invalid admitted))

new-Recorded :
    (c : Crypto) (r : SyncRecord) (staff : ℕ) (o : Option CheckinLog) (d : Desk)
    → find_log r.device_id r.offline_event_id d.logs ≡ o
    → Recorded r (sync_new c r staff o d)
unfolding sync_new
new-Recorded c r staff (some l) d e = (l, e, refl, refl)
new-Recorded c r staff none d e = found-Recorded c r staff (find_ticket r.ticket_id d.tickets) d e

-- A record that is answered is in the log, with the status and the conflict of the answer.
pub process-Recorded :
    (c : Crypto) (r : SyncRecord) (staff : ℕ) (d : Desk)
    → Recorded r (process_sync_record c r staff d)
unfolding process_sync_record
process-Recorded c r staff d =
    new-Recorded c r staff (find_log r.device_id r.offline_event_id d.logs) d refl

-- A record that was answered and is uploaded again, with any token, ticket or gate, changes nothing
-- and gets the first answer's status and conflict, now as a success.
pub process_again :
    (c : Crypto) (r again : SyncRecord) (staff other : ℕ) (d d' : Desk) {x : SyncResult}
    → process_sync_record c r staff d ≡ (ok x, d')
    → again.device_id ≡ r.device_id
    → again.offline_event_id ≡ r.offline_event_id
    → process_sync_record c again other d'
      ≡ (ok (record { success = true; status = x.status; conflict = x.conflict }), d')
unfolding process_sync_record sync_new
process_again c r again staff other d d' done device event =
    let (l, e, status, conflict) = subst (Recorded r) done (process-Recorded c r staff d) in
    ground (arith, device, event, e, status, conflict)

-- A scan of a ticket that is not there, or an upload whose first record is of such a ticket and of a
-- new event, is not refused but throws the database's error: nothing is logged, and the later records
-- change nothing.
pub unknown_ticket :
    (c : Crypto) (dto : VerifyTicketDto) (r : SyncRecord) (rs : List SyncRecord) (staff : ℕ)
    (d : Desk)
    → find_ticket dto.ticket_id d.tickets ≡ none
    → find_ticket r.ticket_id d.tickets ≡ none
    → find_log r.device_id r.offline_event_id d.logs ≡ none
    → (verify_and_checkin c dto staff d ≡ (err database, d))
      × (sync_checkin c (r ∷ rs) staff d ≡ (err database, d))
unfolding verify_and_checkin sync_checkin sync_loop process_sync_record sync_new sync_found
    log_checkin_attempt
unknown_ticket c dto r rs staff d a b e = ground (arith, a, b, e)

abbrev pub Counted : ℕ → Result SyncResponse → Type 0
Counted n (ok s) = (s.success + s.conflicts + s.failed ≡ n) × (length s.results ≡ n)
Counted n (err e) = Unit

loop_counts :
    (process : SyncRecord → Desk → Result SyncResult × Desk) (total : ℕ) (rs : List SyncRecord)
    (d : Desk)
    → Counted (length rs) (sync_loop process total rs d).0
unfolding sync_loop
loop_counts process total [] d = ground arith
loop_counts process total (r ∷ rs) d = ground (arith, loop_counts process total rs (process r d).1)

-- An upload that is answered counts each record once, as a success, a conflict or a failure.
pub sync_counts :
    (c : Crypto) (rs : List SyncRecord) (staff : ℕ) (d : Desk)
    → Counted (length rs) (sync_checkin c rs staff d).0
unfolding sync_checkin
sync_counts c rs staff d = loop_counts _ (length rs) rs d
