-- ===== src/Checkin/Effect.antt =====
-- What one scan does to the desk: the effect of `verifyAndCheckin` and of `processSyncRecord` of
-- backend/src/modules/checkin/checkin.service.ts, on every path.
use se_ticketbox.Prelude.{
  ℕ, ◌≡◌, refl, sym, subst, Bool, true, false, Option, none, some, List, [], ◌∷◌, ◌++◌,
  if◌then◌else◌, arith, Bool-cases, Option-cases, inl, inr,
}
use se_ticketbox.Prelude.Text.{Text}
use se_ticketbox.Store.{Ticket, TicketStatus, Error, not_found, bad_request, Result, ok, err}
use se_ticketbox.Ticket.Token.{Crypto}
use se_ticketbox.Checkin.Desk.{
  CheckinStatus, CheckinLog, Desk, find_ticket, check_in, find_log, log_checkin_attempt, log_then,
  logged, gates_differ, signature_fails, token_fails,
}
use se_ticketbox.Checkin.Verify.{
  online_log, refuse, enter, verify_found, VerifyTicketDto, verify_and_checkin,
}
use se_ticketbox.Checkin.Sync.{
  SyncRecord, offline_log, reject, admit, sync_found, sync_new, process_sync_record,
}
use se_ticketbox.Checkin.Once.{StatusIs}

abbrev pub is_success : CheckinStatus → Bool
is_success CheckinStatus.success = true
is_success _ = false

abbrev pub Admits : Text → List Ticket → Option (List Ticket) → Type 0
Admits id ts none = Unit
Admits id ts (some us) =
    ¬ StatusIs TicketStatus.checked_in (find_ticket id ts)
    × StatusIs TicketStatus.checked_in (find_ticket id us)

pub check_in-Admits : (id : Text) (ts : List Ticket) → Admits id ts (check_in id ts)
unfolding check_in find_ticket
check_in-Admits id [] = tt
check_in-Admits id (t ∷ ts) = ground (arith, check_in-Admits id ts)

-- What a scan of a ticket does to the desk: it changes nothing, writes an entry that is no success,
-- or lets the ticket in and writes one success.
pub data Effect (x : Text) (d d' : Desk) : Type 0 where
  nothing : d' ≡ d → Effect x d d'
  noted :
      (l : CheckinLog)
      → is_success l.status ≡ false
      → d' ≡ record d { logs = d.logs ++ l ∷ [] }
      → Effect x d d'
  admitted :
      (l : CheckinLog) (us : List Ticket)
      → l.ticket_id ≡ x
      → check_in x d.tickets ≡ some us
      → d' ≡ record { tickets = us; logs = d.logs ++ l ∷ [] }
      → Effect x d d'

note-Effect :
    (l : CheckinLog) (d : Desk)
    → is_success l.status ≡ false
    → Effect l.ticket_id d (log_checkin_attempt l d).1
unfolding log_checkin_attempt
note-Effect l d n = elim (Option-cases (find_ticket l.ticket_id d.tickets)) [
  | inl e ↦ rw (e, log_checkin_attempt) (nothing refl)
  | inr (t, e) ↦ elim (Bool-cases (logged l d.logs)) [
    | inl y ↦ rw (e, log_checkin_attempt) (rw y (nothing refl))
    | inr y ↦ rw (e, log_checkin_attempt) (rw y (noted l n refl))
  ]
]

admit-Effect :
    (l : CheckinLog) (us : List Ticket) (d : Desk)
    → check_in l.ticket_id d.tickets ≡ some us
    → logged l d.logs ≡ false
    → Effect l.ticket_id d (log_checkin_attempt l (record d { tickets = us })).1
unfolding log_checkin_attempt
admit-Effect l us d up new = elim (Option-cases (find_ticket l.ticket_id us)) [
  | inl e ↦ absurd (ground (arith, e, up, check_in-Admits l.ticket_id d.tickets))
  | inr (t, e) ↦ rw (e, log_checkin_attempt) (rw new (admitted l us refl up refl))
]

log_then-state : {A : Type 0} (r : Result A) (p : Result (Unit {0}) × Desk) → (log_then r p).1 ≡ p.1
log_then-state r (ok u, d) = refl
log_then-state r (err e, d) = refl

-- A result whose state is an effect, whatever the test gives.
if-Effect :
    {A : Type 0} (x : Text) (d : Desk) (b : Bool) (p q : Result A × Desk)
    → Effect x d p.1
    → Effect x d q.1
    → Effect x d (if b then p else q).1
if-Effect x d true p q e f = e
if-Effect x d false p q e f = f

then-Effect :
    {A : Type 0} (r : Result A) (x : Text) (d : Desk) (p : Result (Unit {0}) × Desk)
    → Effect x d p.1
    → Effect x d (log_then r p).1
then-Effect r x d p e = subst (Effect x d) (sym (log_then-state r p)) e

refuse-Effect :
    (dto : VerifyTicketDto) (staff : ℕ) (s : CheckinStatus) (e : Error) (d : Desk)
    → is_success s ≡ false
    → Effect dto.ticket_id d (refuse dto staff s e d).1
refuse-Effect dto staff s e d n =
    then-Effect _ dto.ticket_id d (log_checkin_attempt (online_log dto staff none s) d)
      (note-Effect (online_log dto staff none s) d n)

enter-Effect :
    (dto : VerifyTicketDto) (staff : ℕ) (t : Ticket) (o : Option (List Ticket)) (d : Desk)
    → check_in dto.ticket_id d.tickets ≡ o
    → Effect dto.ticket_id d (enter dto staff t o d).1
unfolding enter logged
enter-Effect dto staff t none d e =
    refuse-Effect dto staff CheckinStatus.already_checked_in bad_request d refl
enter-Effect dto staff t (some us) d e =
    let l = online_log dto staff (some t.concert_id) CheckinStatus.success in
    then-Effect _ dto.ticket_id d (log_checkin_attempt l (record d { tickets = us }))
      (admit-Effect l us d e refl)

verify_found-Effect :
    (c : Crypto) (dto : VerifyTicketDto) (staff : ℕ) (o : Option Ticket) (d : Desk)
    → Effect dto.ticket_id d (verify_found c dto staff o d).1
unfolding verify_found
verify_found-Effect c dto staff none d =
    refuse-Effect dto staff CheckinStatus.invalid_ticket not_found d refl
verify_found-Effect c dto staff (some t) d =
    let entered = enter-Effect dto staff t (check_in dto.ticket_id d.tickets) d refl in
    let invalid = refuse-Effect dto staff CheckinStatus.invalid_ticket bad_request d refl in
    let mismatch = refuse-Effect dto staff CheckinStatus.gate_mismatch bad_request d refl in
    if-Effect _ d (gates_differ dto.gate_id t.gate_id) _ _ mismatch (
      if-Effect _ d (signature_fails c t) _ _ invalid
        (if-Effect _ d (token_fails c t dto.token) _ _ invalid entered))

pub verify-Effect :
    (c : Crypto) (dto : VerifyTicketDto) (staff : ℕ) (d : Desk)
    → Effect dto.ticket_id d (verify_and_checkin c dto staff d).1
unfolding verify_and_checkin
verify-Effect c dto staff d =
    verify_found-Effect c dto staff (find_ticket dto.ticket_id d.tickets) d

reject-Effect :
    (r : SyncRecord) (staff : ℕ) (s : CheckinStatus) (b : Bool) (d : Desk)
    → is_success s ≡ false
    → Effect r.ticket_id d (reject r staff s b d).1
reject-Effect r staff s b d n =
    then-Effect _ r.ticket_id d (log_checkin_attempt (offline_log r staff none s b) d)
      (note-Effect (offline_log r staff none s b) d n)

admit_lem :
    (r : SyncRecord) (staff : ℕ) (t : Ticket) (o : Option (List Ticket)) (d : Desk)
    → find_log r.device_id r.offline_event_id d.logs ≡ none
    → check_in r.ticket_id d.tickets ≡ o
    → Effect r.ticket_id d (admit r staff t o d).1
unfolding admit logged
admit_lem r staff t none d new e = reject-Effect r staff CheckinStatus.rejected_conflict true d refl
admit_lem r staff t (some us) d new e =
    let l = offline_log r staff (some t.concert_id) CheckinStatus.success false in
    then-Effect _ r.ticket_id d (log_checkin_attempt l (record d { tickets = us }))
      (admit-Effect l us d e (ground (arith, new)))

sync_found-Effect :
    (c : Crypto) (r : SyncRecord) (staff : ℕ) (o : Option Ticket) (d : Desk)
    → find_log r.device_id r.offline_event_id d.logs ≡ none
    → Effect r.ticket_id d (sync_found c r staff o d).1
unfolding sync_found
sync_found-Effect c r staff none d new =
    reject-Effect r staff CheckinStatus.invalid_ticket false d refl
sync_found-Effect c r staff (some t) d new =
    let admitted = admit_lem r staff t (check_in r.ticket_id d.tickets) d new refl in
    let invalid = reject-Effect r staff CheckinStatus.invalid_ticket false d refl in
    let mismatch = reject-Effect r staff CheckinStatus.gate_mismatch false d refl in
    if-Effect _ d (gates_differ r.gate_id t.gate_id) _ _ mismatch (
      if-Effect _ d (signature_fails c t) _ _ invalid
        (if-Effect _ d (token_fails c t r.token) _ _ invalid admitted))

sync_new-Effect :
    (c : Crypto) (r : SyncRecord) (staff : ℕ) (o : Option CheckinLog) (d : Desk)
    → find_log r.device_id r.offline_event_id d.logs ≡ o
    → Effect r.ticket_id d (sync_new c r staff o d).1
unfolding sync_new
sync_new-Effect c r staff (some l) d e = nothing refl
sync_new-Effect c r staff none d e =
    sync_found-Effect c r staff (find_ticket r.ticket_id d.tickets) d e

pub sync-Effect :
    (c : Crypto) (r : SyncRecord) (staff : ℕ) (d : Desk)
    → Effect r.ticket_id d (process_sync_record c r staff d).1
unfolding process_sync_record
sync-Effect c r staff d =
    sync_new-Effect c r staff (find_log r.device_id r.offline_event_id d.logs) d refl
