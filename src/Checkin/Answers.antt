-- ===== src/Checkin/Answers.antt =====
-- Uploads of known tickets are answered (`processSyncRecord` of
-- backend/src/modules/checkin/checkin.service.ts).
use se_ticketbox.Prelude.{
  ℕ, ◌≡◌, refl, Bool, true, false, Option, none, some, List, [], ◌∷◌, if◌then◌else◌, arith,
  Option-cases, inl, inr,
}
use se_ticketbox.Prelude.Text.{Text}
use se_ticketbox.Store.{Ticket, TicketStatus, Result, ok, err}
use se_ticketbox.Ticket.Token.{Crypto}
use se_ticketbox.Checkin.Once.{StatusIs}
use se_ticketbox.Checkin.Desk.{
  CheckinStatus, CheckinLog, Desk, find_ticket, check_in, find_log, logged, log_checkin_attempt,
  gates_differ, signature_fails, token_fails, log_then,
}
use se_ticketbox.Checkin.Sync.{
  SyncRecord, offline_log, reject, admit, sync_found, sync_new, process_sync_record,
}

abbrev pub Answered : {A : Type 0} → Result A → Type 0
Answered (ok x) = Unit
Answered (err e) = ⊥

log-Answered :
    {A : Type 0} (x : A) (l : CheckinLog) (d : Desk) (t : Ticket)
    → find_ticket l.ticket_id d.tickets ≡ some t
    → logged l d.logs ≡ false
    → Answered (log_then (ok x) (log_checkin_attempt l d)).0
unfolding log_checkin_attempt
log-Answered x l d t e n = rw (e, log_checkin_attempt) (rw n tt)

abbrev StillThere : Text → Option (List Ticket) → Type 0
StillThere id none = Unit
StillThere id (some us) = StatusIs TicketStatus.checked_in (find_ticket id us)

check_in-StillThere : (id : Text) (ts : List Ticket) → StillThere id (check_in id ts)
unfolding check_in find_ticket
check_in-StillThere id [] = tt
check_in-StillThere id (t ∷ ts) = ground (arith, check_in-StillThere id ts)

if-Answered :
    {A : Type 0} (b : Bool) (p q : Result A × Desk)
    → Answered p.0
    → Answered q.0
    → Answered (if b then p else q).0
if-Answered true p q e f = e
if-Answered false p q e f = f

admit-Answered :
    (r : SyncRecord) (staff : ℕ) (t : Ticket) (o : Option (List Ticket)) (d : Desk)
    → find_ticket r.ticket_id d.tickets ≡ some t
    → find_log r.device_id r.offline_event_id d.logs ≡ none
    → StillThere r.ticket_id o
    → Answered (admit r staff t o d).0
unfolding admit logged
admit-Answered r staff t none d e new there =
    log-Answered _ (offline_log r staff none CheckinStatus.rejected_conflict true) d t e
      (ground (arith, new))
admit-Answered r staff t (some us) d e new there =
    elim (Option-cases (find_ticket r.ticket_id us)) [
      | inl f ↦ absurd (ground (arith, f, there))
      | inr (u, f) ↦
          log-Answered _ (offline_log r staff (some t.concert_id) CheckinStatus.success false)
            (record d { tickets = us }) u f (ground (arith, new))
    ]

new-Answered :
    (c : Crypto) (r : SyncRecord) (staff : ℕ) (t : Ticket) (o : Option CheckinLog) (d : Desk)
    → find_ticket r.ticket_id d.tickets ≡ some t
    → find_log r.device_id r.offline_event_id d.logs ≡ o
    → Answered (sync_new c r staff o d).0
unfolding sync_new sync_found logged
new-Answered c r staff t (some l) d e f = tt
new-Answered c r staff t none d e f =
    let refused : (s : CheckinStatus) (b : Bool) → Answered (reject r staff s b d).0 =
      λ s b. log-Answered _ (offline_log r staff none s b) d t e (ground (arith, f)) in
    let entered =
      admit-Answered r staff t (check_in r.ticket_id d.tickets) d e f
        (check_in-StillThere r.ticket_id d.tickets) in
    rw (e, sync_new)
      (if-Answered (gates_differ r.gate_id t.gate_id) _ _
        (refused CheckinStatus.gate_mismatch false)
        (if-Answered (signature_fails c t) _ _ (refused CheckinStatus.invalid_ticket false) (
          if-Answered (token_fails c t r.token) _ _ (refused CheckinStatus.invalid_ticket false)
            entered)))

-- A record of a ticket that is there never throws: it gets an answer, whether its event is new or not.
pub process-Answered :
    (c : Crypto) (r : SyncRecord) (staff : ℕ) (d : Desk) (t : Ticket)
    → find_ticket r.ticket_id d.tickets ≡ some t
    → Answered (process_sync_record c r staff d).0
unfolding process_sync_record
process-Answered c r staff d t e =
    new-Answered c r staff t (find_log r.device_id r.offline_event_id d.logs) d e refl
