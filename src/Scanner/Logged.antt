-- ===== src/Scanner/Logged.antt =====
-- Events that the backend has logged stay logged, and an upload that is answered logs all its events
-- (`syncCheckin` of backend/src/modules/checkin/checkin.service.ts).
use se_ticketbox.Prelude.{
  ℕ, ◌≡◌, refl, Bool, true, false, ◌&&◌, Option, none, some, List, [], ◌∷◌, ◌++◌, arith,
  Option-cases, inl, inr, length,
}
use se_ticketbox.Prelude.Text.{Text}
use se_ticketbox.Store.{Ticket, Result, ok, err}
use se_ticketbox.Ticket.Token.{Crypto}
use se_ticketbox.Checkin.Desk.{CheckinLog, Desk, find_ticket, check_in, find_log}
use se_ticketbox.Checkin.Sync.{SyncRecord, SyncResult, process_sync_record, sync_loop, sync_checkin}
use se_ticketbox.Checkin.Effect.{Effect, nothing, noted, admitted, verify-Effect, sync-Effect}
use se_ticketbox.Checkin.History.{Scan, online, upload, scan, scan_all}
use se_ticketbox.Checkin.Upload.{Recorded, process-Recorded}
use se_ticketbox.Checkin.Answers.{Answered, process-Answered}

abbrev pub is_some_log : Option CheckinLog → Bool
is_some_log none = false
is_some_log (some l) = true

-- Is the record's event in the log?
abbrev pub has_log : SyncRecord → Desk → Bool
has_log r d = is_some_log (find_log r.device_id r.offline_event_id d.logs)

has_log-append :
    (device event : ℕ) (ls : List CheckinLog) (l : CheckinLog)
    → is_some_log (find_log device event ls) ≡ true
    → is_some_log (find_log device event (ls ++ l ∷ [])) ≡ true
unfolding find_log
has_log-append device event [] l h = ground arith
has_log-append device event (m ∷ ls) l h = ground (arith, has_log-append device event ls l)

Effect-has_log :
    (x : Text) (r : SyncRecord) (d d' : Desk)
    → Effect x d d'
    → has_log r d ≡ true
    → has_log r d' ≡ true
Effect-has_log x r d d' (nothing e) h = ground (arith, e, h)
Effect-has_log x r d d' (noted l n e) h =
    ground (arith, e, h, has_log-append r.device_id r.offline_event_id d.logs l)
Effect-has_log x r d d' (admitted l us same up e) h =
    ground (arith, e, h, has_log-append r.device_id r.offline_event_id d.logs l)

loop-has_log :
    (c : Crypto) (staff total : ℕ) (r : SyncRecord) (rs : List SyncRecord) (d : Desk)
    → has_log r d ≡ true
    → has_log r (sync_loop (λ s. process_sync_record c s staff) total rs d).1 ≡ true
unfolding sync_loop
loop-has_log c staff total r [] d h = h
loop-has_log c staff total r (s ∷ rs) d h =
    let d' = (process_sync_record c s staff d).1 in
    let first = Effect-has_log s.ticket_id r d d' (sync-Effect c s staff d) h in
    ground (arith, first, loop-has_log c staff total r rs d' first)

-- Whatever is scanned or uploaded later, by any device.
pub scan_all-has_log :
    (c : Crypto) (ss : List Scan) (r : SyncRecord) (d : Desk)
    → has_log r d ≡ true
    → has_log r (scan_all c ss d) ≡ true
unfolding scan_all scan sync_checkin
scan_all-has_log c [] r d h = h
scan_all-has_log c (online dto staff ∷ ss) r d h =
    scan_all-has_log c ss r _ (Effect-has_log dto.ticket_id r d _ (verify-Effect c dto staff d) h)
scan_all-has_log c (upload rs staff ∷ ss) r d h =
    scan_all-has_log c ss r _ (loop-has_log c staff (length rs) r rs d h)

unfoldable pub all_logged : Desk → List SyncRecord → Bool
all_logged d [] = true
all_logged d (r ∷ rs) = has_log r d && all_logged d rs

abbrev pub is_found : Text → List Ticket → Bool
is_found id ts = elim (find_ticket id ts) [ none ↦ false | some t ↦ true ]

abbrev StaysFound : Text → List Ticket → Option (List Ticket) → Type 0
StaysFound id ts none = Unit
StaysFound id ts (some us) = is_found id ts ≡ true → is_found id us ≡ true

check_in-StaysFound : (id other : Text) (ts : List Ticket) → StaysFound id ts (check_in other ts)
unfolding check_in find_ticket
check_in-StaysFound id other [] = tt
check_in-StaysFound id other (t ∷ ts) = ground (arith, check_in-StaysFound id other ts)

Effect-found :
    (x id : Text) (d d' : Desk)
    → Effect x d d'
    → is_found id d.tickets ≡ true
    → is_found id d'.tickets ≡ true
Effect-found x id d d' (nothing e) h = ground (arith, e, h)
Effect-found x id d d' (noted l n e) h = ground (arith, e, h)
Effect-found x id d d' (admitted l us same up e) h =
    ground (arith, e, h, up, check_in-StaysFound id x d.tickets)

-- The ticket of every record is there.
unfoldable pub all_found : Desk → List SyncRecord → Bool
all_found d [] = true
all_found d (r ∷ rs) = is_found r.ticket_id d.tickets && all_found d rs

all_found-Effect :
    (x : Text) (d d' : Desk) (rs : List SyncRecord)
    → Effect x d d'
    → all_found d rs ≡ true
    → all_found d' rs ≡ true
unfolding all_found
all_found-Effect x d d' [] e h = refl
all_found-Effect x d d' (r ∷ rs) e h =
    ground (arith, h, Effect-found x r.ticket_id d d' e, all_found-Effect x d d' rs e)

process-has_log :
    (c : Crypto) (r : SyncRecord) (staff : ℕ) (d : Desk)
    → Answered (process_sync_record c r staff d).0
    → has_log r (process_sync_record c r staff d).1 ≡ true
process-has_log c r staff d answered =
    one (process_sync_record c r staff d) (process-Recorded c r staff d) answered
  where
    one : (p : Result SyncResult × Desk) → Recorded r p → Answered p.0 → has_log r p.1 ≡ true
    one (ok x, d') (l, e, status, conflict) a = ground (arith, e)
    one (err e, d') rec a = absurd a

found-Answered :
    (c : Crypto) (r : SyncRecord) (staff : ℕ) (d : Desk)
    → is_found r.ticket_id d.tickets ≡ true
    → Answered (process_sync_record c r staff d).0
found-Answered c r staff d h = elim (Option-cases (find_ticket r.ticket_id d.tickets)) [
  | inl e ↦ absurd (ground (arith, e, h))
  | inr (t, e) ↦ process-Answered c r staff d t e
]

-- An upload of records whose tickets are there is answered, and then all its events are logged.
pub loop-Answered :
    (c : Crypto) (staff total : ℕ) (rs : List SyncRecord) (d : Desk)
    → all_found d rs ≡ true
    → Answered (sync_loop (λ r. process_sync_record c r staff) total rs d).0
unfolding sync_loop all_found
loop-Answered c staff total [] d h = tt
loop-Answered c staff total (r ∷ rs) d h =
    let d' = (process_sync_record c r staff d).1 in
    let later = all_found-Effect r.ticket_id d d' rs (sync-Effect c r staff d) in
    ground (arith, h, found-Answered c r staff d, later, loop-Answered c staff total rs d')

pub loop_logs :
    (c : Crypto) (staff total : ℕ) (rs : List SyncRecord) (d : Desk)
    → Answered (sync_loop (λ r. process_sync_record c r staff) total rs d).0
    → all_logged (sync_loop (λ r. process_sync_record c r staff) total rs d).1 rs ≡ true
unfolding sync_loop all_logged
loop_logs c staff total [] d a = refl
loop_logs c staff total (r ∷ rs) d a =
    let d' = (process_sync_record c r staff d).1 in
    ground (
      arith,
      a,
      process-has_log c r staff d,
      loop-has_log c staff total r rs d',
      loop_logs c staff total rs d',
    )
