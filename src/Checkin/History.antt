-- ===== src/Checkin/History.antt =====
-- Histories of scans at the gates: online scans and uploads of offline scans, from any devices in
-- any order (`verifyAndCheckin` and `syncCheckin` of backend/src/modules/checkin/checkin.service.ts).
use se_ticketbox.Prelude.{
  ℕ, ◌+◌, ◌≤◌, ◌≡◌, Option, none, some, List, [], ◌∷◌, ◌++◌, if◌then◌else◌, arith, ◌⊎◌, inl, ◌&&◌,
}
use se_ticketbox.Prelude.Text.{Text, text_eq, text_eq-eq}
use se_ticketbox.Store.{Ticket, TicketStatus}
use se_ticketbox.Ticket.Token.{Crypto}
use se_ticketbox.Checkin.Desk.{CheckinLog, Desk, find_ticket, check_in}
use se_ticketbox.Checkin.Verify.{VerifyTicketDto, verify_and_checkin}
use se_ticketbox.Checkin.Sync.{SyncRecord, process_sync_record, sync_loop, sync_checkin}
use se_ticketbox.Checkin.Once.{StatusIs}
use se_ticketbox.Checkin.Effect.{
  Effect, nothing, noted, admitted, is_success, check_in-Admits, verify-Effect, sync-Effect,
}

pub data Scan : Type 0 where
  online : VerifyTicketDto → (staff_id : ℕ) → Scan
  upload : List SyncRecord → (staff_id : ℕ) → Scan

unfoldable pub scan : Crypto → Scan → Desk → Desk
scan c (online dto staff_id) d = (verify_and_checkin c dto staff_id d).1
scan c (upload records staff_id) d = (sync_checkin c records staff_id d).1

unfoldable pub scan_all : Crypto → List Scan → Desk → Desk
scan_all c [] d = d
scan_all c (s ∷ ss) d = scan_all c ss (scan c s d)

-- The successful attempts in the log for one ticket.
unfoldable pub entries : Text → List CheckinLog → ℕ
entries id [] = 0
entries id (l ∷ ls) =
    (if text_eq l.ticket_id id && is_success l.status then 1 else 0) + entries id ls

entries-append :
    (id : Text) (ls ms : List CheckinLog) → entries id (ls ++ ms) ≡ entries id ls + entries id ms
unfolding entries
entries-append id [] ms = ground arith
entries-append id (l ∷ ls) ms = ground (arith, entries-append id ls ms)

abbrev Kept : Text → List Ticket → Option (List Ticket) → Type 0
Kept id ts none = Unit
Kept id ts (some us) =
    StatusIs TicketStatus.checked_in (find_ticket id ts)
    → StatusIs TicketStatus.checked_in (find_ticket id us)

-- Letting in one ticket leaves every ticket that was let in before.
check_in-keeps : (id other : Text) (ts : List Ticket) → Kept id ts (check_in other ts)
unfolding check_in find_ticket
check_in-keeps id other [] = tt
check_in-keeps id other (t ∷ ts) =
    ground (arith, check_in-keeps id other ts, text_eq-eq t.id id, text_eq-eq t.id other)

-- At most one entry of a ticket, and none before the ticket is CHECKED_IN.
abbrev pub Once : Text → Desk → Type 0
Once id d =
    (entries id d.logs ≤ 1)
    × ((entries id d.logs ≡ 0) ⊎ StatusIs TicketStatus.checked_in (find_ticket id d.tickets))

Effect-Once : (x id : Text) (d d' : Desk) → Effect x d d' → Once id d → Once id d'
unfolding entries
Effect-Once x id d d' (nothing e) o = ground (arith, e, o)
Effect-Once x id d d' (noted l n e) o = ground (arith, e, entries-append id d.logs (l ∷ []), o, n)
Effect-Once x id d d' (admitted l us same up e) o = ground (
  arith,
  entries-append id d.logs (l ∷ []),
  o,
  up,
  check_in-keeps id x d.tickets,
  check_in-Admits x d.tickets,
  text_eq-eq x id,
  e,
  same,
)

sync_loop-Once :
    (c : Crypto) (staff total : ℕ) (id : Text) (rs : List SyncRecord) (d : Desk)
    → Once id d
    → Once id (sync_loop (λ r. process_sync_record c r staff) total rs d).1
unfolding sync_loop
sync_loop-Once c staff total id [] d o = o
sync_loop-Once c staff total id (r ∷ rs) d o =
    let d' = (process_sync_record c r staff d).1 in
    let first = Effect-Once r.ticket_id id d d' (sync-Effect c r staff d) o in
    ground (arith, first, sync_loop-Once c staff total id rs d' first)

-- Each scan keeps `Once` of every ticket, where it throws as well.
pub scan-Once : (c : Crypto) (s : Scan) (id : Text) (d : Desk) → Once id d → Once id (scan c s d)
unfolding scan sync_checkin
scan-Once c (online dto staff) id d o =
    Effect-Once dto.ticket_id id d _ (verify-Effect c dto staff d) o
scan-Once c (upload records staff) id d o = sync_loop-Once c staff _ id records d o

-- After any history of online scans and uploads, the log has at most one success of a ticket, if it
-- had none at the start.
pub scan_all-once :
    (c : Crypto) (ss : List Scan) (id : Text) (d : Desk)
    → entries id d.logs ≡ 0
    → entries id (scan_all c ss d).logs ≤ 1
unfolding scan_all
scan_all-once c ss id d e = (from ss d (omega (arith, e), inl e)).0
  where
    from : (ss : List Scan) (d : Desk) → Once id d → Once id (scan_all c ss d)
    from [] d o = o
    from (s ∷ ss) d o = from ss (scan c s d) (scan-Once c s id d o)
