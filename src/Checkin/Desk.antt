-- ===== src/Checkin/Desk.antt =====
-- The rows that check-in works on, and the writes it makes: tickets and the check-in log
-- (backend/src/modules/checkin/checkin.service.ts, backend/prisma/schema.prisma).
use se_ticketbox.Prelude.{
  ℕ, Bool, true, false, not, ◌&&◌, Option, none, some, List, [], ◌∷◌, ◌++◌, ◌==◌, if◌then◌else◌,
}
use se_ticketbox.Prelude.Text.{Text, text_eq, is_empty}
use se_ticketbox.Store.{Ticket, TicketStatus, database, Result, ok, err}
use se_ticketbox.Ticket.Token.{Crypto, recompute_signature}

pub data CheckinStatus : Type 0 where
  success invalid_ticket already_checked_in offline_pending rejected_conflict : CheckinStatus
  gate_mismatch : CheckinStatus

-- A row of CheckinLog. Devices, staff and offline events are only compared. The texts of `reason`
-- and the two times are left out.
pub record CheckinLog : Type 0 where
  pub ticket_id : Text
  pub staff_id : ℕ
  pub concert_id : Option ℕ
  pub device_id : ℕ
  pub gate : Option Text
  pub offline_event_id : Option ℕ
  pub status : CheckinStatus
  pub is_offline : Bool
  pub conflict : Bool

pub record Desk : Type 0 where
  pub tickets : List Ticket
  pub logs : List CheckinLog

abbrev pub Action : Type 0 → Type 0
Action A = Desk → Result A × Desk

unfoldable pub find_ticket : Text → List Ticket → Option Ticket
find_ticket id [] = none
find_ticket id (t ∷ ts) = if text_eq t.id id then some t else find_ticket id ts

abbrev pub is_issued : TicketStatus → Bool
is_issued TicketStatus.issued = true
is_issued _ = false

-- `updateMany` to CHECKED_IN where the id agrees and the status is ISSUED: `none` if it counts no
-- row. Ids are unique.
unfoldable pub check_in : Text → List Ticket → Option (List Ticket)
check_in id [] = none
check_in id (t ∷ ts) =
    let rest = check_in id ts in
    if text_eq t.id id
    then if is_issued t.status
      then some (record t { status = TicketStatus.checked_in } ∷ ts)
      else none
    else elim rest [ none ↦ none | some us ↦ some (t ∷ us) ]

abbrev pub same_event : ℕ → ℕ → CheckinLog → Bool
same_event device event l = elim l.offline_event_id [
  | none ↦ false
  | some e ↦ l.device_id == device && e == event
]

-- The log of an offline event, by its unique pair.
unfoldable pub find_log : ℕ → ℕ → List CheckinLog → Option CheckinLog
find_log device event [] = none
find_log device event (l ∷ ls) =
    if same_event device event l then some l else find_log device event ls

-- The unique pair (deviceId, offlineEventId), which holds no log without an event.
unfoldable pub logged : CheckinLog → List CheckinLog → Bool
logged l ls = elim l.offline_event_id [
  | none ↦ false
  | some e ↦ elim (find_log l.device_id e ls) [ none ↦ false | some x ↦ true ]
]

-- `logCheckinAttempt`. The log refers to its ticket by a foreign key, so Prisma throws where there is
-- no such ticket, and where the event is logged already.
unfoldable pub log_checkin_attempt : CheckinLog → Action (Unit {0})
unfolding logged
log_checkin_attempt l d = elim (find_ticket l.ticket_id d.tickets) [
  | none ↦ (err database, d)
  | some t ↦
      if logged l d.logs then (err database, d) else (ok tt, record d { logs = d.logs ++ l ∷ [] })
]

-- `gate && ticketGate && gate !== ticketGate`: an absent or empty name agrees with every gate.
unfoldable pub gates_differ : Option Text → Option Text → Bool
gates_differ none g = false
gates_differ (some a) none = false
gates_differ (some a) (some b) = (not (is_empty a) && not (is_empty b)) && not (text_eq a b)

abbrev pub or_empty : Option Text → Text
or_empty none = []
or_empty (some g) = g

-- The signature is checked only where there is one.
unfoldable pub signature_fails : Crypto → Ticket → Bool
signature_fails c t =
    not (is_empty t.qr_signature)
    && not
        (text_eq (recompute_signature c t.id t.qr_token_hash (or_empty t.gate_id)) t.qr_signature)

-- `qrTokenHash !== hashToken(token)`.
unfoldable pub token_fails : Crypto → Ticket → Text → Bool
token_fails c t token = not (text_eq t.qr_token_hash (c.sha256 token))

-- `logCheckinAttempt` and then a result.
abbrev pub log_then : {A : Type 0} → Result A → Result (Unit {0}) × Desk → Result A × Desk
log_then r (ok u, d) = (r, d)
log_then r (err e, d) = (err e, d)
