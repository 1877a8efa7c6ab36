-- ===== src/Checkin/Sync.antt =====
-- The upload of offline scans: `syncCheckin` and `processSyncRecord` of
-- backend/src/modules/checkin/checkin.service.ts.
use se_ticketbox.Prelude.{
  ℕ, ◌+◌, Bool, true, false, not, ◌&&◌, Option, none, some, List, [], ◌∷◌, if◌then◌else◌, length,
}
use se_ticketbox.Prelude.Text.{Text}
use se_ticketbox.Store.{Ticket, Result, ok, err}
use se_ticketbox.Ticket.Token.{Crypto}
use se_ticketbox.Checkin.Desk.{
  CheckinStatus, CheckinLog, Desk, Action, find_ticket, check_in, find_log, log_checkin_attempt,
  gates_differ, signature_fails, token_fails, log_then,
}

pub record SyncRecord : Type 0 where
  pub ticket_id : Text
  pub token : Text
  pub device_id : ℕ
  pub offline_event_id : ℕ
  pub gate_id : Option Text

pub record SyncResult : Type 0 where
  pub success : Bool
  pub status : CheckinStatus
  pub conflict : Bool

-- An offline attempt as it is logged.
abbrev pub offline_log : SyncRecord → ℕ → Option ℕ → CheckinStatus → Bool → CheckinLog
offline_log r staff_id concert_id status conflict = record {
  ticket_id = r.ticket_id;
  staff_id = staff_id;
  concert_id = concert_id;
  device_id = r.device_id;
  gate = r.gate_id;
  offline_event_id = some r.offline_event_id;
  status = status;
  is_offline = true;
  conflict = conflict;
}

-- An attempt that is logged and answered with `success: false`.
abbrev pub reject : SyncRecord → ℕ → CheckinStatus → Bool → Action SyncResult
reject r staff_id status conflict d =
    log_then (ok (record { success = false; status = status; conflict = conflict }))
      (log_checkin_attempt (offline_log r staff_id none status conflict) d)

unfoldable pub admit : SyncRecord → ℕ → Ticket → Option (List Ticket) → Action SyncResult
admit r staff_id t none d = reject r staff_id CheckinStatus.rejected_conflict true d
admit r staff_id t (some tickets) d =
    log_then (ok (record { success = true; status = CheckinStatus.success; conflict = false })) (
      log_checkin_attempt (offline_log r staff_id (some t.concert_id) CheckinStatus.success false)
        (record d { tickets = tickets }))

unfoldable pub sync_found : Crypto → SyncRecord → ℕ → Option Ticket → Action SyncResult
unfolding admit
sync_found c r staff_id none d = reject r staff_id CheckinStatus.invalid_ticket false d
sync_found c r staff_id (some t) d =
    if gates_differ r.gate_id t.gate_id
    then reject r staff_id CheckinStatus.gate_mismatch false d
    else if signature_fails c t
    then reject r staff_id CheckinStatus.invalid_ticket false d
    else if token_fails c t r.token
    then reject r staff_id CheckinStatus.invalid_ticket false d
    else admit r staff_id t (check_in r.ticket_id d.tickets) d

unfoldable pub sync_new : Crypto → SyncRecord → ℕ → Option CheckinLog → Action SyncResult
unfolding sync_found
sync_new c r staff_id (some l) d =
    (ok (record { success = true; status = l.status; conflict = l.conflict }), d)
sync_new c r staff_id none d = sync_found c r staff_id (find_ticket r.ticket_id d.tickets) d

unfoldable pub process_sync_record : Crypto → SyncRecord → ℕ → Action SyncResult
unfolding sync_new
process_sync_record c r staff_id d =
    sync_new c r staff_id (find_log r.device_id r.offline_event_id d.logs) d

pub record SyncResponse : Type 0 where
  pub total : ℕ
  pub success : ℕ
  pub failed : ℕ
  pub conflicts : ℕ
  pub results : List SyncResult

-- The counters of the loop.
abbrev pub tally : SyncResult → SyncResponse → SyncResponse
tally x s =
    if x.success && not x.conflict
    then record s { success = s.success + 1; results = x ∷ s.results }
    else if x.conflict
    then record s { conflicts = s.conflicts + 1; results = x ∷ s.results }
    else record s { failed = s.failed + 1; results = x ∷ s.results }

-- The loop. A record that throws ends it, and what was written before stays.
continue : SyncResult → Result SyncResponse × Desk → Result SyncResponse × Desk
continue x (ok s, d) = (ok (tally x s), d)
continue x (err e, d) = (err e, d)

unfoldable pub sync_loop :
    (SyncRecord → Action SyncResult) → ℕ → List SyncRecord → Action SyncResponse
unfolding continue
sync_loop process total [] d =
    (ok (record { total = total; success = 0; failed = 0; conflicts = 0; results = [] }), d)
sync_loop process total (r ∷ rs) d =
    let (res, d') = process r d in
    let rest = sync_loop process total rs d' in
    elim res [ ok x ↦ continue x rest | err e ↦ (err e, d') ]

unfoldable pub sync_checkin : Crypto → List SyncRecord → ℕ → Action SyncResponse
unfolding sync_loop
sync_checkin c records staff_id d =
    sync_loop (λ r. process_sync_record c r staff_id) (length records) records d
