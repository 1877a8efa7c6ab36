-- ===== src/Scanner.antt =====
-- The scanner app of the gate staff: frontend/checkin-pwa/src/lib/idb.ts (the two stores of its
-- database) and frontend/checkin-pwa/src/hooks/useOfflineCheckin.ts, together with the backend's
-- desk. The app's database works, so its `catch` branches are not modelled, and neither are the list
-- of recent scans, the counters and the messages on the screen.
pub mod Parse
pub mod Idb
pub mod Guard
pub mod Logged
pub mod Drain
pub mod Shown
use se_ticketbox.Prelude.{
  ℕ, Bool, true, false, not, ◌&&◌, ◌||◌, Option, none, some, List, [], ◌∷◌, ltb, ◌==◌,
  if◌then◌else◌,
}
use se_ticketbox.Prelude.Text.{Text, text_eq, is_empty}
use se_ticketbox.Store.{Result, ok, err}
use se_ticketbox.Ticket.Qr.{QrParts}
use se_ticketbox.Ticket.Token.{Crypto}
use se_ticketbox.Checkin.Desk.{CheckinStatus, Desk}
use se_ticketbox.Checkin.Verify.{VerifyTicketDto, verify_and_checkin}
use se_ticketbox.Checkin.Sync.{SyncRecord, SyncResult, SyncResponse, sync_checkin}
use se_ticketbox.Scanner.Parse.{parse_scan}
use se_ticketbox.Scanner.Idb.{
  OfflineScan, save_checkin_log, get_unsynced, mark_synced, has_ticket_been_scanned,
  mark_ticket_scanned, clear_scanned_ticket,
}

-- The device's id and its stored gate, the store `checkin_logs`, and the tickets of the store
-- `scanned_tickets`.
pub record Device : Type 0 where
  pub id : ℕ
  pub gate : Text
  pub logs : List OfflineScan
  pub scanned : List Text

-- What becomes of a request: the backend handles it or not, and its answer arrives or not.
pub data Delivery : Type 0 where
  delivered request_lost response_lost : Delivery

-- What the screen shows.
pub data ScanResult : Type 0 where
  wrong_format : ScanResult
  valid : (is_offline : Bool) → ScanResult
  invalid : (is_offline : Bool) → ScanResult

-- `gate || undefined`.
abbrev pub gate_or_none : Text → Option Text
gate_or_none gate = if is_empty gate then none else some gate

abbrev pub new_record : Device → ℕ → QrParts → SyncRecord
new_record device event_id p = record {
  ticket_id = p.ticket_id;
  token = p.raw_token;
  device_id = device.id;
  offline_event_id = event_id;
  gate_id = some device.gate;
}

-- The offline path of `handleScan`; `event_id` is the drawn `offlineEventId`.
unfoldable pub scan_offline : ℕ → QrParts → Device → ScanResult × Device
scan_offline event_id p device =
    if has_ticket_been_scanned p.ticket_id device.scanned then (invalid true, device) else (
      valid true,
      record device {
        logs =
            save_checkin_log (record { scan = new_record device event_id p; synced = false })
              device.logs;
        scanned = mark_ticket_scanned p.ticket_id device.scanned;
      },
    )

abbrev pub verify_dto : Device → QrParts → VerifyTicketDto
verify_dto device p = record {
  ticket_id = p.ticket_id;
  token = p.raw_token;
  device_id = device.id;
  gate_id = gate_or_none device.gate;
}

-- An answer of the backend: the body of an error has no `success`.
abbrev pub shown {ℓ} : {A : Type ℓ} → Result A → ScanResult
shown (ok t) = valid false
shown (err e) = invalid false

-- The online path of `handleScan`, which goes over to the offline path where no answer arrives.
unfoldable pub scan_online :
    Crypto → ℕ → Delivery → ℕ → QrParts → Device × Desk → ScanResult × Device × Desk
unfolding scan_offline
scan_online c staff outcome event_id p (device, desk) =
    let (answer, desk') = verify_and_checkin c (verify_dto device p) staff desk in
    let (offline, device') = scan_offline event_id p device in
    elim outcome [
      | delivered ↦ (shown answer, device, desk')
      | request_lost ↦ (offline, device', desk)
      | response_lost ↦ (offline, device', desk')
    ]

-- `handleScan` of a payload that has been parsed.
unfoldable pub scan_parsed :
    Crypto → ℕ → Bool → Delivery → ℕ → Option QrParts → Device × Desk → ScanResult × Device × Desk
unfolding scan_offline scan_online
scan_parsed c staff is_online outcome event_id none (device, desk) = (wrong_format, device, desk)
scan_parsed c staff is_online outcome event_id (some p) (device, desk) =
    let (offline, device') = scan_offline event_id p device in
    if is_online
    then scan_online c staff outcome event_id p (device, desk)
    else (offline, device', desk)

-- `handleScan`.
unfoldable pub handle_scan :
    Crypto → ℕ → Bool → Delivery → ℕ → Text → Device × Desk → ScanResult × Device × Desk
unfolding scan_parsed parse_scan
handle_scan c staff is_online outcome event_id raw s =
    scan_parsed c staff is_online outcome event_id (parse_scan raw) s

-- A result of the answer, with the `offlineEventId` of its record.
pub record Answer : Type 0 where
  pub offline_event_id : ℕ
  pub result : SyncResult

-- The backend answers one result for each record, in their order.
abbrev pub answers : List SyncRecord → List SyncResult → List Answer
answers [] xs = []
answers (r ∷ rs) [] = []
answers (r ∷ rs) (x ∷ xs) =
    record { offline_event_id = r.offline_event_id; result = x } ∷ answers rs xs

abbrev pub is_already_checked_in : CheckinStatus → Bool
is_already_checked_in CheckinStatus.already_checked_in = true
is_already_checked_in _ = false

-- `syncedIds`.
unfoldable pub synced_ids : List Answer → List ℕ
synced_ids [] = []
synced_ids (a ∷ others) =
    let rest = synced_ids others in
    if a.result.success || is_already_checked_in a.result.status
    then a.offline_event_id ∷ rest
    else rest

-- The first record of an event.
unfoldable pub find_scan : ℕ → List SyncRecord → Option SyncRecord
find_scan event_id [] = none
find_scan event_id (r ∷ rs) =
    if r.offline_event_id == event_id then some r else find_scan event_id rs

abbrev pub clear_matched : Option SyncRecord → List Text → List Text
clear_matched none scanned = scanned
clear_matched (some r) scanned = clear_scanned_ticket r.ticket_id scanned

-- The loop over `conflictResults`.
unfoldable pub clear_conflicts : List SyncRecord → List Answer → List Text → List Text
clear_conflicts unsynced [] scanned = scanned
clear_conflicts unsynced (a ∷ others) scanned =
    let cleared = clear_matched (find_scan a.offline_event_id unsynced) scanned in
    clear_conflicts unsynced others
      (if a.result.conflict && not a.result.success then cleared else scanned)

-- What `triggerSync` makes of an answer; an error is caught and changes nothing.
unfoldable pub take_answer : List SyncRecord → Result SyncResponse → Device → Device
unfolding synced_ids clear_conflicts
take_answer unsynced (err e) device = device
take_answer unsynced (ok response) device =
    let all = answers unsynced response.results in
    record device {
      logs = mark_synced (synced_ids all) device.logs;
      scanned = clear_conflicts unsynced all device.scanned;
    }

-- `triggerSync`, which asks for nothing where there is nothing to upload.
unfoldable pub upload : Crypto → ℕ → Delivery → List SyncRecord → Device × Desk → Device × Desk
unfolding take_answer
upload c staff outcome [] (device, desk) = (device, desk)
upload c staff outcome (r ∷ rs) (device, desk) =
    let (answer, desk') = sync_checkin c (r ∷ rs) staff desk in
    elim outcome [
      | delivered ↦ (take_answer (r ∷ rs) answer device, desk')
      | request_lost ↦ (device, desk)
      | response_lost ↦ (device, desk')
    ]

unfoldable pub trigger_sync : Crypto → ℕ → Delivery → Device × Desk → Device × Desk
unfolding upload
trigger_sync c staff outcome (device, desk) =
    upload c staff outcome (get_unsynced device.logs) (device, desk)
