-- ===== src/Scanner/Drain.antt =====
-- The queue of offline scans and its uploads: `triggerSync` of
-- frontend/checkin-pwa/src/hooks/useOfflineCheckin.ts against `syncCheckin` of the backend.
use se_ticketbox.Prelude.{
  ℕ, ◌≡◌, refl, sym, subst, Bool, true, false, ◌&&◌, ◌||◌, none, List, [], ◌∷◌, ◌==◌, if◌then◌else◌,
  arith, length,
}
use se_ticketbox.Store.{Result, ok, err}
use se_ticketbox.Ticket.Token.{Crypto}
use se_ticketbox.Checkin.Desk.{Desk, find_log, find_ticket}
use se_ticketbox.Checkin.Verify.{VerifyTicketDto}
use se_ticketbox.Checkin.Sync.{
  SyncRecord, SyncResponse, process_sync_record, sync_new, sync_loop, sync_checkin,
}
use se_ticketbox.Checkin.History.{Scan, scan_all}
use se_ticketbox.Checkin.Upload.{unknown_ticket}
use se_ticketbox.Checkin.Answers.{Answered}
use se_ticketbox.Scanner.{
  Device, Delivery, delivered, request_lost, response_lost, answers, synced_ids, take_answer,
  upload, trigger_sync,
}
use se_ticketbox.Scanner.Idb.{OfflineScan, get_unsynced, mark_one, mark_synced}
use se_ticketbox.Scanner.Logged.{all_logged, all_found, loop-Answered, loop_logs, scan_all-has_log}

abbrev events : List SyncRecord → List ℕ
events [] = []
events (r ∷ rs) = r.offline_event_id ∷ events rs

-- The ids that the app marks after an answer.
abbrev marked : List SyncRecord → Result SyncResponse → List ℕ
marked rs (ok s) = synced_ids (answers rs s.results)
marked rs (err e) = []

-- Events that are logged are all answered as successes, and nothing changes.
loop_replays :
    (c : Crypto) (staff total : ℕ) (rs : List SyncRecord) (d : Desk)
    → all_logged d rs ≡ true
    → Answered (sync_loop (λ r. process_sync_record c r staff) total rs d).0
      × (marked rs (sync_loop (λ r. process_sync_record c r staff) total rs d).0 ≡ events rs)
unfolding sync_loop all_logged process_sync_record sync_new synced_ids
loop_replays c staff total [] d h = ground arith
loop_replays c staff total (r ∷ rs) d h = ground (arith, h, loop_replays c staff total rs d)

member : ℕ → List ℕ → Bool
member e [] = false
member e (i ∷ is) = e == i || member e is

-- Marking goes record by record.
mark_synced_cons :
    (ids : List ℕ) (s : OfflineScan) (ss : List OfflineScan)
    → mark_synced ids (s ∷ ss)
      ≡ (if member s.scan.offline_event_id ids then (record s { synced = true }) else s)
        ∷ mark_synced ids ss
unfolding mark_synced mark_one member
mark_synced_cons [] s ss = refl
mark_synced_cons (id ∷ ids) s ss =
    let s' : OfflineScan =
      (if s.scan.offline_event_id == id then (record s { synced = true }) else s) in
    ground (arith, mark_synced_cons ids s' (mark_one id ss))

mark_synced_nil : (ids : List ℕ) → mark_synced ids [] ≡ []
unfolding mark_synced mark_one
mark_synced_nil [] = refl
mark_synced_nil (id ∷ ids) = mark_synced_nil ids

-- Is every record synced or among the ids?
covered : List ℕ → List OfflineScan → Bool
covered ids [] = true
covered ids (s ∷ ss) = (s.synced || member s.scan.offline_event_id ids) && covered ids ss

covered_cons :
    (e : ℕ) (ids : List ℕ) (ss : List OfflineScan)
    → covered ids ss ≡ true
    → covered (e ∷ ids) ss ≡ true
unfolding covered member
covered_cons e ids [] h = refl
covered_cons e ids (s ∷ ss) h = ground (arith, h, covered_cons e ids ss)

covered_events : (ss : List OfflineScan) → covered (events (get_unsynced ss)) ss ≡ true
unfolding covered member get_unsynced
covered_events [] = refl
covered_events (s ∷ ss) =
    ground
      (arith, covered_events ss, covered_cons s.scan.offline_event_id (events (get_unsynced ss)) ss)

covered_drained :
    (ids : List ℕ) (ss : List OfflineScan)
    → covered ids ss ≡ true
    → get_unsynced (mark_synced ids ss) ≡ []
unfolding covered get_unsynced
covered_drained ids [] h = ground (arith, mark_synced_nil ids)
covered_drained ids (s ∷ ss) h =
    ground (arith, h, mark_synced_cons ids s ss, covered_drained ids ss)

-- What is unsynced after marking was unsynced before.
marking_logged :
    (d : Desk) (ids : List ℕ) (ss : List OfflineScan)
    → all_logged d (get_unsynced ss) ≡ true
    → all_logged d (get_unsynced (mark_synced ids ss)) ≡ true
unfolding get_unsynced all_logged
marking_logged d ids [] h = ground (arith, mark_synced_nil ids)
marking_logged d ids (s ∷ ss) h =
    ground (arith, h, mark_synced_cons ids s ss, marking_logged d ids ss)

take_drains :
    (rs : List SyncRecord) (answer : Result SyncResponse) (device : Device)
    → Answered answer
    → marked rs answer ≡ events (get_unsynced device.logs)
    → get_unsynced (take_answer rs answer device).logs ≡ []
unfolding take_answer
take_drains rs (err e) device a m = absurd a
take_drains rs (ok s) device a m = ground (
  arith,
  m,
  covered_events device.logs,
  covered_drained (synced_ids (answers rs s.results)) device.logs,
)

upload_drains :
    (c : Crypto) (staff : ℕ) (device : Device) (desk : Desk) (rs : List SyncRecord)
    → get_unsynced device.logs ≡ rs
    → all_logged desk rs ≡ true
    → get_unsynced (upload c staff delivered rs (device, desk)).0.logs ≡ []
unfolding upload sync_checkin
upload_drains c staff device desk [] e h = e
upload_drains c staff device desk (r ∷ rs) e h =
    let (answered, all_marked) = loop_replays c staff (length (r ∷ rs)) (r ∷ rs) desk h in
    take_drains (r ∷ rs) _ device answered (ground (arith, all_marked, e))

-- An upload whose events are all logged leaves nothing unsynced.
logged_drains :
    (c : Crypto) (staff : ℕ) (device : Device) (desk : Desk)
    → all_logged desk (get_unsynced device.logs) ≡ true
    → get_unsynced (trigger_sync c staff delivered (device, desk)).0.logs ≡ []
unfolding trigger_sync
logged_drains c staff device desk h =
    upload_drains c staff device desk (get_unsynced device.logs) refl h

scan_all-logged :
    (c : Crypto) (ss : List Scan) (d : Desk) (rs : List SyncRecord)
    → all_logged d rs ≡ true
    → all_logged (scan_all c ss d) rs ≡ true
unfolding all_logged
scan_all-logged c ss d [] h = refl
scan_all-logged c ss d (r ∷ rs) h =
    ground (arith, h, scan_all-has_log c ss r d, scan_all-logged c ss d rs)

abbrev pub Reaches : Delivery → Type 0
Reaches request_lost = ⊥
Reaches _ = Unit

take_logged :
    (d : Desk) (rs : List SyncRecord) (answer : Result SyncResponse) (device : Device)
    → all_logged d (get_unsynced device.logs) ≡ true
    → all_logged d (get_unsynced (take_answer rs answer device).logs) ≡ true
unfolding take_answer
take_logged d rs (err e) device h = h
take_logged d rs (ok s) device h =
    marking_logged d (synced_ids (answers rs s.results)) device.logs h

-- An upload that reaches the backend logs what it finds unsynced, and what is unsynced afterwards is
-- part of that.
upload_logs :
    (c : Crypto) (staff : ℕ) (outcome : Delivery) (device : Device) (desk : Desk)
    (rs : List SyncRecord)
    → get_unsynced device.logs ≡ rs
    → Reaches outcome
    → all_found desk rs ≡ true
    → let (device', desk') = upload c staff outcome rs (device, desk) in
      all_logged desk' (get_unsynced device'.logs) ≡ true
unfolding upload sync_checkin all_logged
upload_logs c staff outcome device desk [] e reaches h = ground (arith, e)
upload_logs c staff outcome device desk (r ∷ rs) e reaches h =
    let n = length (r ∷ rs) in
    let loop = sync_loop (λ s. process_sync_record c s staff) n (r ∷ rs) desk in
    let logged = loop_logs c staff n (r ∷ rs) desk (loop-Answered c staff n (r ∷ rs) desk h) in
    let kept = subst (λ us. all_logged loop.1 us ≡ true) (sym e) logged in
    elim outcome
        as (λ o.
          Reaches o
          → let (device', desk') = upload c staff o (r ∷ rs) (device, desk) in
            all_logged desk' (get_unsynced device'.logs) ≡ true) [
              | delivered ↦ λ _. take_logged loop.1 (r ∷ rs) loop.0 device kept
              | request_lost ↦ λ none_reached. absurd none_reached
              | response_lost ↦ λ _. kept
            ]
      reaches

-- Offline scans get through: where the tickets of the queued scans are there, an upload that reaches
-- the backend, whether its answer arrives or not, and a later upload that is answered leave no scan
-- unsynced, whatever other devices scan and upload in between.
pub uploads_drain :
    (c : Crypto) (staff other : ℕ) (outcome : Delivery) (ss : List Scan) (device : Device)
    (desk : Desk)
    → all_found desk (get_unsynced device.logs) ≡ true
    → Reaches outcome
    → let (device', desk') = trigger_sync c staff outcome (device, desk) in
      get_unsynced (trigger_sync c other delivered (device', scan_all c ss desk')).0.logs ≡ []
unfolding trigger_sync
uploads_drain c staff other outcome ss device desk h reaches =
    let (device', desk') = upload c staff outcome (get_unsynced device.logs) (device, desk) in
    logged_drains c other device' (scan_all c ss desk') (
      scan_all-logged c ss desk' (get_unsynced device'.logs)
        (upload_logs c staff outcome device desk (get_unsynced device.logs) refl reaches h))

-- An upload whose first scan is of a ticket that is not there and of a new event changes nothing, on
-- the device or in the backend, however often it is tried: the scans behind it are not uploaded.
upload_blocked :
    (c : Crypto) (staff : ℕ) (outcome : Delivery) (device : Device) (desk : Desk) (r : SyncRecord)
    (rs : List SyncRecord)
    → get_unsynced device.logs ≡ r ∷ rs
    → find_ticket r.ticket_id desk.tickets ≡ none
    → find_log r.device_id r.offline_event_id desk.logs ≡ none
    → trigger_sync c staff outcome (device, desk) ≡ (device, desk)
unfolding trigger_sync upload take_answer
upload_blocked c staff outcome device desk r rs e missing new =
    let dto : VerifyTicketDto = record {
      ticket_id = r.ticket_id;
      token = r.token;
      device_id = 0;
      gate_id = none;
    } in
    ground (arith, e, unknown_ticket c dto r rs staff desk missing missing new)
