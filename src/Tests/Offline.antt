-- ===== src/Tests/Offline.antt =====
-- The theorems on the scanner app, on a device with two queued scans.
use se_ticketbox.Prelude.{◌≡◌, refl, true, false, some, none, List, [], ◌∷◌}
use se_ticketbox.Prelude.Text.{codes, text_eq}
use se_ticketbox.Store.{ok}
use se_ticketbox.Ticket.Token.{recompute_signature}
use se_ticketbox.Ticket.Qr.{QrParts, plain, build_qr_payload, parse_qr_payload}
use se_ticketbox.Checkin.Desk.{
  Desk, find_ticket, find_log, check_in, gates_differ, signature_fails, token_fails,
  log_checkin_attempt, logged,
}
use se_ticketbox.Checkin.Verify.{verify_and_checkin}
use se_ticketbox.Checkin.History.{Scan, online, upload, scan_all}
use se_ticketbox.Checkin.Spec.{Enters, places, scan_all-Enters}
use se_ticketbox.Scanner.{Device, delivered, response_lost, verify_dto, trigger_sync}
use se_ticketbox.Scanner.Idb.{get_unsynced}
use se_ticketbox.Scanner.Parse.{trim, parse_scan, parse_scan-build_qr_payload}
use se_ticketbox.Scanner.Logged.{all_found}
use se_ticketbox.Scanner.Drain.{uploads_drain}
use se_ticketbox.Tests.Data.{crypto, ticket, desk, scan_of, record_of}

abbrev empty_device : Device
empty_device = record { id = 1; gate = codes "A"; logs = []; scanned = [] }

-- Two scans of the ticket of the desk, the first one uploaded.
abbrev device : Device
device = record empty_device {
  logs =
      record { scan = record_of (codes "t") 1; synced = true }
      ∷ record { scan = record_of (codes "t") 2; synced = false }
      ∷ [];
  scanned = codes "t" ∷ [];
}

abbrev day : List Scan
day = online (scan_of (codes "t")) 6 ∷ upload (record_of (codes "t") 1 ∷ []) 7 ∷ []

scan_all-Enters_example : Enters (places desk) (places (scan_all crypto day desk))
scan_all-Enters_example = scan_all-Enters crypto day desk

all_there : all_found desk (get_unsynced device.logs) ≡ true
unfolding all_found get_unsynced find_ticket text_eq
all_there = refl

uploads_drain_example :
    let (device', desk') = trigger_sync crypto 6 response_lost (device, desk) in
    get_unsynced (trigger_sync crypto 7 delivered (device', scan_all crypto day desk')).0.logs ≡ []
uploads_drain_example = uploads_drain crypto 6 7 response_lost day device desk all_there tt

abbrev parts : QrParts
parts = record { ticket_id = codes "t"; raw_token = codes "k"; gate_id = codes "A" }

abbrev entered : Desk
entered = (verify_and_checkin crypto (verify_dto empty_device parts) 6 desk).1

let_in : verify_and_checkin crypto (verify_dto empty_device parts) 6 desk ≡ (ok ticket, entered)
unfolding verify_and_checkin log_checkin_attempt check_in find_ticket gates_differ signature_fails
    token_fails logged text_eq recompute_signature
let_in = refl

not_logged : find_log 1 5 desk.logs ≡ none
unfolding find_log
not_logged = refl

parse_scan-build_qr_payload_example :
    (parse_scan (build_qr_payload (codes "t") (codes "k") (codes "A:1"))
      ≡ some (record { ticket_id = codes "t"; raw_token = codes "k"; gate_id = codes "A:1" }))
    × (parse_qr_payload (build_qr_payload (codes "t") (codes "k") (codes "A:1")) ≡ none)
unfolding plain trim build_qr_payload
parse_scan-build_qr_payload_example =
    parse_scan-build_qr_payload (codes "t") (codes "k") (codes "A:1") refl refl refl refl refl refl
