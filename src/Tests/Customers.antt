-- ===== src/Tests/Customers.antt =====
-- The theorems on what customers see, pay and register, and on guest lists, at concrete data.
use se_ticketbox.Prelude.{◌≡◌, refl, true, false, some, none, [], ◌∷◌, ◌++◌}
use se_ticketbox.Prelude.Text.{codes, text_eq}
use se_ticketbox.Store.{Db, Role, ok}
use se_ticketbox.Ticket.Token.{recompute_signature}
use se_ticketbox.Ticket.Qr.{plain, build_qr_payload}
use se_ticketbox.Ticket.Queries.{get_ticket_qr_data}
use se_ticketbox.Checkin.Desk.{find_ticket, gates_differ, signature_fails, token_fails}
use se_ticketbox.Checkin.Once.{Admissible}
use se_ticketbox.Scanner.{Device, delivered, valid, handle_scan, gate_or_none}
use se_ticketbox.Scanner.Parse.{trim}
use se_ticketbox.Scanner.Shown.{qr_data_scanned}
use se_ticketbox.Accounts.{Users, Library, RegisterDto, register}
use se_ticketbox.Accounts.Login.{LogsIn, register-LogsIn}
use se_ticketbox.Guests.Csv.{RawCsvRow, parse_buffer}
use se_ticketbox.Guests.{entries, process_import}
use se_ticketbox.Guests.Again.{without_email, import_again}
use se_ticketbox.Tests.Data.{crypto, ticket, desk, settled}

abbrev ticketed : Db
ticketed = record settled.db { tickets = ticket ∷ [] }

abbrev device : Device
device = record { id = 1; gate = codes "A"; logs = []; scanned = [] }

shown : get_ticket_qr_data (codes "t") 3 ticketed ≡ ok (codes "t:k:A")
unfolding get_ticket_qr_data find_ticket text_eq build_qr_payload
shown = refl

stored : find_ticket (codes "t") ticketed.tickets ≡ some ticket
unfolding find_ticket text_eq
stored = refl

admissible : Admissible crypto (gate_or_none device.gate) ticket.qr_raw_token ticket
unfolding gates_differ signature_fails token_fails text_eq recompute_signature
admissible = record {
  was_issued = refl;
  gates_agree = refl;
  signature_holds = refl;
  token_holds = refl;
}

plain_id : plain (codes "t") ≡ true
unfolding plain
plain_id = refl

plain_token : plain (codes "k") ≡ true
unfolding plain
plain_token = refl

trimmed : trim (codes "t:k:A") ≡ codes "t:k:A"
unfolding trim
trimmed = refl

qr_data_scanned_example :
    (handle_scan crypto 6 true delivered 9 (codes "t:k:A") (device, desk)).0 ≡ valid false
qr_data_scanned_example =
    qr_data_scanned crypto 6 3 9 (codes "t") (codes "t:k:A") ticket device ticketed desk shown
      stored stored admissible plain_id plain_token refl refl refl trimmed

abbrev library : Library
library = record {
  normalize = λ s. s;
  hash = λ password salt. password;
  compare = λ password password_hash. text_eq password password_hash;
  sign = λ id u. id ∷ [];
}

abbrev newcomer : RegisterDto
newcomer = record { email = codes "c@d.e"; password = codes "pw"; full_name = none }

abbrev users : Users
users =
    (
      1,
      record {
        email = codes "a@b.c";
        phone = none;
        password_hash = codes "x";
        full_name = some (codes "A");
        role = Role.customer;
      },
    )
    ∷ []

accepted : text_eq (codes "pw") (codes "pw") ≡ true
unfolding text_eq
accepted = refl

register-LogsIn_example :
    LogsIn library (codes "c@d.e") newcomer (register library 2 (codes "s") newcomer users)
register-LogsIn_example =
    register-LogsIn library 2 (codes "s") (codes "c@d.e") newcomer users accepted refl

abbrev row : RawCsvRow
row = record {
  full_name = codes "A";
  name = [];
  email = codes "a@b.c";
  phone = [];
  sponsor_name = [];
  sponsor = [];
}

import_again_example :
    let file = some (row ∷ record row { email = [] } ∷ []) in
    let gs' = (process_import 4 (codes "f") true file []).2 in
    (process_import 4 (codes "g") true file gs').2
    ≡ gs'
      ++ entries 4
          (codes "g")
          (without_email (parse_buffer (row ∷ record row { email = [] } ∷ [])).0)
import_again_example =
    import_again 4 (codes "f") (codes "g") true true row (record row { email = [] } ∷ []) []
