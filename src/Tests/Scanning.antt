-- ===== src/Tests/Scanning.antt =====
-- The theorems on tickets, gates and scans, on the ticket of `Tests.Data`.
use se_ticketbox.Prelude.{
  ◌≡◌, ◌≤◌, refl, Bool, true, false, some, List, [], ◌∷◌, All, length, ltb, if◌then◌else◌,
}
use se_ticketbox.Prelude.Text.{Text, codes}
use se_ticketbox.Prelude.Table.{find}
use se_ticketbox.Store.{Db}
use se_ticketbox.Ticket.Token.{recompute_signature}
use se_ticketbox.Ticket.Issue.{process_issue}
use se_ticketbox.Ticket.Admission.{Processed, process_issue_outcome}
use se_ticketbox.Gate.Manage.{create_gate, update_gate, remove_gate}
use se_ticketbox.Gate.Signed.{Signed, SignedAll, gates-Signed}
use se_ticketbox.Checkin.Verify.{verify_and_checkin}
use se_ticketbox.Checkin.Once.{Verified, verify_checked}
use se_ticketbox.Checkin.History.{Scan, online, upload, scan_all, entries, scan_all-once}
use se_ticketbox.Tests.Data.{crypto, desk, scan_of, record_of, paid_order, settled, ticket}

verify_checked_example :
    Verified crypto
      (scan_of (codes "t"))
      6
      desk
      (verify_and_checkin crypto (scan_of (codes "t")) 6 desk)
verify_checked_example = verify_checked crypto (scan_of (codes "t")) 6 desk

abbrev day : List Scan
day =
    online (scan_of (codes "t")) 6
    ∷ upload (record_of (codes "t") 1 ∷ record_of (codes "t") 1 ∷ []) 7
    ∷ online (scan_of (codes "t")) 8
    ∷ []

scan_all-once_example : entries (codes "t") (scan_all crypto day desk).logs ≤ 1
unfolding entries
scan_all-once_example = scan_all-once crypto day (codes "t") desk refl

found_settled : find 8 settled.db.orders ≡ some paid_order
unfolding find
found_settled = refl

process_issue_outcome_example : Processed 8 paid_order settled (process_issue crypto 8 settled)
process_issue_outcome_example = process_issue_outcome crypto 8 settled paid_order found_settled

-- Tickets of two concerts at gates of one name.
abbrev ticketed : Db
ticketed = record settled.db { tickets = ticket ∷ record ticket { concert_id = 5 } ∷ [] }

-- Longer texts come first.
abbrev longer : Text → Text → Bool
longer a b = if ltb (length b) (length a) then true else false

ticketed-Signed : All (Signed crypto) ticketed.tickets
unfolding recompute_signature
ticketed-Signed = (refl, (refl, tt))

gates-Signed_example :
    SignedAll crypto (create_gate 3 4 (codes "C") ticketed)
    × SignedAll crypto (update_gate crypto 1 (some (codes "C")) ticketed)
    × SignedAll crypto (remove_gate longer crypto 1 ticketed)
gates-Signed_example =
    gates-Signed longer crypto 1 3 4 (codes "C") (some (codes "C")) ticketed ticketed-Signed
