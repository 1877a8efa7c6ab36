-- ===== src/Mailing.antt =====
-- The worker that sends mails: backend/src/worker/processors/notification.processor.ts. Whether a mail
-- goes out is a parameter; the mails that the mail service was asked for are kept in a list. The table
-- of users is in the order in which they were made.
pub mod Batches
use se_ticketbox.Prelude.{
  ℕ, zero, suc, ◌+◌, Bool, true, false, not, ◌&&◌, Option, none, some, List, [], ◌∷◌, ◌++◌, map,
  ◌==◌, if◌then◌else◌, length, take,
}
use se_ticketbox.Prelude.Table.{find}
use se_ticketbox.Prelude.Text.{Text}
use se_ticketbox.Store.{Db, Concert, ConcertStatus, Order, Ticket, TicketStatus}
use se_ticketbox.Accounts.{User, Users}
use se_ticketbox.Gate.Load.{is_active}
use se_ticketbox.Ticket.Issue.{ticket_count}

-- A row of the query for a reminder: the user and the number of valid tickets.
pub record Recipient : Type 0 where
  pub id : ℕ
  pub email : Text
  pub ticket_count : ℕ

-- A mail that the mail service was asked to send.
pub data Mail : Type 0 where
  order_confirmation : (order_id : ℕ) (email : Text) (ticket_count : ℕ) (total_amount : ℕ) → Mail
  concert_reminder : (email : Text) (ticket_count : ℕ) → Mail

-- A user's valid tickets of a concert.
unfoldable pub count_valid : (user_id concert_id : ℕ) → List Ticket → ℕ
count_valid user_id concert_id [] = 0
count_valid user_id concert_id (t ∷ ts) =
    let rest = count_valid user_id concert_id ts in
    if t.user_id == user_id && (t.concert_id == concert_id && is_active t.status)
    then suc rest
    else rest

-- The users with a valid ticket of the concert.
unfoldable pub recipients : ℕ → List Ticket → Users → List Recipient
unfolding count_valid
recipients concert_id ts [] = []
recipients concert_id ts ((id, u) ∷ us) =
    let n = count_valid id concert_id ts in
    let rest = recipients concert_id ts us in
    if n == 0 then rest else record { id = id; email = u.email; ticket_count = n } ∷ rest

abbrev pub batch_size : ℕ
batch_size = 100

-- The rows behind the cursor's.
unfoldable pub after : ℕ → List Recipient → List Recipient
after c [] = []
after c (r ∷ rs) = if r.id == c then rs else after c rs

-- The `findMany` of one round.
abbrev pub behind : Option ℕ → List Recipient → List Recipient
behind none rows = rows
behind (some c) rows = after c rows

unfoldable pub find_batch : Option ℕ → List Recipient → List Recipient
unfolding after
find_batch cursor rows = take batch_size (behind cursor rows)

-- `users[users.length - 1].id`.
unfoldable pub last_id : List Recipient → Option ℕ
last_id [] = none
last_id (r ∷ []) = some r.id
last_id (r ∷ s ∷ rs) = last_id (s ∷ rs)

pub record Progress : Type 0 where
  pub mails : List Mail
  pub total_processed : ℕ
  pub total_sent : ℕ
  pub total_skipped : ℕ

abbrev pub remind : (Mail → Bool) → Recipient → Progress → Progress
remind delivers r p =
    let m = concert_reminder r.email r.ticket_count in
    record {
      mails = p.mails ++ m ∷ [];
      total_processed = p.total_processed + 1;
      total_sent = if delivers m then p.total_sent + 1 else p.total_sent;
      total_skipped = if delivers m then p.total_skipped else p.total_skipped + 1;
    }

-- One round: every user of the batch, one after another.
unfoldable pub remind_all : (Mail → Bool) → List Recipient → Progress → Progress
remind_all delivers [] p = p
remind_all delivers (r ∷ rs) p = remind_all delivers rs (remind delivers r p)

-- `while (true)`, on fuel: none means that it ran out.
unfoldable pub remind_loop :
    ℕ → (Mail → Bool) → List Recipient → Option ℕ → Progress → Option Progress
unfolding find_batch last_id remind_all
remind_loop zero delivers rows cursor p = none
remind_loop (suc fuel) delivers rows cursor p =
    let users = find_batch cursor rows in
    elim users [
      | [] ↦ some p
      | u ∷ us ↦ remind_loop fuel delivers rows (last_id (u ∷ us)) (remind_all delivers (u ∷ us) p)
    ]

abbrev pub nothing_sent : Progress
nothing_sent = record { mails = []; total_processed = 0; total_sent = 0; total_skipped = 0 }

pub data Reply : Type 0 where
  skipped_missing skipped_cancelled unknown_job : Reply
  order_not_found not_delivered : Reply
  confirmed : (order_id : ℕ) (email : Text) → Reply
  reminded : (total_sent total_skipped : ℕ) → Reply

abbrev pub is_cancelled : ConcertStatus → Bool
is_cancelled ConcertStatus.cancelled = true
is_cancelled _ = false

abbrev pub reminder_reply : Progress → Reply × List Mail
reminder_reply p = (reminded p.total_sent p.total_skipped, p.mails)

abbrev pub or_stuck : Option Progress → Option (Reply × List Mail)
or_stuck none = none
or_stuck (some p) = some (reminder_reply p)

-- `handleConcertReminder`.
unfoldable pub handle_concert_reminder :
    ℕ → (Mail → Bool) → ℕ → Db → Users → Option (Reply × List Mail)
unfolding recipients remind_loop
handle_concert_reminder fuel delivers concert_id db us = elim (find concert_id db.concerts) [
  | none ↦ some (skipped_missing, [])
  | some concert ↦
      if is_cancelled concert.status
      then some (skipped_cancelled, [])
      else or_stuck
          (remind_loop fuel delivers (recipients concert_id db.tickets us) none nothing_sent)
]

-- `handleOrderPaid`. The user of an order is there, by a foreign key.
abbrev pub confirm : (Mail → Bool) → ℕ → Order → ℕ → Option User → Reply × List Mail
confirm delivers order_id order n none = (order_not_found, [])
confirm delivers order_id order n (some u) =
    let m = order_confirmation order_id u.email n order.total_amount in
    (if delivers m then confirmed order_id u.email else not_delivered, m ∷ [])

unfoldable pub handle_order_paid : (Mail → Bool) → ℕ → Db → Users → Reply × List Mail
handle_order_paid delivers order_id db us = elim (find order_id db.orders) [
  | none ↦ (order_not_found, [])
  | some order ↦
      confirm delivers order_id order (ticket_count order_id db.tickets) (find order.user_id us)
]

pub data JobData : Type 0 where
  concert_reminder_24h send_order_paid_email : (id : ℕ) → JobData
  other_job : JobData

-- `process`, by the name of the job.
unfoldable pub process_notification :
    ℕ → (Mail → Bool) → JobData → Db → Users → Option (Reply × List Mail)
unfolding handle_concert_reminder handle_order_paid
process_notification fuel delivers (concert_reminder_24h id) db us =
    handle_concert_reminder fuel delivers id db us
process_notification fuel delivers (send_order_paid_email id) db us =
    some (handle_order_paid delivers id db us)
process_notification fuel delivers other_job db us = some (unknown_job, [])
