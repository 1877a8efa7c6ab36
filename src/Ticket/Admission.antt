-- ===== src/Ticket/Admission.antt =====
-- From the issue of a ticket to the gate: what `generateQrToken` makes is what the scan asks for
-- (backend/src/modules/payment/payment.service.ts, backend/src/modules/checkin/checkin.service.ts).
use se_ticketbox.Prelude.{
  ℕ, zero, suc, ap, not, subst, ◌&&◌, Option-cases, inl, inr, ◌+◌, ◌≡◌, ◌≤◌, refl, Bool, true,
  false, some, List, [], ◌∷◌, ◌++◌, arith, sum_of,
}
use se_ticketbox.Prelude.Text.{Text, text_eq_refl}
use se_ticketbox.Store.{Order, OrderStatus, OrderItem, Ticket, Db, set_counter, Result, ok, err}
use se_ticketbox.Gate.Load.{find_least_loaded_gate}
use se_ticketbox.Prelude.Table.{find, put}
use se_ticketbox.Prelude.Int.{pos, ◌-ℤ◌}
use se_ticketbox.Payment.Settle.{paid_counter}
use se_ticketbox.Ticket.Token.{
  recompute_signature, gate_name, Crypto, new_ticket, item_tickets, order_tickets, or_null,
}
use se_ticketbox.Ticket.Issue.{
  issue_tickets, issue_items, ticket_count, process_issue, Issued, skipped, already_issued, issued,
}
use se_ticketbox.World.{World}
use se_ticketbox.Checkin.Desk.{gates_differ, signature_fails, token_fails, or_empty}
use se_ticketbox.Checkin.Once.{Admissible}

or_empty-or_null : (name : Text) → or_empty (or_null name) ≡ name
or_empty-or_null [] = refl
or_empty-or_null (c ∷ s) = refl

-- A new ticket passes every check of a scan that shows its raw token at its own gate, whatever hash
-- and signature functions are used.
new_ticket-Admissible :
    (c : Crypto) (n order_id : ℕ) (order : Order) (item : OrderItem) (name : Text)
    → let t = new_ticket c n order_id order item name in Admissible c t.gate_id t.qr_raw_token t
unfolding new_ticket gates_differ signature_fails token_fails
new_ticket-Admissible c n order_id order item name = record {
  was_issued = refl;
  gates_agree = own name;
  signature_holds = rw (or_empty-or_null name) (
      nor _
        (text_eq_refl (recompute_signature c (c.ticket_uuid n) (c.sha256 (c.token_uuid n)) name)));
  token_holds = ap not (text_eq_refl (c.sha256 (c.token_uuid n)));
}
  where
    own : (name : Text) → gates_differ (or_null name) (or_null name) ≡ false
    own [] = refl
    own (x ∷ s) = ap not (text_eq_refl (x ∷ s))

    nor : (b : Bool) {e : Bool} → e ≡ true → (b && not e) ≡ false
    nor true h = ap not h
    nor false h = refl

-- The tickets of an order, among those of all orders.
item_tickets-count :
    (c : Crypto) (n o : ℕ) (order : Order) (item : OrderItem) (name : Text) (k : ℕ)
    → ticket_count o (item_tickets c n o order item name k) ≡ k
unfolding ticket_count item_tickets new_ticket
item_tickets-count c n o order item name zero = refl
item_tickets-count c n o order item name (suc k) =
    ground (arith, item_tickets-count c (suc n) o order item name k)

pub ticket_count-append :
    (o : ℕ) (ts us : List Ticket)
    → ticket_count o (ts ++ us) ≡ ticket_count o ts + ticket_count o us
unfolding ticket_count
ticket_count-append o [] us = omega arith
ticket_count-append o (t ∷ ts) us = ground (arith, ticket_count-append o ts us)

-- A settled order gets as many tickets as its items ask for.
pub order_tickets-count :
    (c : Crypto) (n o : ℕ) (order : Order) (name : Text) (is : List OrderItem)
    → ticket_count o (order_tickets c n o order name is) ≡ sum_of (λ i. i.quantity) is
unfolding ticket_count order_tickets
order_tickets-count c n o order name [] = refl
order_tickets-count c n o order name (i ∷ is) = omega (
  arith,
  ticket_count-append o (item_tickets c n o order i name i.quantity)
      (order_tickets c (n + i.quantity) o order name is),
  item_tickets-count c n o order i name i.quantity,
  order_tickets-count c (n + i.quantity) o order name is,
)

issue_tickets-count :
    (c : Crypto) (n o : ℕ) (order : Order) (item : OrderItem) (k : ℕ) (db : Db)
    → ticket_count o (issue_tickets c n o order item k db).tickets ≡ ticket_count o db.tickets + k
unfolding issue_tickets ticket_count new_ticket
issue_tickets-count c n o order item zero db = omega arith
issue_tickets-count c n o order item (suc k) db =
    let name = gate_name (find_least_loaded_gate order.concert_id db) in
    let t = new_ticket c n o order item name in
    ground (
      arith,
      ticket_count-append o db.tickets (t ∷ []),
      issue_tickets-count c (suc n) o order item k (record db { tickets = db.tickets ++ t ∷ [] }),
    )

abbrev pub IssuedAll : ℕ → ℕ → Result Db → Type 0
IssuedAll o n (ok db) = ticket_count o db.tickets ≡ n
IssuedAll o n (err e) = Unit

issue_items-count :
    (c : Crypto) (n o : ℕ) (order : Order) (is : List OrderItem) (db : Db)
    → IssuedAll o
        (ticket_count o db.tickets + sum_of (λ i. i.quantity) is)
        (issue_items c n o order is db)
unfolding issue_items
issue_items-count c n o order [] db = omega arith
issue_items-count c n o order (i ∷ is) db =
    elim (Option-cases (find i.ticket_type_id db.ticket_types)) [
      | inl e ↦ rw (e, issue_items) tt
      | inr (row, e) ↦
          let row' = record row {
            sold_qty = row.sold_qty + i.quantity;
            reserved_qty = row.reserved_qty -ℤ pos i.quantity;
          } in
          let sold = record db { ticket_types = put i.ticket_type_id row' db.ticket_types } in
          let counted =
            set_counter order.user_id i.ticket_type_id
              (paid_counter i.quantity (sold.counters order.user_id i.ticket_type_id)) sold in
          let now_issued = issue_tickets c n o order i i.quantity counted in
          rw (e, issue_items)
            (subst (λ m. IssuedAll o m (issue_items c (n + i.quantity) o order is now_issued))
              (omega (arith, issue_tickets-count c n o order i i.quantity counted))
              (issue_items-count c (n + i.quantity) o order is now_issued))
    ]

abbrev pub Processed : ℕ → Order → World → Result Issued × World → Type 0
Processed o order w (ok skipped, w') = (¬ (order.status ≡ OrderStatus.paid)) × (w' ≡ w)
Processed o order w (ok (already_issued n), w') =
    (n ≡ ticket_count o w.db.tickets) × (1 ≤ n) × (w' ≡ w)
Processed o order w (ok issued, w') =
    (order.status ≡ OrderStatus.paid)
    × (ticket_count o w.db.tickets ≡ 0)
    × (ticket_count o w'.db.tickets ≡ sum_of (λ i. i.quantity) order.items)
Processed o order w (err e, w') = w' ≡ w

-- The ticket job on an order that is there: it issues exactly as many tickets as the items ask for, and only
-- where the order is PAID and has none. Else it changes nothing, also where it fails.
pub process_issue_outcome :
    (c : Crypto) (o : ℕ) (w : World) (order : Order)
    → find o w.db.orders ≡ some order
    → Processed o order w (process_issue c o w)
unfolding process_issue
process_issue_outcome c o w order e =
    ground (arith, e, issue_items-count c 0 o order order.items w.db)
