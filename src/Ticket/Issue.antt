-- ===== src/Ticket/Issue.antt =====
-- The worker that issues the tickets of a paid order:
-- backend/src/worker/processors/ticket-issue.processor.ts.
use se_ticketbox.Prelude.{
  ℕ, zero, suc, ◌+◌, Option, none, some, List, [], ◌∷◌, ◌++◌, ◌==◌, if◌then◌else◌,
}
use se_ticketbox.Prelude.Int.{pos, ◌-ℤ◌}
use se_ticketbox.Prelude.Table.{find, put}
use se_ticketbox.Store.{
  Db, Order, OrderItem, OrderStatus, Ticket, database, Result, ok, err, ◌>>=◌, or_fail, set_counter,
}
use se_ticketbox.World.{Action, set_db}
use se_ticketbox.Gate.Load.{find_least_loaded_gate}
use se_ticketbox.Ticket.Token.{Crypto, gate_name, new_ticket}
use se_ticketbox.Payment.Settle.{paid_counter}

-- The tickets of one item, `k` of them. Each goes to the gate that is least loaded by then.
unfoldable pub issue_tickets : Crypto → ℕ → ℕ → Order → OrderItem → ℕ → Db → Db
issue_tickets c n order_id order item zero db = db
issue_tickets c n order_id order item (suc k) db =
    let name = gate_name (find_least_loaded_gate order.concert_id db) in
    issue_tickets c (suc n) order_id order item k
      (record db { tickets = db.tickets ++ new_ticket c n order_id order item name ∷ [] })

-- The body of the transaction: the type's quantities, the user's counter and the tickets of each item.
unfoldable pub issue_items : Crypto → ℕ → ℕ → Order → List OrderItem → Db → Result Db
issue_items c n order_id order [] db = ok db
issue_items c n order_id order (i ∷ is) db = do
  row ← or_fail (find i.ticket_type_id db.ticket_types) database
  let sold = record db {
    ticket_types =
        put i.ticket_type_id
          (record row {
            sold_qty = row.sold_qty + i.quantity;
            reserved_qty = row.reserved_qty -ℤ pos i.quantity;
          })
          db.ticket_types;
  }
  let counted =
      set_counter order.user_id i.ticket_type_id
        (paid_counter i.quantity (sold.counters order.user_id i.ticket_type_id)) sold
  issue_items c (n + i.quantity) order_id order is
      (issue_tickets c n order_id order i i.quantity counted)

unfoldable pub ticket_count : ℕ → List Ticket → ℕ
ticket_count order_id [] = 0
ticket_count order_id (t ∷ ts) =
    (if t.order_id == order_id then 1 else 0) + ticket_count order_id ts

-- `Error` here is a failed job, which BullMQ tries again.
pub data Issued : Type 0 where
  skipped : Issued
  already_issued : ℕ → Issued
  issued : Issued

commit : Result Db → Action Issued
commit (ok db) w = (ok issued, set_db db w)
commit (err e) w = (err e, w)

-- From the check for tickets that are there already on.
issue_paid : Crypto → ℕ → Order → Action Issued
unfolding commit
issue_paid c order_id order w = elim (ticket_count order_id w.db.tickets) [
  | zero ↦ commit (issue_items c 0 order_id order order.items w.db) w
  | suc n ↦ (ok (already_issued (suc n)), w)
]

issue_by : Crypto → ℕ → Order → OrderStatus → List OrderItem → Action Issued
unfolding issue_paid
issue_by c order_id order OrderStatus.paid [] w = (err database, w)
issue_by c order_id order OrderStatus.paid (i ∷ is) w = issue_paid c order_id order w
issue_by c order_id order _ _ w = (ok skipped, w)

issue_found : Crypto → ℕ → Option Order → Action Issued
unfolding issue_by
issue_found c order_id none w = (err database, w)
issue_found c order_id (some order) w = issue_by c order_id order order.status order.items w

-- `process`.
unfoldable pub process_issue : Crypto → ℕ → Action Issued
unfolding issue_found
process_issue c order_id w = issue_found c order_id (find order_id w.db.orders) w
