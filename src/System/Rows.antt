-- ===== src/System/Rows.antt =====
-- Which parts of the handlers leave the row of an order as it is (OrderService, PaymentService and
-- TicketIssueProcessor).
use se_ticketbox.Prelude.{
  ℕ, zero, suc, ◌+◌, ◌≡◌, refl, subst, ap, ◌∙◌, inl, inr, false, some, List, [], ◌∷◌, arith, ◌==◌,
  Option-cases,
}
use se_ticketbox.Prelude.Table.{Table, find, remove, find-put}
use se_ticketbox.Store.{
  Db, Order, OrderItem, Error, Result, ok, err, Result-cases, update_types, update_counters,
}
use se_ticketbox.Store.Updates.{update_types-orders, update_counters-orders}
use se_ticketbox.World.{World, Action}
use se_ticketbox.Ticket.Token.{Crypto}
use se_ticketbox.Ticket.Issue.{issue_tickets, issue_items}
use se_ticketbox.Payment.Url.{create_payment_url}
use se_ticketbox.Payment.Reuse.{Offer, create_payment_url-Offer}
use se_ticketbox.Order.Create.{
  reserve_row, new_order, order_items, Sale, reserve_stage, persist_stage, sync_stage, pay_stage,
  undo_sale, sync_items, delete_order, or_else,
}
use se_ticketbox.Order.Validate.{Meta}

issue_tickets-orders :
    (c : Crypto) (n o : ℕ) (order : Order) (item : OrderItem) (k : ℕ) (db : Db)
    → (issue_tickets c n o order item k db).orders ≡ db.orders
unfolding issue_tickets
issue_tickets-orders c n o order item zero db = refl
issue_tickets-orders c n o order item (suc k) db = issue_tickets-orders c (suc n) o order item k _

-- The order's row.
abbrev pub Row : ℕ → Order → Db → Type 0
Row o x db = find o db.orders ≡ some x

abbrev pub OkRow : ℕ → Order → Result Db → Type 0
OkRow o x (ok db) = Row o x db
OkRow o x (err e) = Unit

pub issue_items-Row :
    (o : ℕ) (x : Order) (c : Crypto) (n k : ℕ) (order : Order) (is : List OrderItem) (db : Db)
    → Row o x db
    → OkRow o x (issue_items c n k order is db)
unfolding issue_items
issue_items-Row o x c n k order [] db h = h
issue_items-Row o x c n k order (i ∷ is) db h =
    elim (Option-cases (find i.ticket_type_id db.ticket_types)) [
      | inl e ↦ rw (e, issue_items) tt
      | inr (row, e) ↦
          rw (e, issue_items)
            (issue_items-Row o x c (n + i.quantity) k order is _
              (ap (find o) (issue_tickets-orders c n k order i i.quantity _) ∙ h))
    ]

sync_items-Row :
    (o : ℕ) (x : Order) (u : ℕ) (ms : List Meta) (db : Db)
    → Row o x db
    → OkRow o x (sync_items u ms db)
unfolding sync_items
sync_items-Row o x u [] db h = h
sync_items-Row o x u (m ∷ ms) db h =
    elim (Result-cases (reserve_row m.quantity (find m.ticket_type_id db.ticket_types))) [
      | inl (row, e) ↦ rw (e, sync_items) (sync_items-Row o x u ms _ h)
      | inr (f, e) ↦ rw (e, sync_items) tt
    ]

find-remove-other : (k j : ℕ) (m : Table Order) → (k == j) ≡ false → find j (remove k m) ≡ find j m
unfolding find remove
find-remove-other k j [] n = refl
find-remove-other k j ((i, w) ∷ m) n = ground (arith, n, find-remove-other k j m n)

delete_order-Row :
    (o k : ℕ) (x : Order) (db : Db)
    → (k == o) ≡ false
    → Row o x db
    → Row o x (or_else db (delete_order k db))
unfolding delete_order
delete_order-Row o k x db n h = ground (arith, n, h, find-remove-other k o db.orders n)

-- An action that leaves the order's row, whether it throws or not.
abbrev pub Leaves : {A : Type 0} → ℕ → Order → Action A → Type 0
Leaves o x m = (w : World) → Row o x w.db → Row o x (m w).1.db

pub reserve_stage-Leaves :
    (o : ℕ) (x : Order) (s : Sale) (u : ℕ) (ms : List Meta) → Leaves o x (reserve_stage s u ms)
unfolding reserve_stage
reserve_stage-Leaves o x s u ms w h = ground (arith, h)

pub persist_stage-Leaves :
    (o : ℕ) (x : Order) (s : Sale) (u c : ℕ) (ms : List Meta)
    → (s.order_id == o) ≡ false
    → Leaves o x (persist_stage s u c ms)
unfolding persist_stage
persist_stage-Leaves o x s u c ms n w h =
    ground (arith, n, h, find-put s.order_id o (new_order s u c ms) w.db.orders)

pub sync_stage-Leaves :
    (o : ℕ) (x : Order) (s : Sale) (u : ℕ) (ms : List Meta)
    → (s.order_id == o) ≡ false
    → Leaves o x (sync_stage s u ms)
unfolding sync_stage
sync_stage-Leaves o x s u ms n w h =
    ground (arith, sync_items-Row o x u ms w.db h, delete_order-Row o s.order_id x w.db n h, h)

undo_sale-Leaves :
    (o : ℕ) (x : Order) (s : Sale) (u : ℕ) (ms : List Meta) (e : Error)
    → (s.order_id == o) ≡ false
    → Leaves o x (undo_sale s u ms e)
unfolding undo_sale
undo_sale-Leaves o x s u ms e n w h =
    let items = order_items s.item_ids ms in
    let db' = (update_types items w.db).0 in
    let db'' = (update_counters u items db').0 in
    let kept : Row o x db'' =
      ap (find o) (update_counters-orders u items db' ∙ update_types-orders items w.db) ∙ h in
    ground (arith, kept, delete_order-Row o s.order_id x db'' n kept)

pub pay_stage-Leaves :
    (o : ℕ) (x : Order) (s : Sale) (u : ℕ) (ms : List Meta)
    → (s.order_id == o) ≡ false
    → Leaves o x (pay_stage s u ms)
unfolding pay_stage
pay_stage-Leaves o x s u ms n w h =
    elim (Result-cases (create_payment_url s.gateway s.order_id u w.db)) [
      | inl ((url, db), e) ↦
          let (_, same) =
            subst (Offer s.order_id u w.db) e
              (create_payment_url-Offer s.gateway s.order_id u w.db) in
          rw (e, pay_stage) (ap (find o) same ∙ h)
      | inr (e, refused) ↦ rw (refused, pay_stage) (undo_sale-Leaves o x s u ms e n w h)
    ]
