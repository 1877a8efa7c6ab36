-- ===== src/Order/Ending.antt =====
-- How orders end: what expiry, a late cancellation and a refused gateway leave behind
-- (`expireOrder`, `cancelOrder` and `createOrder` of backend/src/modules/order/order.service.ts).
use se_ticketbox.Prelude.{
  ℕ, suc, ◌*◌, ◌≡◌, refl, sym, subst, ap, ◌∙◌, false, none, some, List, [], ◌∷◌, arith, sum_of,
}
use se_ticketbox.Prelude.Table.{find, find-adjust}
use se_ticketbox.Redis.{Redis, Hold, get_reservation, LuaReply, success, failure}
use se_ticketbox.Redis.Laws.{release_reservation_outcome, ReleaseOutcome}
use se_ticketbox.Store.{
  Db, Order, OrderItem, OrderStatus, ReleaseReason, Error, database, Result, ok, err, update_types,
  update_counters,
}
use se_ticketbox.Store.Updates.{
  update_types-orders, update_counters-orders, update_types-tickets, update_counters-tickets,
}
use se_ticketbox.World.{World, release_holds, item_hold, release_all}
use se_ticketbox.Payment.Url.{create_payment_url}
use se_ticketbox.Payment.Settle.{close_order}
use se_ticketbox.Order.Validate.{Meta}
use se_ticketbox.Order.Create.{Sale, order_items, new_order, delete_order, pay_stage, undo_sale}
use se_ticketbox.Order.Close.{cancel_row, cancel_writes, expire_writes, expire_order, not_yet}

no_release :
    (now : ℕ) (h : Hold) (r : Redis) (p : LuaReply × Redis)
    → get_reservation now h.order_id r ≡ none
    → ReleaseOutcome now h r p
    → p.1 ≡ r
no_release now h r (success n m, s') gone found = absurd (ground (arith, gone, found.1))
no_release now h r (failure e, s') gone refused = refused.0

-- The releases of an order that has no live reservation change nothing.
release_all-gone :
    (now u o : ℕ) (is : List OrderItem) (r : Redis)
    → get_reservation now o r ≡ none
    → release_all now u o is r ≡ r
unfolding release_holds
release_all-gone now u o [] r gone = refl
release_all-gone now u o (i ∷ is) r gone =
    let h = item_hold u o i in
    let same = no_release now h r _ gone (release_reservation_outcome now h r) in
    subst (λ v. release_all now u o is v ≡ r) (sym same) (release_all-gone now u o is r gone)

abbrev pub Ended : ℕ → ℕ → Order → World → Result (Unit {0}) × World → Type 0
Ended now o order w (ok u, w') =
    (find o w'.db.orders
      ≡ some (close_order now OrderStatus.expired ReleaseReason.payment_timeout order))
    × (w'.redis ≡ w.redis)
Ended now o order w (err e, w') = (find o w'.db.orders ≡ some order) × (w'.redis ≡ w.redis)

-- The job that expires a pending order that is due, at a time when the order has no live
-- reservation: the order ends as EXPIRED, or its row stays where the database throws, and Redis stays
-- as it is, so that its stock and counters do not get the order's tickets back.
pub expire_order_keeps_stock :
    (now o : ℕ) (w : World) (order : Order)
    → find o w.db.orders ≡ some order
    → order.status ≡ OrderStatus.pending_payment
    → not_yet now order.expires_at ≡ false
    → get_reservation now o w.redis ≡ none
    → Ended now o order w (expire_order now o w)
unfolding expire_order expire_writes
expire_order_keeps_stock now o w order e st due gone =
    let u = order.user_id in
    let db' = (update_counters u order.items w.db).0 in
    let db'' = (update_types order.items db').0 in
    ground (
      arith,
      e,
      st,
      due,
      release_all-gone now u o order.items w.redis gone,
      update_counters-orders u order.items w.db,
      update_types-orders order.items db',
      find-adjust o o (close_order now OrderStatus.expired ReleaseReason.payment_timeout)
          db''.orders,
    )

abbrev pub Overwritten : ℕ → ℕ → Order → World → Result (Unit {0}) × World → Type 0
Overwritten now o later w (ok u, w') =
    (find o w'.db.orders ≡ some (cancel_row now later)) × (w'.db.tickets ≡ w.db.tickets)
Overwritten now o later w (err e, w') = find o w'.db.orders ≡ some later

-- The writes of a cancellation do not look at the order again: whatever its row says by then, also
-- that it is paid, they make it CANCELLED and leave its tickets, or stop at the database's error with
-- the row as it was.
pub cancel_writes_overwrite :
    (now o u : ℕ) (order later : Order) (w : World)
    → find o w.db.orders ≡ some later
    → Overwritten now o later w (cancel_writes now o u order w)
unfolding cancel_writes
cancel_writes_overwrite now o u order later w e =
    let db' = (update_types order.items w.db).0 in
    let db'' = (update_counters u order.items db').0 in
    ground (
      arith,
      e,
      update_types-orders order.items w.db,
      update_counters-orders u order.items db',
      update_types-tickets order.items w.db,
      update_counters-tickets u order.items db',
      find-adjust o o (cancel_row now) db''.orders,
    )

order_items-total :
    (id : ℕ) (ms : List Meta)
    → sum_of (λ i. i.subtotal) (order_items id ms) ≡ sum_of (λ m. m.unit_price * m.quantity) ms
unfolding order_items
order_items-total id [] = refl
order_items-total id (m ∷ ms) = ground (arith, order_items-total (suc id) ms)

-- A new order is pending, and its total is the sum of its items' subtotals.
pub new_order-total :
    (s : Sale) (u c : ℕ) (ms : List Meta)
    → let x = new_order s u c ms in
      (x.status ≡ OrderStatus.pending_payment) × (x.total_amount ≡ sum_of (λ i. i.subtotal) x.items)
unfolding new_order
new_order-total s u c ms = (refl, sym (order_items-total s.item_ids ms))

delete_order_refused :
    (o : ℕ) (order : Order) (i : OrderItem) (is : List OrderItem) (db : Db)
    → find o db.orders ≡ some order
    → order.items ≡ i ∷ is
    → delete_order o db ≡ err database
unfolding delete_order
delete_order_refused o order i is db e items = ground (arith, e, items)

-- Where the gateway gives no payment address, the rollback does not get rid of an order that has items: its row stays
-- as it was, and the request ends with the database's error in place of the gateway's.
pay_stage_keeps_order :
    (s : Sale) (u : ℕ) (ms : List Meta) (w : World) (order : Order) (i : OrderItem)
    (is : List OrderItem) {e : Error}
    → create_payment_url s.gateway s.order_id u w.db ≡ err e
    → find s.order_id w.db.orders ≡ some order
    → order.items ≡ i ∷ is
    → let (result, w') = pay_stage s u ms w in
      (result ≡ err database) × (find s.order_id w'.db.orders ≡ some order)
unfolding pay_stage undo_sale
pay_stage_keeps_order s u ms w order i is refused e items =
    let rows = order_items s.item_ids ms in
    let db' = (update_types rows w.db).0 in
    let db'' = (update_counters u rows db').0 in
    let kept : find s.order_id db''.orders ≡ some order =
      ap (find s.order_id) (update_counters-orders u rows db' ∙ update_types-orders rows w.db)
      ∙ e in
    ground (arith, refused, kept, delete_order_refused s.order_id order i is db'' kept items)
