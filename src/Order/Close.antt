-- ===== src/Order/Close.antt =====
-- How an order ends without a payment: `cancelOrder` and `expireOrder` of
-- backend/src/modules/order/order.service.ts. Both read the order, test it, and then write without
-- a transaction, so each is a test followed by writes that use the order as it was read.
use se_ticketbox.Prelude.{ℕ, Bool, false, not, ◌&&◌, Option, none, some, ltb, ◌==◌, if◌then◌else◌}
use se_ticketbox.Prelude.Table.{find, adjust}
use se_ticketbox.Store.{
  Db, Order, OrderItem, OrderStatus, ReleaseReason, Error, not_found, bad_request, unauthorized,
  database, Result, ok, err, or_fail, guard, update_types, update_counters,
}
use se_ticketbox.Store
use se_ticketbox.World.{Action, ◌>>=◌, reads, set_db, set_redis, release_all}
use se_ticketbox.Payment.Url.{is_pending}
use se_ticketbox.Payment.Settle.{close_order}

abbrev pub cancel_row : ℕ → Order → Order
cancel_row now o = record (close_order now OrderStatus.cancelled ReleaseReason.cancelled o) {
  cancelled_at = some now;
}

-- The checks of `cancelOrder`, on the order that is read.
unfoldable pub check_cancel : ℕ → ℕ → Db → Result Order
check_cancel order_id user_id db = Store.◌>>=◌ (or_fail (find order_id db.orders) not_found) λ o.
    Store.◌>>◌ (guard (o.user_id == user_id) unauthorized)
      (Store.◌>>◌ (guard (is_pending o.status) bad_request) (ok o))

-- The writes of `cancelOrder`: Redis, the counters started together, and then the order.
unfoldable pub cancel_writes : ℕ → ℕ → ℕ → Order → Action (Unit {0})
cancel_writes now order_id user_id o w =
    let v = set_redis (release_all now user_id order_id o.items w.redis) w in
    let (db', types) = update_types o.items w.db in
    let (db'', counters) = update_counters user_id o.items db' in
    if types && counters
    then (ok tt, set_db (record db'' { orders = adjust order_id (cancel_row now) db''.orders }) v)
    else (err database, set_db db'' v)

unfoldable pub cancel_order : ℕ → ℕ → ℕ → Action (Unit {0})
cancel_order now order_id user_id = do
  o ← reads (λ w. check_cancel order_id user_id w.db)
  cancel_writes now order_id user_id o

abbrev pub not_yet : ℕ → Option ℕ → Bool
not_yet now none = false
not_yet now (some at) = ltb now at

-- The checks of `expireOrder`: an order that is gone, not pending or not yet due is skipped.
due : ℕ → Option Order → Option Order
due now none = none
due now (some o) =
    if not (is_pending o.status) then none else if not_yet now o.expires_at then none else some o

-- The writes of `expireOrder`: Redis, the users' counters, the ticket types, and then the order.
unfoldable pub expire_writes : ℕ → ℕ → Order → Action (Unit {0})
expire_writes now order_id o w =
    let v = set_redis (release_all now o.user_id order_id o.items w.redis) w in
    let (db', counters) = update_counters o.user_id o.items w.db in
    let (db'', types) = update_types o.items db' in
    if counters
    then if types
      then (
        ok tt,
        set_db
            (record db'' {
              orders =
                  adjust order_id
                    (close_order now OrderStatus.expired ReleaseReason.payment_timeout) db''.orders;
            })
            v,
      )
      else (err database, set_db db'' v)
    else (err database, set_db db' v)

expire_due : ℕ → ℕ → Option Order → Action (Unit {0})
expire_due now order_id none w = (ok tt, w)
expire_due now order_id (some o) w = expire_writes now order_id o w

unfoldable pub expire_order : ℕ → ℕ → Action (Unit {0})
unfolding due expire_due
expire_order now order_id w = expire_due now order_id (due now (find order_id w.db.orders)) w
