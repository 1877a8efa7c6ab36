-- ===== src/Payment/Cron.antt =====
-- The cron job for orders that are past their time:
-- backend/src/modules/payment/services/payment-cron.service.ts. Broadcasts are left out.
use se_ticketbox.Prelude.{
  ℕ, Bool, false, ◌&&◌, Option, none, some, [], ◌∷◌, ◌++◌, ltb, if◌then◌else◌, take,
}
use se_ticketbox.Prelude.Table.{Table, find, adjust}
use se_ticketbox.Store.{Db, Order, OrderStatus, Payment, PaymentStatus, ReleaseReason}
use se_ticketbox.World.{World, set_db, set_redis, release_all}
use se_ticketbox.Payment.Url.{is_pending}
use se_ticketbox.Payment.Settle.{close_order, mark_paid, give_back_items}

-- What the gateway says of an order (`verifyTransaction`).
pub data VerifyResult : Type 0 where
  success failed pending : VerifyResult

cron_payment : ℕ → ℕ → ℕ → PaymentStatus → Payment
cron_payment now order_id amount status = record {
  order_id = order_id;
  status = status;
  amount = amount;
  provider_transaction_id = none;
  payment_url = none;
  received_at = some now;
}

-- The transaction of `markOrderPaidFromCron`.
unfoldable pub mark_paid_db : ℕ → ℕ → ℕ → Db → Db
unfolding cron_payment
mark_paid_db now order_id amount db = elim (find order_id db.orders) [
  | none ↦ db
  | some latest ↦
      if is_pending latest.status
      then record db {
        payments = db.payments ++ cron_payment now order_id amount PaymentStatus.success ∷ [];
        orders = adjust order_id (mark_paid now) db.orders;
      }
      else db
]

-- `markOrderPaidFromCron`: the ticket job is queued whatever the transaction did.
unfoldable pub mark_order_paid_from_cron : ℕ → ℕ → ℕ → World → World
unfolding mark_paid_db
mark_order_paid_from_cron now order_id amount w = record w {
  db = mark_paid_db now order_id amount w.db;
  issue_queue = w.issue_queue ++ order_id ∷ [];
}

abbrev pub cron_status : VerifyResult → OrderStatus
cron_status failed = OrderStatus.payment_failed
cron_status _ = OrderStatus.expired

abbrev pub cron_payment_status : VerifyResult → PaymentStatus
cron_payment_status failed = PaymentStatus.failed
cron_payment_status _ = PaymentStatus.timeout

abbrev pub cron_reason : VerifyResult → ReleaseReason
cron_reason failed = ReleaseReason.cron_verify_payment_failed
cron_reason _ = ReleaseReason.payment_verify_timeout

-- The first two writes of `expireOrderAndReleaseInventory`: the order and a payment row.
unfoldable pub mark_expired : ℕ → ℕ → Order → VerifyResult → Db → Db
unfolding cron_payment
mark_expired now order_id order result db = record db {
  orders = adjust order_id (close_order now (cron_status result) (cron_reason result)) db.orders;
  payments =
      db.payments ++ cron_payment now order_id order.total_amount (cron_payment_status result) ∷ [];
}

-- Its transaction, with the order as the job has read it.
unfoldable pub expire_db : ℕ → ℕ → Order → VerifyResult → Db → Db
expire_db now order_id order result db = elim (find order_id db.orders) [
  | none ↦ db
  | some latest ↦
      if is_pending latest.status
      then give_back_items order.user_id order.items (mark_expired now order_id order result db)
      else db
]

unfoldable pub expire_order_and_release_inventory : ℕ → ℕ → Order → VerifyResult → World → World
unfolding expire_db
expire_order_and_release_inventory now order_id order result w =
    set_redis (release_all now order.user_id order_id order.items w.redis)
      (set_db (expire_db now order_id order result w.db) w)

abbrev pub before : ℕ → Option ℕ → Bool
before now none = false
before now (some at) = ltb at now

-- The query for stuck orders; the caller takes at most 50.
unfoldable pub stuck_orders : ℕ → Table Order → Table Order
stuck_orders now [] = []
stuck_orders now ((id, o) ∷ m) =
    let rest = stuck_orders now m in
    if is_pending o.status && before now o.expires_at then (id, o) ∷ rest else rest

unfoldable pub close_stuck : ℕ → VerifyResult → ℕ → Order → World → World
close_stuck now success order_id order w =
    mark_order_paid_from_cron now order_id order.total_amount w
close_stuck now failed order_id order w =
    expire_order_and_release_inventory now order_id order failed w
close_stuck now pending order_id order w =
    expire_order_and_release_inventory now order_id order pending w

-- The loop over the orders that the query gave. `verify` is the gateway's answer for each.
unfoldable pub close_all : ℕ → (ℕ → VerifyResult) → Table Order → World → World
unfolding close_stuck
close_all now verify [] w = w
close_all now verify ((id, o) ∷ m) w = close_all now verify m (close_stuck now (verify id) id o w)

unfoldable pub verify_stuck_pending_payments : ℕ → (ℕ → VerifyResult) → World → World
unfolding close_all
verify_stuck_pending_payments now verify w =
    close_all now verify (take 50 (stuck_orders now w.db.orders)) w
