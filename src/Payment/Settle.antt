-- ===== src/Payment/Settle.antt =====
-- How a payment settles an order: `recordLateWebhook`, `handlePaymentFailed`,
-- `handlePaymentTimeout` and `handlePaymentSuccess` of
-- backend/src/modules/payment/payment.service.ts. Broadcasts and cache refreshes are left out.
use se_ticketbox.Prelude.{
  ℕ, ◌+◌, Bool, false, Option, none, some, List, [], ◌∷◌, ◌++◌, map, if◌then◌else◌,
}
use se_ticketbox.Prelude.Int.{pos, ◌-ℤ◌, ltb_ℤ}
use se_ticketbox.Prelude.Table.{find, put, adjust}
use se_ticketbox.Prelude.Text.{Text, text_eq}
use se_ticketbox.Redis.{del_reservation}
use se_ticketbox.Store.{
  Db, Order, OrderItem, OrderStatus, Payment, PaymentStatus, Counter, ReleaseReason, database,
  internal_server_error, Result, ok, err, ◌>>=◌, or_fail, set_counter,
}
use se_ticketbox.World.{
  World, Action, set_db, set_redis, item_hold, Reply, takes_effect, is_answered, release_with,
  all_answered,
}
use se_ticketbox.Gate.Load.{find_least_loaded_gate}
use se_ticketbox.Ticket.Token.{Crypto, gate_name, order_tickets}
use se_ticketbox.Payment.Url.{is_pending, is_open}

-- `MockPaymentResult` and `MockWebhookDto` of dto/mock-webhook.dto.ts.
pub data MockPaymentResult : Type 0 where
  success failed timeout : MockPaymentResult

pub record Webhook : Type 0 where
  pub order_id : ℕ
  pub provider_transaction_id : Text
  pub result : MockPaymentResult
  pub amount : ℕ
  pub signature : Text

abbrev pub same_transaction : Text → Option Text → Bool
same_transaction tx none = false
same_transaction tx (some id) = text_eq id tx

-- `paymentTransaction.upsert` by the provider's transaction id: `f` updates the row that is there.
unfoldable pub upsert_payment : Payment → (Payment → Payment) → Text → List Payment → List Payment
upsert_payment created f tx [] = created ∷ []
upsert_payment created f tx (p ∷ ps) =
    if same_transaction tx p.provider_transaction_id
    then f p ∷ ps
    else p ∷ upsert_payment created f tx ps

abbrev pub status_of : MockPaymentResult → PaymentStatus
status_of success = PaymentStatus.success
status_of failed = PaymentStatus.failed
status_of timeout = PaymentStatus.timeout

abbrev pub webhook_payment : ℕ → Webhook → PaymentStatus → Payment
webhook_payment now dto status = record {
  order_id = dto.order_id;
  status = status;
  amount = dto.amount;
  provider_transaction_id = some dto.provider_transaction_id;
  payment_url = none;
  received_at = some now;
}

-- `recordLateWebhook`: the row keeps its status where it is there.
unfoldable pub record_late_webhook : ℕ → Webhook → Db → Db
record_late_webhook now dto db = record db {
  payments =
      upsert_payment (webhook_payment now dto (status_of dto.result))
        (λ p. record p { received_at = some now }) dto.provider_transaction_id db.payments;
}

unfoldable pub set_payment_status : ℕ → Webhook → PaymentStatus → Db → Db
set_payment_status now dto status db = record db {
  payments =
      upsert_payment (webhook_payment now dto status)
        (λ p. record p { status = status; received_at = some now }) dto.provider_transaction_id
        db.payments;
}

-- `handlePaymentTimeout`: the order is left to the cron job.
unfoldable pub handle_payment_timeout : ℕ → Webhook → Db → Db
unfolding set_payment_status
handle_payment_timeout now dto db = set_payment_status now dto PaymentStatus.timeout db

-- `updateMany` where `reservedQty` is at least the quantity.
unfoldable pub give_back_type : ℕ → ℕ → Db → Db
give_back_type t q db = record db {
  ticket_types =
      adjust t
        (λ row.
          if ltb_ℤ row.reserved_qty (pos q)
          then row
          else record row { reserved_qty = row.reserved_qty -ℤ pos q })
        db.ticket_types;
}

unfoldable pub give_back_counter : ℕ → ℕ → ℕ → Db → Db
give_back_counter u t q db = elim (db.counters u t) [
  | none ↦ db
  | some c ↦
      if ltb_ℤ c.reserved_qty (pos q)
      then db
      else set_counter u t (record c { reserved_qty = c.reserved_qty -ℤ pos q }) db
]

unfoldable pub give_back_items : ℕ → List OrderItem → Db → Db
give_back_items u [] db = db
give_back_items u (i ∷ is) db = give_back_items u is (
    give_back_counter u i.ticket_type_id i.quantity (give_back_type i.ticket_type_id i.quantity db))

-- An order that ends without a sale.
abbrev pub close_order : ℕ → OrderStatus → ReleaseReason → Order → Order
close_order now status reason o = record o {
  status = status;
  inventory_released_at = some now;
  release_reason = some reason;
}

unfoldable pub fail_payments : ℕ → List Payment → List Payment
fail_payments order_id =
    map λ p. if is_open order_id p then record p { status = PaymentStatus.failed } else p

-- Its first two writes: the open payments and the order.
unfoldable pub mark_failed : ℕ → ℕ → Db → Db
unfolding fail_payments
mark_failed now order_id db = record db {
  payments = fail_payments order_id db.payments;
  orders =
      adjust order_id (close_order now OrderStatus.payment_failed ReleaseReason.payment_failed)
        db.orders;
}

-- The transaction of `handlePaymentFailed`, on the order as the transaction reads it.
unfoldable pub fail_order : ℕ → ℕ → Order → Db → Db
fail_order now order_id order db = elim (find order_id db.orders) [
  | none ↦ db
  | some latest ↦
      if is_pending latest.status
      then give_back_items order.user_id order.items (mark_failed now order_id db)
      else db
]

-- What becomes of the calls after the transactions.
pub record Calls : Type 0 where
  pub releases : List Reply
  pub deletion : Reply
  pub mail : Reply

-- `handlePaymentFailed`, with the order as the webhook has read it. The releases follow the commit.
unfoldable pub handle_payment_failed : Calls → ℕ → ℕ → Order → Action (Unit {0})
unfolding fail_order
handle_payment_failed calls now order_id order w =
    let holds = map (item_hold order.user_id order_id) order.items in
    let w' =
      set_redis (release_with now calls.releases holds w.redis)
        (set_db (fail_order now order_id order w.db) w) in
    if all_answered calls.releases holds then (ok tt, w') else (err internal_server_error, w')

-- `soldQty: { increment }, reservedQty: { decrement }`; Prisma throws where the row is missing.
unfoldable pub sell_items : List OrderItem → Db → Result Db
sell_items [] db = ok db
sell_items (i ∷ is) db = do
  row ← or_fail (find i.ticket_type_id db.ticket_types) database
  sell_items is (record db {
    ticket_types =
        put i.ticket_type_id
          (record row {
            sold_qty = row.sold_qty + i.quantity;
            reserved_qty = row.reserved_qty -ℤ pos i.quantity;
          })
          db.ticket_types;
  })

-- `userTicketCounter.upsert` of a sale.
abbrev pub paid_counter : ℕ → Option Counter → Counter
paid_counter q none = record { paid_qty = q; reserved_qty = pos 0 }
paid_counter q (some c) = record c {
  paid_qty = c.paid_qty + q;
  reserved_qty = c.reserved_qty -ℤ pos q;
}

unfoldable pub pay_counters : ℕ → List OrderItem → Db → Db
pay_counters u [] db = db
pay_counters u (i ∷ is) db =
    pay_counters u is
      (set_counter u i.ticket_type_id (paid_counter i.quantity (db.counters u i.ticket_type_id)) db)

abbrev pub mark_paid : ℕ → Order → Order
mark_paid now o = record o { status = OrderStatus.paid; paid_at = some now }

-- The first writes of `handlePaymentSuccess`: the payment, the order and the tickets.
unfoldable pub mark_settled : Crypto → ℕ → Webhook → Order → Text → Db → Db
mark_settled c now dto order name db =
    record (set_payment_status now dto PaymentStatus.success db) {
      orders = adjust dto.order_id (mark_paid now) db.orders;
      tickets = db.tickets ++ order_tickets c 0 dto.order_id order name order.items;
    }

-- Its transaction. It does not read the order again.
unfoldable pub settle_order : Crypto → ℕ → Webhook → Order → Text → Db → Result Db
settle_order c now dto order name db = do
  sold ← sell_items order.items (mark_settled c now dto order name db)
  ok (pay_counters order.user_id order.items sold)

-- The calls after its commit: the deletion of the reservation, and the mail where that is answered.
unfoldable pub after_commit : Calls → ℕ → World → Result (Unit {0}) × World
after_commit calls order_id w =
    let w' =
      set_redis (if takes_effect calls.deletion then del_reservation order_id w.redis else w.redis)
        w in
    if is_answered calls.deletion
    then (
      if is_answered calls.mail then ok tt else err internal_server_error,
      record w' {
        mail_queue =
            if takes_effect calls.mail then w.mail_queue ++ order_id ∷ [] else w.mail_queue;
      },
    )
    else (err internal_server_error, w')

unfoldable pub after_settling : Calls → Webhook → World → Result Db → Result (Unit {0}) × World
unfolding after_commit
after_settling calls dto w (err e) = (err e, w)
after_settling calls dto w (ok db) = after_commit calls dto.order_id (set_db db w)

-- `handlePaymentSuccess`, with the order as the webhook has read it.
unfoldable pub handle_payment_success : Calls → Crypto → ℕ → Webhook → Order → Action (Unit {0})
unfolding settle_order after_settling
handle_payment_success calls c now dto order w =
    let name = gate_name (find_least_loaded_gate order.concert_id w.db) in
    after_settling calls dto w (settle_order c now dto order name w.db)
