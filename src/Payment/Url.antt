-- ===== src/Payment/Url.antt =====
-- The payment address of an order: `createPaymentUrl` of
-- backend/src/modules/payment/payment.service.ts, with MockGatewayService and the circuit breaker.
use se_ticketbox.Prelude.{
  ℕ, Bool, true, false, not, ◌&&◌, ◌||◌, Option, none, some, List, [], ◌∷◌, ◌++◌, map, ◌==◌,
  if◌then◌else◌,
}
use se_ticketbox.Prelude.Table.{find}
use se_ticketbox.Prelude.Text.{Text, codes, includes, is_empty, to_lower}
use se_ticketbox.Store.{
  Db, Order, OrderStatus, Payment, PaymentStatus, not_found, bad_request, service_unavailable,
  Result, ok, err, ◌>>=◌, ◌>>◌, or_fail, guard,
}

-- What the code reads of its environment: the configured address, the text of a number, and whether
-- opossum's circuit breaker lets the call through in time. An open breaker falls back to an error.
pub record Gateway : Type 0 where
  pub base_url : Text
  pub show : ℕ → Text
  pub admits : Bool

unfoldable pub mock_payment_url : Gateway → ℕ → ℕ → Text
mock_payment_url g order_id amount =
    g.base_url
    ++ (codes "/payments/mock-page?orderId="
        ++ (g.show order_id ++ (codes "&amount=" ++ g.show amount)))

-- `PaymentCircuitBreakerService.execute` on an action that does not throw.
unfoldable pub execute : Gateway → Text → Result Text
execute g url = if g.admits then ok url else err service_unavailable

abbrev pub is_pending : OrderStatus → Bool
is_pending OrderStatus.pending_payment = true
is_pending _ = false

abbrev pub is_initiated : PaymentStatus → Bool
is_initiated PaymentStatus.initiated = true
is_initiated _ = false

-- An INITIATED transaction of the order.
abbrev pub is_open : ℕ → Payment → Bool
is_open order_id p = p.order_id == order_id && is_initiated p.status

-- `order.payments.find(...)`.
unfoldable pub existing_initiated : ℕ → List Payment → Option Payment
existing_initiated order_id [] = none
existing_initiated order_id (p ∷ ps) =
    if is_open order_id p then some p else existing_initiated order_id ps

-- The update of that row.
unfoldable pub set_payment_url : ℕ → Text → List Payment → List Payment
set_payment_url order_id url [] = []
set_payment_url order_id url (p ∷ ps) =
    if is_open order_id p
    then record p { payment_url = some url } ∷ ps
    else p ∷ set_payment_url order_id url ps

unfoldable pub is_stale_mock_payment_url : Text → Bool
is_stale_mock_payment_url url =
    includes (codes "/payment/mock-page") url
    || includes (codes "localhost:3000") (map to_lower url)

-- The address that is used again: there, not empty and not stale.
unfoldable pub reusable : Option Payment → Option Text
reusable none = none
reusable (some p) = elim p.payment_url [
  | none ↦ none
  | some url ↦ if not (is_empty url) && not (is_stale_mock_payment_url url) then some url else none
]

pub record PaymentUrl : Type 0 where
  pub payment_url : Text
  pub reused : Bool

abbrev pub new_payment : ℕ → Order → Text → Payment
new_payment order_id order url = record {
  order_id = order_id;
  status = PaymentStatus.initiated;
  amount = order.total_amount;
  provider_transaction_id = none;
  payment_url = some url;
  received_at = none;
}

-- The write of a fresh address: to the INITIATED row, or to a new one.
unfoldable pub store_url : ℕ → Order → Text → Db → Db
store_url order_id order url db = elim (existing_initiated order_id db.payments) [
  | some p ↦ record db { payments = set_payment_url order_id url db.payments }
  | none ↦ record db { payments = db.payments ++ new_payment order_id order url ∷ [] }
]

-- From the choice of the address on.
unfoldable pub fresh_or_reused : Gateway → ℕ → Order → Db → Option Text → Result (PaymentUrl × Db)
fresh_or_reused g order_id order db (some url) =
    ok (record { payment_url = url; reused = true }, db)
fresh_or_reused g order_id order db none = do
  url ← execute g (mock_payment_url g order_id order.total_amount)
  ok (record { payment_url = url; reused = false }, store_url order_id order url db)

unfoldable pub create_payment_url : Gateway → ℕ → ℕ → Db → Result (PaymentUrl × Db)
unfolding fresh_or_reused
create_payment_url g order_id user_id db = do
  order ← or_fail (find order_id db.orders) not_found
  guard (order.user_id == user_id) bad_request
  guard (is_pending order.status) bad_request
  fresh_or_reused g order_id order db (reusable (existing_initiated order_id db.payments))
