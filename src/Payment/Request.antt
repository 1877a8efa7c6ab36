-- ===== src/Payment/Request.antt =====
-- A customer's request for a payment address, sent under an idempotency key: `createPayment` of
-- backend/src/modules/payment/payment.service.ts with `start`, `complete` and `fail` of
-- backend/src/modules/idempotency/idempotency.service.ts. Also `getPaymentStatus`.
use se_ticketbox.Prelude.{
  ℕ, ◌+◌, ◌<◌, ◌≡◌, Bool, none, List, [], ◌∷◌, ◌==◌, if◌then◌else◌, arith, inl, inr,
}
use se_ticketbox.Prelude.Table.{find, find-put}
use se_ticketbox.Prelude.Text.{Text}
use se_ticketbox.Store.{
  Db, OrderStatus, Payment, not_found, bad_request, conflict, Result, ok, err, ◌>>=◌, ◌>>◌, or_fail,
  guard, Result-cases,
}
use se_ticketbox.Idempotency.{
  Keys, Verdict, proceed, replay, reject, Progress, get_record, new_record, start_verdict,
  register_nx, complete, fail,
}
use se_ticketbox.Payment.Url.{Gateway, PaymentUrl, create_payment_url}
use se_ticketbox.Ticket.Issue.{ticket_count}

-- The JSON text of `{ orderId, paymentUrl, reused: false }` as a number, and the hash of an order's
-- id.
pub record Encoding : Type 0 where
  pub body : ℕ → Text → ℕ
  pub hash : ℕ → ℕ

-- The answer of the address, and what becomes of the key.
abbrev pub finish :
    Encoding → ℕ → ℕ → ℕ → Db → Result (PaymentUrl × Db) → Keys → Result ℕ × Keys × Db
finish c done key order_id db (ok (p, db')) m =
    let body = c.body order_id p.payment_url in
    (ok body, complete done key (c.hash order_id) body m, db')
finish c done key order_id db (err e) m = (err e, fail done key (c.hash order_id) m, db)

abbrev pub pay_verdict :
    Gateway
    → Encoding
    → (now done key order_id user_id : ℕ) → Verdict
    → Keys × Db
    → Result ℕ × Keys × Db
pay_verdict g c now done key order_id user_id proceed (m, db) =
    finish c done key order_id db (create_payment_url g order_id user_id db)
      (register_nx now key (c.hash order_id) m)
pay_verdict g c now done key order_id user_id (replay body) (m, db) = (ok body, m, db)
pay_verdict g c now done key order_id user_id (reject e) (m, db) = (err e, m, db)

-- `createPayment`, which starts at `now` and ends at `done`.
unfoldable pub create_payment :
    Gateway → Encoding → (now done key order_id user_id : ℕ) → Keys × Db → Result ℕ × Keys × Db
create_payment g c now done key order_id user_id (m, db) =
    pay_verdict g c now done key order_id user_id
      (start_verdict (c.hash order_id) (get_record now key m)) (m, db)

-- What a later request with the key gets.
abbrev repeated : Bool → Result ℕ → Result ℕ
repeated same (ok body) = if same then ok body else err conflict
repeated same (err e) = err conflict

-- A request under a free key decides the key for 15 minutes: sent again with the same order's id, it
-- gets the same answer if the first one was answered, and a conflict if it failed; a request with
-- another id under the key gets a conflict. No repetition changes anything, whatever the gateway.
create_payment_again :
    (g g' : Gateway) (c : Encoding) (now done later later' key o o' user user' : ℕ) (m : Keys)
    (db : Db)
    → get_record now key m ≡ none
    → later < done + 900000
    → let (a, m', db') = create_payment g c now done key o user (m, db) in
      create_payment g' c later later' key o' user' (m', db')
      ≡ (repeated (c.hash o == c.hash o') a, m', db')
unfolding create_payment start_verdict register_nx complete fail get_record
create_payment_again g g' c now done later later' key o o' user user' m db free fresh =
    let h = c.hash o in
    let registered = register_nx now key h m in
    elim (Result-cases (create_payment_url g o user db)) [
      | inl ((p, db'), e) ↦ ground (
        arith,
        free,
        e,
        find-put key key (new_record done Progress.completed h (c.body o p.payment_url)) registered,
      )
      | inr (x, e) ↦
          ground (arith, free, e, find-put key key (new_record done Progress.failed h 0) registered)
    ]

-- `getPaymentStatus`.
pub record PaymentState : Type 0 where
  pub order_id : ℕ
  pub status : OrderStatus
  pub payments : List Payment
  pub ticket_count : ℕ

unfoldable pub payments_of : ℕ → List Payment → List Payment
payments_of order_id [] = []
payments_of order_id (p ∷ ps) =
    if p.order_id == order_id then p ∷ payments_of order_id ps else payments_of order_id ps

unfoldable pub get_payment_status : ℕ → ℕ → Db → Result PaymentState
unfolding payments_of
get_payment_status order_id user_id db = do
  order ← or_fail (find order_id db.orders) not_found
  guard (order.user_id == user_id) bad_request
  ok (record {
    order_id = order_id;
    status = order.status;
    payments = payments_of order_id db.payments;
    ticket_count = ticket_count order_id db.tickets;
  })
