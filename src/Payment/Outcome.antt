-- ===== src/Payment/Outcome.antt =====
-- Every run of the payment webhook, with all that it leaves (`handleMockWebhook` of
-- backend/src/modules/payment/payment.service.ts).
use se_ticketbox.Prelude.{
  ℕ, ◌≡◌, refl, sym, ap, subst, some, arith, ◌==◌, inl, inr, Option-cases, Bool-cases, ==_iff,
}
use se_ticketbox.Prelude.Table.{find}
use se_ticketbox.Store.{Db, Order, OrderStatus, Payment, PaymentStatus, Result, ok, err}
use se_ticketbox.World.{next, World, is_answered}
use se_ticketbox.Gate.Load.{find_least_loaded_gate}
use se_ticketbox.Ticket.Token.{Crypto, gate_name}
use se_ticketbox.Payment.Url.{is_pending}
use se_ticketbox.Payment.Settle.{
  Calls, Webhook, MockPaymentResult, settle_order, handle_payment_success, handle_payment_failed,
  after_settling, after_commit, record_late_webhook, handle_payment_timeout, set_payment_status,
  status_of, upsert_payment,
}
use se_ticketbox.Payment.Webhook.{
  Signing, Answer, payment_failed, paid, webhook_payload, verify_signature, handle_mock_webhook,
  webhook_on, settle, settle_by,
}
use se_ticketbox.Payment.Rows.{paying, SettledDb, settle_order-SettledDb, fail_order-FailedRows}
use se_ticketbox.Payment.Kept.{Upserted, upsert_payment-Upserted}
use se_ticketbox.Payment.Answers.{Accepted, failed_answered, received_as, SettledBy, WebhookOutcome}

after_settling_outcome :
    (calls : Calls) (c : Crypto) (now : ℕ) (dto : Webhook) (order : Order) (w : World)
    (r : Result Db)
    → order.status ≡ OrderStatus.pending_payment
    → dto.result ≡ MockPaymentResult.success
    → SettledDb c now dto order (gate_name (find_least_loaded_gate order.concert_id w.db)) w.db r
    → SettledBy calls c now dto order w (next (λ _ v. (ok paid, v)) (after_settling calls dto w r))
unfolding after_settling after_commit
after_settling_outcome calls c now dto order w (err e) st res gone = (st, inl (res, gone, refl))
after_settling_outcome calls c now dto order w (ok db) st res rows =
    elim (Bool-cases (is_answered calls.deletion)) [
      | inr d ↦ rw d (st, inr (inl (res, ground (arith, d), (rows, ground (arith, d)))))
      | inl d ↦ elim (Bool-cases (is_answered calls.mail)) [
        | inr m ↦ rw (d, m) (st, inr (inl (res, ground (arith, d, m), (rows, ground (arith, d)))))
        | inl m ↦ rw (d, m) (st, res, ground (arith, d, m), (rows, ground (arith, d)))
      ]
    ]

failed_outcome :
    (calls : Calls) (c : Crypto) (now : ℕ) (dto : Webhook) (order : Order) (w : World)
    → find dto.order_id w.db.orders ≡ some order
    → order.status ≡ OrderStatus.pending_payment
    → dto.result ≡ MockPaymentResult.failed
    → SettledBy calls c now dto order w (
        next (λ _ v. (ok payment_failed, v)) (handle_payment_failed calls now dto.order_id order w))
unfolding handle_payment_failed
failed_outcome calls c now dto order w here st res =
    let rows = fail_order-FailedRows now dto.order_id order w.db here st in
    elim (Bool-cases (failed_answered calls dto order)) [
      | inr a ↦ rw (a, handle_payment_failed) (st, inr (inr (res, a, (rows, refl))))
      | inl a ↦ rw (a, handle_payment_failed) (st, res, a, (rows, refl))
    ]

settle_by_outcome :
    (calls : Calls) (c : Crypto) (now : ℕ) (dto : Webhook) (order : Order) (r : MockPaymentResult)
    (w : World)
    → find dto.order_id w.db.orders ≡ some order
    → order.status ≡ OrderStatus.pending_payment
    → dto.result ≡ r
    → SettledBy calls c now dto order w (settle_by calls c now dto order r w)
unfolding settle_by handle_payment_timeout handle_payment_success set_payment_status
settle_by_outcome calls c now dto order MockPaymentResult.failed w e st r =
    failed_outcome calls c now dto order w e st r
settle_by_outcome calls c now dto order MockPaymentResult.timeout w e st r = (
  st,
  r,
  upsert_payment-Upserted (paying now dto PaymentStatus.timeout)
      (λ p. record p { status = PaymentStatus.timeout; received_at = some now })
      dto.provider_transaction_id w.db.payments,
  refl,
)
settle_by_outcome calls c now dto order MockPaymentResult.success w e st r =
    let name = gate_name (find_least_loaded_gate order.concert_id w.db) in
    after_settling_outcome calls c now dto order w (settle_order c now dto order name w.db) st r
      (settle_order-SettledDb c now dto order name w.db e)

status_of-received_as : (r : MockPaymentResult) → status_of r ≡ received_as r
status_of-received_as MockPaymentResult.success = refl
status_of-received_as MockPaymentResult.failed = refl
status_of-received_as MockPaymentResult.timeout = refl

record_late_webhook-Upserted :
    (now : ℕ) (dto : Webhook) (db : Db)
    → Upserted
        (paying now dto (received_as dto.result))
        (λ p. record p { received_at = some now })
        dto.provider_transaction_id
        db.payments
        (record_late_webhook now dto db).payments
unfolding record_late_webhook
record_late_webhook-Upserted now dto db =
    let f : Payment → Payment = λ p. record p { received_at = some now } in
    let tx = dto.provider_transaction_id in
    subst
      (λ s.
        Upserted (paying now dto (received_as dto.result)) f tx db.payments
          (upsert_payment (paying now dto s) f tx db.payments))
      (sym (status_of-received_as dto.result))
      (upsert_payment-Upserted (paying now dto (received_as dto.result)) f tx db.payments)

settle_outcome :
    (calls : Calls) (c : Crypto) (now : ℕ) (dto : Webhook) (order : Order) (s : OrderStatus)
    (w : World)
    → find dto.order_id w.db.orders ≡ some order
    → order.status ≡ s
    → SettledBy calls c now dto order w (settle calls c now dto order s w)
unfolding settle record_late_webhook
settle_outcome calls c now dto order OrderStatus.pending_payment w e st =
    settle_by_outcome calls c now dto order dto.result w e st refl
settle_outcome calls c now dto order OrderStatus.paid w e st = (refl, st, refl)
settle_outcome calls c now dto order OrderStatus.expired w e st =
    (st, record_late_webhook-Upserted now dto w.db, refl)
settle_outcome calls c now dto order OrderStatus.cancelled w e st = (sym st, ap is_pending st, refl)
settle_outcome calls c now dto order OrderStatus.payment_failed w e st =
    (sym st, ap is_pending st, refl)
settle_outcome calls c now dto order OrderStatus.refunded w e st = (sym st, ap is_pending st, refl)

with_order :
    (calls : Calls) (c : Crypto) (g : Signing) (now : ℕ) (dto : Webhook) (order : Order) (w : World)
    (p : Result Answer × World)
    → Accepted c g dto order w
    → SettledBy calls c now dto order w p
    → WebhookOutcome calls c g now dto w p
with_order calls c g now dto order w (ok a, w') ac s = (order, ac, s)
with_order calls c g now dto order w (err e, w') ac s = inr (order, ac, s)

-- Every webhook. A forged or altered one, one for an unknown order and one with another amount are
-- refused and change nothing. The others are signed and for the full amount. A success pays a pending
-- order: its row, its tickets, the sold and reserved quantities, the user's counters and the payment,
-- and it ends the hold and queues a mail. A failure closes a pending order, gives back what was
-- reserved, in the database where that is covered and in Redis, and fails its open payments. A
-- timeout and a webhook after the order has expired record the payment only; an order in another state
-- keeps all. A pending order's webhook throws where one of its ticket types is gone, and changes
-- nothing then, or where a call after the commit throws: then the database has changed as without an
-- error, and so have Redis and the queue as far as their calls take effect.
pub webhook_outcome :
    (calls : Calls) (c : Crypto) (g : Signing) (now : ℕ) (dto : Webhook) (w : World)
    → WebhookOutcome calls c g now dto w (handle_mock_webhook calls c g now dto w)
unfolding handle_mock_webhook webhook_on
webhook_outcome calls c g now dto w =
    elim (Bool-cases (verify_signature c g (webhook_payload g dto) dto.signature)) [
      | inr bad ↦ rw (bad, handle_mock_webhook) (inl (inl bad, refl))
      | inl signed ↦ elim (Option-cases (find dto.order_id w.db.orders)) [
        | inl e ↦ rw (signed, handle_mock_webhook) (rw (e, webhook_on) (inl (inr (inl e), refl)))
        | inr (order, e) ↦ elim (Bool-cases (order.total_amount == dto.amount)) [
          | inr other ↦
              rw (signed, handle_mock_webhook)
                (rw (e, webhook_on) (rw other (inl (inr (inr (order, e, other)), refl))))
          | inl same ↦
              rw (signed, handle_mock_webhook)
                (rw (e, webhook_on)
                  (rw same (
                    with_order calls c g now dto order w _
                      (record { signed = signed; found = e; in_full = (==_iff _ _).0 same })
                      (settle_outcome calls c now dto order order.status w e refl))))
        ]
      ]
    ]
