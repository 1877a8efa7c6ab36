-- ===== src/Payment/Webhook.antt =====
-- The gateway's webhook: `handleMockWebhook` of backend/src/modules/payment/payment.service.ts, with
-- `verifySignature` of services/mock-gateway.service.ts.
use se_ticketbox.Prelude.{ℕ, Bool, false, Option, none, some, ◌++◌, ◌==◌, if◌then◌else◌, length}
use se_ticketbox.Prelude.Table.{find}
use se_ticketbox.Prelude.Text.{Text, codes, text_eq}
use se_ticketbox.Store.{Order, OrderStatus, not_found, bad_request, ok, err}
use se_ticketbox.World.{Action, ◌>>=◌, set_db}
use se_ticketbox.Ticket.Token.{Crypto}
use se_ticketbox.Payment.Settle.{
  Calls, Webhook, MockPaymentResult, success, failed, timeout, record_late_webhook,
  handle_payment_failed, handle_payment_success, handle_payment_timeout,
}

-- The gateway's secret, and the text of a number in a template literal.
pub record Signing : Type 0 where
  pub secret : Text
  pub show : ℕ → Text

abbrev pub result_text : MockPaymentResult → Text
result_text success = codes "SUCCESS"
result_text failed = codes "FAILED"
result_text timeout = codes "TIMEOUT"

unfoldable pub webhook_payload : Signing → Webhook → Text
webhook_payload g dto =
    g.show dto.order_id
    ++ (codes ":"
        ++ (dto.provider_transaction_id
            ++ (codes ":" ++ (result_text dto.result ++ (codes ":" ++ g.show dto.amount)))))

-- Buffers of another length are refused before the comparison in constant time.
unfoldable pub verify_signature : Crypto → Signing → Text → Text → Bool
verify_signature c g payload signature =
    let expected = c.hmac_sha256 g.secret payload in
    if length expected == length signature then text_eq expected signature else false

-- The `status` of the answer; the answer to a timeout has none.
pub data Answer : Type 0 where
  already : OrderStatus → Answer
  late : Answer
  ignored : OrderStatus → Answer
  payment_failed paid awaiting : Answer

unfoldable pub settle_by : Calls → Crypto → ℕ → Webhook → Order → MockPaymentResult → Action Answer
settle_by calls c now dto order failed w =
    (handle_payment_failed calls now dto.order_id order >>= λ _ v. (ok payment_failed, v)) w
settle_by calls c now dto order timeout w =
    (ok awaiting, set_db (handle_payment_timeout now dto w.db) w)
settle_by calls c now dto order success w =
    (handle_payment_success calls c now dto order >>= λ _ v. (ok paid, v)) w

-- The part of the handler after its checks, by the status that it has read.
unfoldable pub settle : Calls → Crypto → ℕ → Webhook → Order → OrderStatus → Action Answer
unfolding settle_by
settle calls c now dto order OrderStatus.paid w = (ok (already OrderStatus.paid), w)
settle calls c now dto order OrderStatus.expired w =
    (ok late, set_db (record_late_webhook now dto w.db) w)
settle calls c now dto order OrderStatus.pending_payment w =
    settle_by calls c now dto order dto.result w
settle calls c now dto order OrderStatus.cancelled w = (ok (ignored OrderStatus.cancelled), w)
settle calls c now dto order OrderStatus.payment_failed w =
    (ok (ignored OrderStatus.payment_failed), w)
settle calls c now dto order OrderStatus.refunded w = (ok (ignored OrderStatus.refunded), w)

unfoldable pub webhook_on : Calls → Crypto → ℕ → Webhook → Option Order → Action Answer
webhook_on calls c now dto none w = (err not_found, w)
webhook_on calls c now dto (some order) w =
    if order.total_amount == dto.amount
    then settle calls c now dto order order.status w
    else (err bad_request, w)

unfoldable pub handle_mock_webhook : Calls → Crypto → Signing → ℕ → Webhook → Action Answer
unfolding webhook_on
handle_mock_webhook calls c g now dto w =
    if verify_signature c g (webhook_payload g dto) dto.signature
    then webhook_on calls c now dto (find dto.order_id w.db.orders) w
    else (err bad_request, w)
