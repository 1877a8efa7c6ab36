-- ===== src/Payment/Answers.antt =====
-- What an answer of the payment webhook, or its error, means (`handleMockWebhook` of
-- backend/src/modules/payment/payment.service.ts).
use se_ticketbox.Prelude.{
  ℕ, ◌≡◌, ◌⊎◌, Bool, true, false, ◌&&◌, none, some, [], ◌∷◌, ◌++◌, map, ◌==◌, if◌then◌else◌,
}
use se_ticketbox.Prelude.Table.{find}
use se_ticketbox.Redis.{del_reservation}
use se_ticketbox.Store.{Order, OrderStatus, PaymentStatus, Result, ok, err}
use se_ticketbox.World.{
  World, set_db, item_hold, takes_effect, is_answered, release_with, all_answered,
}
use se_ticketbox.Gate.Load.{find_least_loaded_gate}
use se_ticketbox.Ticket.Token.{Crypto, gate_name}
use se_ticketbox.Payment.Url.{is_pending}
use se_ticketbox.Payment.Settle.{Calls, Webhook, MockPaymentResult}
use se_ticketbox.Payment.Webhook.{
  Signing, Answer, already, late, ignored, payment_failed, paid, awaiting, webhook_payload,
  verify_signature,
}
use se_ticketbox.Payment.Presence.{types_there}
use se_ticketbox.Payment.Rows.{paying, Received, PaidRows, FailedRows}
use se_ticketbox.Payment.Kept.{Upserted}

-- After a sale: the reservation is deleted and the mail queued, as far as these calls take effect.
abbrev pub PaidEffects : Calls → Crypto → ℕ → Webhook → Order → World → World → Type 0
PaidEffects calls c now dto order w w' =
    PaidRows c now dto order (gate_name (find_least_loaded_gate order.concert_id w.db)) w.db w'.db
    × (w' ≡ record w {
      db = w'.db;
      redis = if takes_effect calls.deletion then del_reservation dto.order_id w.redis else w.redis;
      mail_queue =
          if is_answered calls.deletion && takes_effect calls.mail
          then w.mail_queue ++ dto.order_id ∷ []
          else w.mail_queue;
    })

-- After a failure: the holds of the items are released, as far as these calls take effect.
abbrev pub FailedEffects : Calls → ℕ → Webhook → Order → World → World → Type 0
FailedEffects calls now dto order w w' =
    FailedRows now dto.order_id order w.db w'.db
    × (w' ≡ record w {
      db = w'.db;
      redis =
          release_with now calls.releases (map (item_hold order.user_id dto.order_id) order.items)
            w.redis;
    })

-- What a webhook that is not refused has checked.
pub record Accepted (c : Crypto) (g : Signing) (dto : Webhook) (order : Order) (w : World)
    : Type 0 where
  pub signed : verify_signature c g (webhook_payload g dto) dto.signature ≡ true
  pub found : find dto.order_id w.db.orders ≡ some order
  pub in_full : order.total_amount ≡ dto.amount

abbrev pub failed_answered : Calls → Webhook → Order → Bool
failed_answered calls dto order =
    all_answered calls.releases (map (item_hold order.user_id dto.order_id) order.items)

abbrev pub paid_answered : Calls → Bool
paid_answered calls = is_answered calls.deletion && is_answered calls.mail

abbrev pub received_as : MockPaymentResult → PaymentStatus
received_as MockPaymentResult.success = PaymentStatus.success
received_as MockPaymentResult.failed = PaymentStatus.failed
received_as MockPaymentResult.timeout = PaymentStatus.timeout

abbrev pub Settled : Calls → Crypto → ℕ → Webhook → Order → World → Answer → World → Type 0
Settled calls c now dto order w (already s) w' =
    (s ≡ OrderStatus.paid) × (order.status ≡ OrderStatus.paid) × (w' ≡ w)
Settled calls c now dto order w late w' =
    (order.status ≡ OrderStatus.expired)
    × Upserted (paying now dto (received_as dto.result)) (λ p. record p { received_at = some now })
        dto.provider_transaction_id w.db.payments w'.db.payments
    × (w' ≡ set_db (record w.db { payments = w'.db.payments }) w)
Settled calls c now dto order w (ignored s) w' =
    (s ≡ order.status) × (is_pending order.status ≡ false) × (w' ≡ w)
Settled calls c now dto order w awaiting w' =
    (order.status ≡ OrderStatus.pending_payment)
    × (dto.result ≡ MockPaymentResult.timeout)
    × Received now dto PaymentStatus.timeout w.db w'.db
    × (w' ≡ set_db (record w.db { payments = w'.db.payments }) w)
Settled calls c now dto order w payment_failed w' =
    (order.status ≡ OrderStatus.pending_payment)
    × (dto.result ≡ MockPaymentResult.failed)
    × (failed_answered calls dto order ≡ true)
    × FailedEffects calls now dto order w w'
Settled calls c now dto order w paid w' =
    (order.status ≡ OrderStatus.pending_payment)
    × (dto.result ≡ MockPaymentResult.success)
    × (paid_answered calls ≡ true)
    × PaidEffects calls c now dto order w w'

-- An error of a pending order's webhook: a ticket type of the order is gone and nothing changes, or a
-- call after the commit throws and the rest has taken effect.
abbrev pub Broken : Calls → Crypto → ℕ → Webhook → Order → World → World → Type 0
Broken calls c now dto order w w' =
    (order.status ≡ OrderStatus.pending_payment)
    × (((dto.result ≡ MockPaymentResult.success)
          × (types_there order.items w.db.ticket_types ≡ false)
          × (w' ≡ w))
        ⊎ ((dto.result ≡ MockPaymentResult.success)
            × (paid_answered calls ≡ false)
            × PaidEffects calls c now dto order w w')
        ⊎ ((dto.result ≡ MockPaymentResult.failed)
            × (failed_answered calls dto order ≡ false)
            × FailedEffects calls now dto order w w'))

abbrev pub Refused : Crypto → Signing → Webhook → World → Type 0
Refused c g dto w =
    (verify_signature c g (webhook_payload g dto) dto.signature ≡ false)
    ⊎ (find dto.order_id w.db.orders ≡ none)
    ⊎ ((order : Order) × (find dto.order_id w.db.orders ≡ some order)
        × ((order.total_amount == dto.amount) ≡ false))

abbrev pub SettledBy : Calls → Crypto → ℕ → Webhook → Order → World → Result Answer × World → Type 0
SettledBy calls c now dto order w (err e, w') = Broken calls c now dto order w w'
SettledBy calls c now dto order w (ok a, w') = Settled calls c now dto order w a w'

abbrev pub WebhookOutcome :
    Calls → Crypto → Signing → ℕ → Webhook → World → Result Answer × World → Type 0
WebhookOutcome calls c g now dto w (err e, w') =
    (Refused c g dto w × (w' ≡ w))
    ⊎ ((order : Order) × Accepted c g dto order w × Broken calls c now dto order w w')
WebhookOutcome calls c g now dto w (ok a, w') =
    (order : Order) × Accepted c g dto order w × Settled calls c now dto order w a w'
