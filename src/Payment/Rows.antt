-- ===== src/Payment/Rows.antt =====
-- What a settled order leaves in the database (`handlePaymentSuccess` and `handlePaymentFailed` of
-- backend/src/modules/payment/payment.service.ts).
use se_ticketbox.Prelude.{
  ℕ, ◌≡◌, ◌∙◌, sym, ap, subst, true, false, none, some, ◌++◌, map, arith, ◌==◌, if◌then◌else◌, inl,
  inr, Bool-cases, ==_iff,
}
use se_ticketbox.Prelude.Table.{Table, find, adjust, map_option, find-adjust}
use se_ticketbox.Prelude.Text.{Text}
use se_ticketbox.Store.{
  Result-cases, Db, Order, OrderStatus, Payment, PaymentStatus, ReleaseReason, Result, ok, err,
}
use se_ticketbox.Ticket.Token.{Crypto, order_tickets}
use se_ticketbox.Payment.Url.{is_pending, is_open}
use se_ticketbox.Payment.Settle.{
  Webhook, close_order, mark_paid, settle_order, fail_order, mark_failed, fail_payments,
  mark_settled, sell_items, set_payment_status,
}
use se_ticketbox.Payment.Effects.{
  sold_row, paid_counters, row_given_back, counter_given_back, TypesSold, sell_items-TypesSold,
  pay_counters-paid_counters, give_back_items-types, give_back_items-counters,
}
use se_ticketbox.Payment.Presence.{
  types_there, counters_there, NeedsTypes, sell_items-NeedsTypes, counters_there-pay_counters,
}
use se_ticketbox.Payment.Kept.{
  OkSold, sell_items-OkSold, pay_counters-SameRest, give_back_items-SameRest, Upserted,
  upsert_payment-Upserted,
}

-- One order has changed.
abbrev pub OnlyOrder : ℕ → Order → Db → Db → Type 0
OnlyOrder id o db db' = (k : ℕ) → find k db'.orders ≡ (if id == k then some o else find k db.orders)

abbrev pub paying : ℕ → Webhook → PaymentStatus → Payment
paying now dto status = record {
  order_id = dto.order_id;
  status = status;
  amount = dto.amount;
  provider_transaction_id = some dto.provider_transaction_id;
  payment_url = none;
  received_at = some now;
}

-- The payment of the webhook is there with the status and the time.
abbrev pub Received : ℕ → Webhook → PaymentStatus → Db → Db → Type 0
Received now dto status db db' =
    Upserted (paying now dto status) (λ p. record p { status = status; received_at = some now })
      dto.provider_transaction_id db.payments db'.payments

-- The database after a sale: the order, its tickets, the sold and the reserved quantities, the
-- user's counters, all of which there are then, and the payment.
abbrev pub PaidRows : Crypto → ℕ → Webhook → Order → Text → Db → Db → Type 0
PaidRows c now dto order name db db' =
    OnlyOrder dto.order_id (record order { status = OrderStatus.paid; paid_at = some now }) db db'
    × (db'.tickets ≡ db.tickets ++ order_tickets c 0 dto.order_id order name order.items)
    × ((t : ℕ)
        → find t db'.ticket_types ≡ map_option (sold_row t order.items) (find t db.ticket_types))
    × ((v t : ℕ)
        → db'.counters v t ≡ (
            if order.user_id == v
            then paid_counters t order.items (db.counters v t)
            else db.counters v t))
    × (types_there order.items db.ticket_types ≡ true)
    × (counters_there order.user_id order.items db'.counters ≡ true)
    × Received now dto PaymentStatus.success db db'
    × (db'.concerts ≡ db.concerts)
    × (db'.gates ≡ db.gates)

-- The database after a failure: the order, what it had reserved and its open payments.
abbrev pub FailedRows : ℕ → ℕ → Order → Db → Db → Type 0
FailedRows now id order db db' =
    OnlyOrder id
      (record order {
        status = OrderStatus.payment_failed;
        inventory_released_at = some now;
        release_reason = some ReleaseReason.payment_failed;
      })
      db db'
    × ((t : ℕ)
        → find t db'.ticket_types
          ≡ map_option (row_given_back t order.items) (find t db.ticket_types))
    × ((v t : ℕ)
        → db'.counters v t ≡ (
            if order.user_id == v
            then map_option (counter_given_back t order.items) (db.counters v t)
            else db.counters v t))
    × (db'.payments
        ≡ map (λ p. if is_open id p then record p { status = PaymentStatus.failed } else p)
            db.payments)
    × (db'.tickets ≡ db.tickets)
    × (db'.concerts ≡ db.concerts)
    × (db'.gates ≡ db.gates)

adjust-find :
    (id : ℕ) (f : Order → Order) (order : Order) (m : Table Order)
    → find id m ≡ some order
    → (k : ℕ) → find k (adjust id f m) ≡ (if id == k then some (f order) else find k m)
adjust-find id f order m here k = elim (Bool-cases (id == k)) [
  | inr n ↦ ground (arith, find-adjust id k f m, n)
  | inl same ↦
      ground (arith, find-adjust id k f m, same, here, ap (λ j. find j m) ((==_iff id k).0 same))
]

abbrev pub SettledDb : Crypto → ℕ → Webhook → Order → Text → Db → Result Db → Type 0
SettledDb c now dto order name db (ok db') = PaidRows c now dto order name db db'
SettledDb c now dto order name db (err e) = types_there order.items db.ticket_types ≡ false

pub settle_order-SettledDb :
    (c : Crypto) (now : ℕ) (dto : Webhook) (order : Order) (name : Text) (db : Db)
    → find dto.order_id db.orders ≡ some order
    → SettledDb c now dto order name db (settle_order c now dto order name db)
unfolding settle_order mark_settled set_payment_status
settle_order-SettledDb c now dto order name db here =
    let marked = mark_settled c now dto order name db in
    let u = order.user_id in
    elim (Result-cases (sell_items order.items marked)) [
      | inr (x, e) ↦
          rw (e, settle_order)
            (subst (NeedsTypes order.items marked) e (sell_items-NeedsTypes order.items marked))
      | inl (sold, e) ↦
          let ((o, k, p, n, g), same) =
            subst (OkSold marked) e (sell_items-OkSold order.items marked) in
          let types =
            subst (TypesSold order.items marked) e (sell_items-TypesSold order.items marked) in
          let ((o', k', p', n', g'), types') = pay_counters-SameRest u order.items sold in
          let counted = pay_counters-paid_counters u order.items sold in
          rw (e, settle_order)
            (
              λ j.
                  ap (find j) (o' ∙ o)
                  ∙ adjust-find dto.order_id (mark_paid now) order db.orders here j,
              k' ∙ k,
              λ t. ap (find t) types' ∙ types t,
              λ v t. ground (arith, counted v t, ap (λ f. f v t) same),
              subst (NeedsTypes order.items marked) e (sell_items-NeedsTypes order.items marked),
              counters_there-pay_counters u order.items sold,
              subst
                  (Upserted (paying now dto PaymentStatus.success)
                    (λ x. record x { status = PaymentStatus.success; received_at = some now })
                    dto.provider_transaction_id db.payments)
                  (sym (p' ∙ p))
                  (upsert_payment-Upserted (paying now dto PaymentStatus.success)
                    (λ x. record x { status = PaymentStatus.success; received_at = some now })
                    dto.provider_transaction_id db.payments),
              n' ∙ n,
              g' ∙ g,
            )
    ]

pub fail_order-FailedRows :
    (now id : ℕ) (order : Order) (db : Db)
    → find id db.orders ≡ some order
    → order.status ≡ OrderStatus.pending_payment
    → FailedRows now id order db (fail_order now id order db)
unfolding fail_order mark_failed fail_payments
fail_order-FailedRows now id order db here st =
    let closed : Order → Order =
      close_order now OrderStatus.payment_failed ReleaseReason.payment_failed in
    let marked = mark_failed now id db in
    let u = order.user_id in
    let (o, k, p, n, g) = give_back_items-SameRest u order.items marked in
    let open_now : is_pending order.status ≡ true = ap is_pending st in
    rw (here, fail_order)
      (rw open_now (
        λ j. ap (find j) o ∙ adjust-find id closed order db.orders here j,
        λ t. give_back_items-types u order.items marked t,
        λ v t. give_back_items-counters u order.items marked v t,
        p,
        k,
        n,
        g,
      ))
