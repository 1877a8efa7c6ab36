-- ===== src/Payment/Kept.antt =====
-- The rows that a settlement leaves alone (backend/src/modules/payment/payment.service.ts), and
-- what its upsert does to the payments.
use se_ticketbox.Prelude.{
  ℕ, ◌≡◌, refl, ap, subst, ◌∙◌, ◌⊎◌, Bool, true, false, ◌||◌, List, [], ◌∷◌, ◌++◌, arith, inl, inr,
  Option-cases, Bool-cases,
}
use se_ticketbox.Prelude.Table.{find}
use se_ticketbox.Prelude.Text.{Text}
use se_ticketbox.Store.{Db, Order, OrderItem, Payment, Result, ok, err, Result-cases}
use se_ticketbox.Ticket.Token.{Crypto}
use se_ticketbox.Payment.Settle.{
  Webhook, settle_order, mark_settled, sell_items, pay_counters, give_back_items, give_back_type,
  give_back_counter, upsert_payment, same_transaction,
}
use se_ticketbox.Payment.Effects.{sell_one}

-- All but the ticket types and the counters.
abbrev pub SameRest : Db → Db → Type 0
SameRest db db' =
    (db'.orders ≡ db.orders)
    × (db'.tickets ≡ db.tickets)
    × (db'.payments ≡ db.payments)
    × (db'.concerts ≡ db.concerts)
    × (db'.gates ≡ db.gates)

SameRest-trans : (a b c : Db) → SameRest a b → SameRest b c → SameRest a c
SameRest-trans a b c (o, t, p, n, g) (o', t', p', n', g') = (o' ∙ o, t' ∙ t, p' ∙ p, n' ∙ n, g' ∙ g)

abbrev pub OkSold : Db → Result Db → Type 0
OkSold db (ok db') = SameRest db db' × (db'.counters ≡ db.counters)
OkSold db (err e) = Unit

pub sell_items-OkSold : (is : List OrderItem) (db : Db) → OkSold db (sell_items is db)
unfolding sell_items
sell_items-OkSold [] db = ((refl, refl, refl, refl, refl), refl)
sell_items-OkSold (i ∷ is) db = elim (Option-cases (find i.ticket_type_id db.ticket_types)) [
  | inl e ↦ rw (e, sell_items) tt
  | inr (row, e) ↦ rw (e, sell_items) (sell_items-OkSold is (sell_one i row db))
]

pub pay_counters-SameRest :
    (u : ℕ) (is : List OrderItem) (db : Db)
    → SameRest db (pay_counters u is db) × ((pay_counters u is db).ticket_types ≡ db.ticket_types)
unfolding pay_counters
pay_counters-SameRest u [] db = ((refl, refl, refl, refl, refl), refl)
pay_counters-SameRest u (i ∷ is) db = pay_counters-SameRest u is _

give_back_counter-SameRest : (u t q : ℕ) (db : Db) → SameRest db (give_back_counter u t q db)
unfolding give_back_counter
give_back_counter-SameRest u t q db =
    (ground arith, ground arith, ground arith, ground arith, ground arith)

pub give_back_items-SameRest :
    (u : ℕ) (is : List OrderItem) (db : Db) → SameRest db (give_back_items u is db)
unfolding give_back_items give_back_type
give_back_items-SameRest u [] db = (refl, refl, refl, refl, refl)
give_back_items-SameRest u (i ∷ is) db =
    let given = give_back_type i.ticket_type_id i.quantity db in
    let after = give_back_counter u i.ticket_type_id i.quantity given in
    SameRest-trans db after (give_back_items u is after)
      (give_back_counter-SameRest u i.ticket_type_id i.quantity given)
      (give_back_items-SameRest u is after)

abbrev pub OkSettled : Db → Result Db → Type 0
OkSettled db (ok db') = SameRest db db'
OkSettled db (err e) = Unit

pub settle_order-OkSettled :
    (c : Crypto) (now : ℕ) (dto : Webhook) (order : Order) (name : Text) (db : Db)
    → OkSettled (mark_settled c now dto order name db) (settle_order c now dto order name db)
unfolding settle_order
settle_order-OkSettled c now dto order name db =
    let marked = mark_settled c now dto order name db in
    elim (Result-cases (sell_items order.items marked)) [
      | inr (x, e) ↦ ground (arith, e)
      | inl (sold, e) ↦
          let (kept, _) = subst (OkSold marked) e (sell_items-OkSold order.items marked) in
          rw (e, settle_order)
            (SameRest-trans marked sold (pay_counters order.user_id order.items sold) kept
              (pay_counters-SameRest order.user_id order.items sold).0)
    ]

-- Some payment has the provider's transaction.
unfoldable pub has_transaction : Text → List Payment → Bool
has_transaction tx [] = false
has_transaction tx (p ∷ ps) = same_transaction tx p.provider_transaction_id || has_transaction tx ps

-- The payments after an upsert: a new one at the end, or the first one of the transaction changed.
abbrev pub Upserted : Payment → (Payment → Payment) → Text → List Payment → List Payment → Type 0
Upserted new f tx before after =
    ((has_transaction tx before ≡ false) × (after ≡ before ++ new ∷ []))
    ⊎ ((xs : List Payment) × (p : Payment) × (ys : List Payment) × (before ≡ xs ++ p ∷ ys)
        × (after ≡ xs ++ f p ∷ ys)
        × (has_transaction tx xs ≡ false)
        × (same_transaction tx p.provider_transaction_id ≡ true))

pub upsert_payment-Upserted :
    (new : Payment) (f : Payment → Payment) (tx : Text) (ps : List Payment)
    → Upserted new f tx ps (upsert_payment new f tx ps)
unfolding upsert_payment has_transaction
upsert_payment-Upserted new f tx [] = inl (refl, refl)
upsert_payment-Upserted new f tx (p ∷ ps) =
    elim (Bool-cases (same_transaction tx p.provider_transaction_id)) [
      | inl same ↦ inr ([], p, ps, refl, ground (arith, same), refl, same)
      | inr other ↦ elim (upsert_payment-Upserted new f tx ps) [
        | inl (fresh, e) ↦ inl (ground (arith, other, fresh), ground (arith, other, e))
        | inr (xs, q, ys, b, a, n, s) ↦ inr (
          p ∷ xs,
          q,
          ys,
          ap (λ rs. p ∷ rs) b,
          ground (arith, other, a),
          ground (arith, other, n),
          s,
        )
      ]
    ]
