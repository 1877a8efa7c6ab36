-- ===== src/Concerts/Removal.antt =====
-- Which concerts can be removed (`remove` of backend/src/modules/concert/concert.service.ts).
use se_ticketbox.Prelude.{
  ℕ, ◌+◌, ◌≡◌, refl, Bool, true, false, List, [], ◌∷◌, ◌++◌, ◌==◌, if◌then◌else◌, arith,
}
use se_ticketbox.Prelude.Table.{Table, find}
use se_ticketbox.Store.{Order, Payment, Ticket, Result, ok, err}
use se_ticketbox.Checkin.Once.{Refused}
use se_ticketbox.Concerts.Manage.{
  Site, keep_rows, keep_tickets, delete_rows, open_orders, has_payment, has_counter, remove_concert,
  is_order_of,
}

-- The rows that belong to a concert.
unfoldable pub rows_of {ℓ} : {A : Type ℓ} → (A → ℕ) → ℕ → Table A → ℕ
rows_of f c [] = 0
rows_of f c ((id, a) ∷ m) = (if f a == c then 1 else 0) + rows_of f c m

unfoldable pub tickets_of : ℕ → List Ticket → ℕ
tickets_of c [] = 0
tickets_of c (t ∷ ts) = (if t.concert_id == c then 1 else 0) + tickets_of c ts

rows_of-keep {ℓ} :
    {A : Type ℓ} (f : A → ℕ) (c : ℕ) (m : Table A) → rows_of f c (keep_rows f c m) ≡ 0
unfolding rows_of keep_rows
rows_of-keep f c [] = refl
rows_of-keep f c ((id, a) ∷ m) = ground (arith, rows_of-keep f c m)

tickets_of-keep : (c : ℕ) (ts : List Ticket) → tickets_of c (keep_tickets c ts) ≡ 0
unfolding tickets_of keep_tickets
tickets_of-keep c [] = refl
tickets_of-keep c (t ∷ ts) = ground (arith, tickets_of-keep c ts)

abbrev pub Removed : (ℕ → Bool) → ℕ → Site → Result Site → Type 0
Removed counted id s (err e) = Unit
Removed counted id s (ok s') =
    (open_orders id s.db.orders ≡ 0)
    × (has_payment id s.db.orders s.db.payments ≡ false)
    × (has_counter counted id s.db.ticket_types ≡ false)
    × (tickets_of id s'.db.tickets ≡ 0)
    × (rows_of (λ o. o.concert_id) id s'.db.orders ≡ 0)
    × (rows_of (λ row. row.concert_id) id s'.db.ticket_types ≡ 0)
    × (rows_of (λ g. g.concert_id) id s'.db.gates ≡ 0)
    × (s'.db.payments ≡ s.db.payments)

-- A removal that goes through was of a concert without pending or paid orders, payments or counters,
-- and leaves none of its tickets, orders, ticket types and gates; it takes no payment away.
pub remove_concert-Removed :
    (counted : ℕ → Bool) (id : ℕ) (s : Site) → Removed counted id s (remove_concert counted id s)
unfolding remove_concert delete_rows
remove_concert-Removed counted id s = ground (
  arith,
  tickets_of-keep id s.db.tickets,
  rows_of-keep (λ o. o.concert_id) id s.db.orders,
  rows_of-keep (λ row. row.concert_id) id s.db.ticket_types,
  rows_of-keep (λ g. g.concert_id) id s.db.gates,
)

paid_once :
    (id : ℕ) (orders : Table Order) (before after : List Payment) (p : Payment)
    → is_order_of id (find p.order_id orders) ≡ true
    → has_payment id orders (before ++ p ∷ after) ≡ true
unfolding has_payment
paid_once id orders [] after p h = ground (arith, h)
paid_once id orders (q ∷ before) after p h = ground (arith, h, paid_once id orders before after p h)

-- A concert is never removed once one of its orders has a payment, whatever has become of the order
-- and the payment, also if all its orders have ended.
remove_after_payment :
    (counted : ℕ → Bool) (id : ℕ) (s : Site) (before after : List Payment) (p : Payment)
    → s.db.payments ≡ before ++ p ∷ after
    → is_order_of id (find p.order_id s.db.orders) ≡ true
    → Refused (remove_concert counted id s)
unfolding remove_concert
remove_after_payment counted id s before after p e h =
    ground (arith, e, paid_once id s.db.orders before after p h)
