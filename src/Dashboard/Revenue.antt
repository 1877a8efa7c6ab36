-- ===== src/Dashboard/Revenue.antt =====
-- The revenue on the dashboard (backend/src/modules/admin/admin.service.ts).
use se_ticketbox.Prelude.{
  ℕ, ◌+◌, ◌≡◌, refl, sym, ap, ◌∙◌, Bool, ◌&&◌, none, some, Option, Option-cases, Bool-cases, inl,
  inr, ==_iff, [], ◌∷◌, ◌==◌, if◌then◌else◌, arith,
}
use se_ticketbox.Prelude.Table.{Table, find, total, opt}
use se_ticketbox.Store.{Db, Role, Order, OrderStatus, Concert}
use se_ticketbox.Order.Queries.{is_paid}
use se_ticketbox.Dashboard.{
  get_dashboard_stats, sum_orders, group_orders, add_revenue, counts_order, sees,
}

total-add_revenue :
    (c n : ℕ) (m : Table ℕ) → total (λ k. k) (add_revenue c n m) ≡ n + total (λ k. k) m
unfolding total add_revenue
total-add_revenue c n [] = refl
total-add_revenue c n ((j, k) ∷ m) = ground (arith, total-add_revenue c n m)

total-group_orders :
    (p : Order → Bool) (m : Table Order) → total (λ k. k) (group_orders p m) ≡ sum_orders p m
unfolding total group_orders sum_orders
total-group_orders p [] = refl
total-group_orders p ((id, o) ∷ m) = ground (
  arith,
  total-group_orders p m,
  total-add_revenue o.concert_id o.total_amount (group_orders p m),
)

find-add_revenue :
    (c n j : ℕ) (m : Table ℕ)
    → opt (λ k. k) (find j (add_revenue c n m))
      ≡ (if c == j then n + opt (λ k. k) (find j m) else opt (λ k. k) (find j m))
unfolding find add_revenue
find-add_revenue c n j [] = ground arith
find-add_revenue c n j ((i, k) ∷ m) = ground (arith, find-add_revenue c n j m)

find-group_orders :
    (p : Order → Bool) (j : ℕ) (m : Table Order)
    → opt (λ k. k) (find j (group_orders p m)) ≡ sum_orders (λ o. p o && o.concert_id == j) m
unfolding group_orders sum_orders find
find-group_orders p j [] = refl
find-group_orders p j ((id, o) ∷ m) = ground (
  arith,
  find-group_orders p j m,
  find-add_revenue o.concert_id o.total_amount j (group_orders p m),
)

-- What an order has brought in.
abbrev pub amount_by : OrderStatus → ℕ → ℕ
amount_by OrderStatus.paid n = n
amount_by OrderStatus.pending_payment n = 0
amount_by OrderStatus.expired n = 0
amount_by OrderStatus.cancelled n = 0
amount_by OrderStatus.payment_failed n = 0
amount_by OrderStatus.refunded n = 0

-- What the orders of a concert have brought in.
unfoldable pub earned : ℕ → Table Order → ℕ
earned concert_id [] = 0
earned concert_id ((id, o) ∷ m) =
    if o.concert_id == concert_id
    then amount_by o.status o.total_amount + earned concert_id m
    else earned concert_id m

abbrev pub organized_by : ℕ → Option Concert → ℕ → ℕ
organized_by user none n = 0
organized_by user (some x) n = if x.organizer_id == user then n else 0

-- What a user may know of it: an organizer that of their own concerts, the others all.
abbrev pub may_know : Role → ℕ → Option Concert → ℕ → ℕ
may_know Role.organizer user x n = organized_by user x n
may_know Role.admin user x n = n
may_know Role.staff user x n = n
may_know Role.customer user x n = n

amount_by-is_paid : (s : OrderStatus) (n : ℕ) → amount_by s n ≡ (if is_paid s then n else 0)
amount_by-is_paid OrderStatus.paid n = refl
amount_by-is_paid OrderStatus.pending_payment n = refl
amount_by-is_paid OrderStatus.expired n = refl
amount_by-is_paid OrderStatus.cancelled n = refl
amount_by-is_paid OrderStatus.payment_failed n = refl
amount_by-is_paid OrderStatus.refunded n = refl

sum_orders-earned :
    (db : Db) (user : ℕ) (role : Role) (c : ℕ) (m : Table Order)
    → sum_orders (λ o. counts_order db user role o && o.concert_id == c) m
      ≡ (if sees db user role c then earned c m else 0)
unfolding sum_orders earned
sum_orders-earned db user role c [] = ground arith
sum_orders-earned db user role c ((id, o) ∷ m) =
    let rest = sum_orders-earned db user role c m in
    elim (Bool-cases (o.concert_id == c)) [
      | inr other ↦ ground (arith, other, rest)
      | inl here ↦
          let same = ap (sees db user role) ((==_iff o.concert_id c).0 here) in
          ground (arith, here, same, rest, amount_by-is_paid o.status o.total_amount)
    ]

sees-may_know :
    (db : Db) (user : ℕ) (role : Role) (c n : ℕ)
    → (if sees db user role c then n else 0) ≡ may_know role user (find c db.concerts) n
sees-may_know db user Role.customer c n = refl
sees-may_know db user Role.staff c n = refl
sees-may_know db user Role.admin c n = refl
sees-may_know db user Role.organizer c n = elim (Option-cases (find c db.concerts)) [
  | inl e ↦ ground (arith, e)
  | inr (x, e) ↦ ground (arith, e)
]

-- Of each concert, the dashboard shows an organizer what its PAID orders have brought in where the
-- concert is their own and nothing otherwise, and a user of another role what they have brought in;
-- the total is the sum over the concerts.
pub revenue_by_concert_scoped :
    (user : ℕ) (role : Role) (db : Db) (concert_id : ℕ)
    → let stats = get_dashboard_stats user role db in
      (opt (λ k. k) (find concert_id stats.revenue_by_concert)
        ≡ may_know role user (find concert_id db.concerts) (earned concert_id db.orders))
      × (stats.total_revenue ≡ total (λ k. k) stats.revenue_by_concert)
unfolding get_dashboard_stats
revenue_by_concert_scoped user role db concert_id =
    let counts = counts_order db user role in
    (
      find-group_orders counts concert_id db.orders
          ∙ sum_orders-earned db user role concert_id db.orders
          ∙ sees-may_know db user role concert_id (earned concert_id db.orders),
      sym (total-group_orders counts db.orders),
    )
