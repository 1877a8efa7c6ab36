-- ===== src/SeatPicker/Held.antt =====
-- The seat map's count of a user's tickets against the table of orders
-- (frontend/customer-web/lib/user-ticket-usage.ts and backend/src/modules/order/order.service.ts).
use mathlib.Core.List.{reverse-append}
use se_ticketbox.Prelude.{
  ℕ, ◌+◌, ◌≤◌, ◌≡◌, refl, ap, ◌∙◌, Bool, ◌&&◌, none, some, [], ◌∷◌, ◌++◌, reverse, length,
  length-append, take, ◌==◌, if◌then◌else◌, arith,
}
use se_ticketbox.Prelude.Table.{Table}
use se_ticketbox.Store.{Db, Order, OrderStatus}
use se_ticketbox.Concerts.Paging.{take_all}
use se_ticketbox.Order.Queries.{
  get_my_orders, filter_orders, to_list_responses, to_order_response_minimal, same_order_status,
  if_given,
}
use se_ticketbox.SeatPicker.Usage.{
  used, no_usage, counted, counted_all, quantity_in, is_countable, accumulate_all,
  fetch_user_ticket_usage, used-accumulate_all,
}

unfoldable counted_rows : ℕ → ℕ → Table Order → ℕ
counted_rows c t [] = 0
counted_rows c t ((id, o) ∷ m) = counted c t o + counted_rows c t m

counted_all-to_list_responses :
    (c t : ℕ) (db : Db) (m : Table Order)
    → counted_all c t (to_list_responses db m) ≡ counted_rows c t m
unfolding counted_all counted_rows to_list_responses to_order_response_minimal
counted_all-to_list_responses c t db [] = refl
counted_all-to_list_responses c t db ((id, o) ∷ m) =
    ground (arith, counted_all-to_list_responses c t db m)

counted_rows-append :
    (c t : ℕ) (m n : Table Order)
    → counted_rows c t (m ++ n) ≡ counted_rows c t m + counted_rows c t n
unfolding counted_rows
counted_rows-append c t [] n = omega arith
counted_rows-append c t ((id, o) ∷ m) n = ground (arith, counted_rows-append c t m n)

counted_rows-reverse :
    (c t : ℕ) (m : Table Order) → counted_rows c t (reverse m) ≡ counted_rows c t m
unfolding counted_rows
counted_rows-reverse c t [] = refl
counted_rows-reverse c t (x ∷ m) =
    ap (counted_rows c t) (reverse-append (x ∷ []) m)
    ∙ counted_rows-append c t (reverse m) (x ∷ [])
    ∙ omega (arith, counted_rows-reverse c t m)

length-reverse : (m : Table Order) → length (reverse m) ≡ length m
length-reverse [] = refl
length-reverse (x ∷ m) =
    ap length (reverse-append (x ∷ []) m)
    ∙ length-append (reverse m) (x ∷ [])
    ∙ omega (arith, length-reverse m)

abbrev mine_with : ℕ → OrderStatus → Order → Bool
mine_with user status o = o.user_id == user && if_given (same_order_status o.status) (some status)

length-filter_orders :
    (user : ℕ) (status : OrderStatus) (m : Table Order)
    → length (filter_orders (mine_with user status) m)
      ≤ length (filter_orders (λ o. o.user_id == user) m)
unfolding filter_orders
length-filter_orders user status [] = omega arith
length-filter_orders user status ((id, o) ∷ m) = ground (arith, length-filter_orders user status m)

-- One page of the backend's list counts what the user has of a status.
counted_page :
    (user c t : ℕ) (status : OrderStatus) (db : Db)
    → length (filter_orders (λ o. o.user_id == user) db.orders) ≤ 100
    → counted_all c t (get_my_orders user 1 100 (some status) db).orders
      ≡ counted_rows c t (filter_orders (mine_with user status) db.orders)
unfolding get_my_orders
counted_page user c t status db h =
    let rows = filter_orders (mine_with user status) db.orders in
    let few : length (reverse rows) ≤ 100 =
      omega (arith, h, length-reverse rows, length-filter_orders user status db.orders) in
    counted_all-to_list_responses c t db (take 100 (reverse rows))
    ∙ ap (counted_rows c t) (take_all 100 (reverse rows) few)
    ∙ counted_rows-reverse c t rows

-- The tickets of a type in a user's paid and pending orders of a concert.
unfoldable pub held : ℕ → ℕ → ℕ → Table Order → ℕ
unfolding quantity_in
held user c t [] = 0
held user c t ((id, o) ∷ m) =
    if o.user_id == user && (o.concert_id == c && is_countable o.status)
    then quantity_in t o.items + held user c t m
    else held user c t m

counted_rows-held :
    (user c t : ℕ) (m : Table Order)
    → counted_rows c t (filter_orders (mine_with user OrderStatus.paid) m)
        + counted_rows c t (filter_orders (mine_with user OrderStatus.pending_payment) m)
      ≡ held user c t m
unfolding counted_rows filter_orders held
counted_rows-held user c t [] = omega arith
counted_rows-held user c t ((id, o) ∷ m) = ground (arith, counted_rows-held user c t m)

-- The seat map counts exactly the tickets that stand in the user's paid and pending orders of the
-- concert, where the user has no more than 100 orders in all.
pub fetch_user_ticket_usage-held :
    (user c t : ℕ) (db : Db)
    → (get_my_orders user 1 100 none db).total ≤ 100
    → used (fetch_user_ticket_usage user c db) t ≡ held user c t db.orders
unfolding fetch_user_ticket_usage get_my_orders
fetch_user_ticket_usage-held user c t db h =
    let paid = (get_my_orders user 1 100 (some OrderStatus.paid) db).orders in
    let pending = (get_my_orders user 1 100 (some OrderStatus.pending_payment) db).orders in
    omega (
      arith,
      used-accumulate_all c pending (accumulate_all c paid no_usage) t,
      used-accumulate_all c paid no_usage t,
      counted_page user c t OrderStatus.paid db h,
      counted_page user c t OrderStatus.pending_payment db h,
      counted_rows-held user c t db.orders,
    )
