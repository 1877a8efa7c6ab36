-- ===== src/Order/Views.antt =====
-- What a customer and an administrator see of an order
-- (backend/src/modules/order/order.service.ts).
use se_ticketbox.Prelude.{
  ℕ, ◌+◌, ◌≡◌, refl, none, some, List, [], ◌∷◌, ◌++◌, map, ◌==◌, if◌then◌else◌, length, arith,
  Option-cases, inl, inr,
}
use se_ticketbox.Prelude.Table.{find}
use se_ticketbox.Store.{Db, OrderItem, unauthorized, Result, ok, err}
use se_ticketbox.Order.Queries.{
  OrderResponse, get_order, get_order_admin, to_order_response_full, to_order_response_minimal,
  tickets_of_items, tickets_of_item, to_order_ticket, count_items, is_paid,
}

length-map-append :
    {A B : Type 0} (f : A → B) (xs : List A) (ys : List B)
    → length (map f xs ++ ys) ≡ length xs + length ys
length-map-append f [] ys = omega arith
length-map-append f (x ∷ xs) ys = ground (arith, length-map-append f xs ys)

length-tickets_of_items :
    (db : Db) (is : List OrderItem) → length (tickets_of_items db is) ≡ count_items db is
unfolding tickets_of_items count_items
length-tickets_of_items db [] = refl
length-tickets_of_items db (i ∷ is) = ground (
  arith,
  length-map-append (to_order_ticket db) (tickets_of_item i.id db.tickets) (tickets_of_items db is),
  length-tickets_of_items db is,
)

-- What the customer's answer must be, given the administrator's: the same but for the address and the
-- tickets, which only a paid order shows.
abbrev customer_view : ℕ → Db → Result OrderResponse → Result OrderResponse
customer_view user db (err e) = err e
customer_view user db (ok r) =
    if r.order.user_id == user
    then ok (record r {
      payment_url = none;
      tickets = if is_paid r.order.status then some (tickets_of_items db r.order.items) else none;
    })
    else err unauthorized

-- The customer's view of an order is the administrator's, with the same count of tickets: without the
-- address of the payment, with the tickets and their QR payloads only where the order is paid, and
-- only for the order's own user.
get_order-get_order_admin :
    (id user : ℕ) (db : Db) → get_order id user db ≡ customer_view user db (get_order_admin id db)
unfolding get_order get_order_admin to_order_response_full to_order_response_minimal
get_order-get_order_admin id user db = elim (Option-cases (find id db.orders)) [
  | inl e ↦ ground (arith, e)
  | inr (o, e) ↦ ground (arith, e, length-tickets_of_items db o.items)
]
