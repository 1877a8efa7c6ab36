-- ===== src/SeatPicker/Usage.antt =====
-- How many tickets of a concert a user holds: frontend/customer-web/lib/user-ticket-usage.ts, on the
-- answers of the backend's `getMyOrders`.
use se_ticketbox.Prelude.{
  ℕ, ◌+◌, ◌≡◌, Bool, ◌&&◌, ◌||◌, some, List, [], ◌∷◌, ◌==◌, if◌then◌else◌, arith,
}
use se_ticketbox.Store.{Db, Order, OrderItem, OrderStatus}
use se_ticketbox.Order.Queries.{OrderResponse, get_my_orders, is_paid, same_order_status}

-- `TicketTypeUsage`.
pub record TicketTypeUsage : Type 0 where
  pub paid_qty : ℕ
  pub reserved_qty : ℕ

abbrev pub UsageMap : Type 0
UsageMap = ℕ → TicketTypeUsage

abbrev pub no_usage : UsageMap
no_usage t = record { paid_qty = 0; reserved_qty = 0 }

abbrev pub count_item : Bool → OrderItem → TicketTypeUsage → TicketTypeUsage
count_item paid i u =
    if paid
    then record u { paid_qty = u.paid_qty + i.quantity }
    else record u { reserved_qty = u.reserved_qty + i.quantity }

unfoldable pub count_items : Bool → List OrderItem → UsageMap → UsageMap
count_items paid [] m = m
count_items paid (i ∷ is) m =
    count_items paid is (λ t. if t == i.ticket_type_id then count_item paid i (m t) else m t)

abbrev pub is_countable : OrderStatus → Bool
is_countable s =
    same_order_status s OrderStatus.paid || same_order_status s OrderStatus.pending_payment

-- `accumulateOrderUsage`.
unfoldable pub accumulate : ℕ → Order → UsageMap → UsageMap
unfolding count_items
accumulate concert_id o m =
    if o.concert_id == concert_id && is_countable o.status
    then count_items (is_paid o.status) o.items m
    else m

unfoldable pub accumulate_all : ℕ → List OrderResponse → UsageMap → UsageMap
unfolding accumulate
accumulate_all concert_id [] m = m
accumulate_all concert_id (o ∷ os) m =
    accumulate_all concert_id os (accumulate concert_id o.order m)

-- `fetchUserTicketUsage`: the first 100 paid and the first 100 pending orders.
unfoldable pub fetch_user_ticket_usage : (user_id concert_id : ℕ) → Db → UsageMap
unfolding accumulate_all get_my_orders
fetch_user_ticket_usage user_id concert_id db =
    let paid = (get_my_orders user_id 1 100 (some OrderStatus.paid) db).orders in
    let pending = (get_my_orders user_id 1 100 (some OrderStatus.pending_payment) db).orders in
    accumulate_all concert_id pending (accumulate_all concert_id paid no_usage)

-- `paidQty + reservedQty`, which `remainingTicketAllowance` takes from the limit.
abbrev pub used : UsageMap → ℕ → ℕ
used m t = (m t).paid_qty + (m t).reserved_qty

-- The tickets of a type in an order's items.
unfoldable pub quantity_in : ℕ → List OrderItem → ℕ
quantity_in t [] = 0
quantity_in t (i ∷ is) =
    if i.ticket_type_id == t then i.quantity + quantity_in t is else quantity_in t is

abbrev pub counted : ℕ → ℕ → Order → ℕ
counted concert_id t o =
    if o.concert_id == concert_id && is_countable o.status then quantity_in t o.items else 0

unfoldable pub counted_all : ℕ → ℕ → List OrderResponse → ℕ
counted_all concert_id t [] = 0
counted_all concert_id t (o ∷ os) = counted concert_id t o.order + counted_all concert_id t os

used-count_items :
    (paid : Bool) (is : List OrderItem) (m : UsageMap) (t : ℕ)
    → used (count_items paid is m) t ≡ used m t + quantity_in t is
unfolding count_items quantity_in
used-count_items paid [] m t = omega arith
used-count_items paid (i ∷ is) m t =
    let m' : UsageMap = λ j. if j == i.ticket_type_id then count_item paid i (m j) else m j in
    ground (arith, used-count_items paid is m' t)

pub used-accumulate_all :
    (c : ℕ) (os : List OrderResponse) (m : UsageMap) (t : ℕ)
    → used (accumulate_all c os m) t ≡ used m t + counted_all c t os
unfolding accumulate_all counted_all
used-accumulate_all c [] m t = omega arith
used-accumulate_all c (o ∷ os) m t = ground (
  arith,
  used-accumulate_all c os (accumulate c o.order m) t,
  used-count_items (is_paid o.order.status) o.order.items m t,
)
