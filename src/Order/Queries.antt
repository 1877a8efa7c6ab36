-- ===== src/Order/Queries.antt =====
-- The queries of orders: `getOrder`, `getMyOrders`, `getAllOrders` and `getOrderAdmin` of
-- backend/src/modules/order/order.service.ts. The tables of orders and payments are in the order in
-- which their rows were made; a title and the time of the answer are left out.
use se_ticketbox.Prelude.{
  ℕ, ◌+◌, Bool, true, false, ◌&&◌, Option, none, some, List, [], ◌∷◌, ◌++◌, map, reverse, ◌==◌,
  if◌then◌else◌, length,
}
use se_ticketbox.Prelude.Table.{Table, find}
use se_ticketbox.Prelude.Text.{Text}
use se_ticketbox.Store.{
  Db, Order, OrderItem, OrderStatus, Payment, Ticket, Concert, not_found, unauthorized, Result, ok,
  ◌>>=◌, ◌>>◌, or_fail, guard,
}
use se_ticketbox.Ticket.Queries.{name_or_empty, payload_of}
use se_ticketbox.Payment.Request.{payments_of}
use se_ticketbox.Concerts.{page_rows, total_pages}

-- `OrderTicketResponseDto`.
pub record OrderTicket : Type 0 where
  pub ticket : Ticket
  pub ticket_type_name : Text
  pub qr_payload : Text

-- `OrderItemResponseDto`.
pub record ItemResponse : Type 0 where
  pub item : OrderItem
  pub ticket_type_name : Text
  pub ticket_count : ℕ

-- `OrderResponseDto`; the list of tickets may be missing.
pub record OrderResponse : Type 0 where
  pub id : ℕ
  pub order : Order
  pub items : List ItemResponse
  pub payment_url : Option Text
  pub ticket_count : ℕ
  pub tickets : Option (List OrderTicket)

-- The tickets of an item, by its id.
unfoldable pub tickets_of_item : ℕ → List Ticket → List Ticket
tickets_of_item item_id [] = []
tickets_of_item item_id (t ∷ ts) =
    if t.order_item_id == item_id
    then t ∷ tickets_of_item item_id ts
    else tickets_of_item item_id ts

-- `toOrderItemResponse`.
unfoldable pub to_order_item_response : Db → OrderItem → ItemResponse
unfolding tickets_of_item
to_order_item_response db i = record {
  item = i;
  ticket_type_name = name_or_empty (find i.ticket_type_id db.ticket_types);
  ticket_count = length (tickets_of_item i.id db.tickets);
}

-- `toTicketResponse`.
unfoldable pub to_order_ticket : Db → Ticket → OrderTicket
to_order_ticket db t = record {
  ticket = t;
  ticket_type_name = name_or_empty (find t.ticket_type_id db.ticket_types);
  qr_payload = payload_of t;
}

-- The tickets of all items, item by item.
unfoldable pub tickets_of_items : Db → List OrderItem → List OrderTicket
unfolding tickets_of_item to_order_ticket
tickets_of_items db [] = []
tickets_of_items db (i ∷ is) =
    map (to_order_ticket db) (tickets_of_item i.id db.tickets) ++ tickets_of_items db is

-- The sum that `reduce` makes.
unfoldable pub count_items : Db → List OrderItem → ℕ
unfolding tickets_of_item
count_items db [] = 0
count_items db (i ∷ is) = length (tickets_of_item i.id db.tickets) + count_items db is

abbrev pub is_paid : OrderStatus → Bool
is_paid OrderStatus.pending_payment = false
is_paid OrderStatus.paid = true
is_paid OrderStatus.expired = false
is_paid OrderStatus.cancelled = false
is_paid OrderStatus.payment_failed = false
is_paid OrderStatus.refunded = false

-- `toOrderResponseFull`.
unfoldable pub to_order_response_full : Db → Option Text → ℕ → Order → OrderResponse
unfolding tickets_of_items to_order_item_response
to_order_response_full db url id order =
    let ts = tickets_of_items db order.items in
    record {
      id = id;
      order = order;
      items = map (to_order_item_response db) order.items;
      payment_url = url;
      ticket_count = length ts;
      tickets = if is_paid order.status then some ts else none;
    }

-- `toOrderResponseMinimal`.
unfoldable pub to_order_response_minimal : Db → Option Text → ℕ → Order → OrderResponse
unfolding count_items to_order_item_response
to_order_response_minimal db url id order = record {
  id = id;
  order = order;
  items = map (to_order_item_response db) order.items;
  payment_url = url;
  ticket_count = count_items db order.items;
  tickets = none;
}

-- `getOrder`.
unfoldable pub get_order : ℕ → ℕ → Db → Result OrderResponse
unfolding to_order_response_full
get_order id user db = do
  order ← or_fail (find id db.orders) not_found
  guard (order.user_id == user) unauthorized
  ok (to_order_response_full db none id order)

-- The address of the newest payment.
unfoldable pub last_url : List Payment → Option Text
last_url [] = none
last_url (p ∷ []) = p.payment_url
last_url (p ∷ q ∷ ps) = last_url (q ∷ ps)

-- `getOrderAdmin`.
unfoldable pub get_order_admin : ℕ → Db → Result OrderResponse
unfolding to_order_response_minimal last_url payments_of
get_order_admin id db = do
  order ← or_fail (find id db.orders) not_found
  ok (to_order_response_minimal db (last_url (payments_of id db.payments)) id order)

abbrev pub same_order_status : OrderStatus → OrderStatus → Bool
same_order_status OrderStatus.pending_payment OrderStatus.pending_payment = true
same_order_status OrderStatus.paid OrderStatus.paid = true
same_order_status OrderStatus.expired OrderStatus.expired = true
same_order_status OrderStatus.cancelled OrderStatus.cancelled = true
same_order_status OrderStatus.payment_failed OrderStatus.payment_failed = true
same_order_status OrderStatus.refunded OrderStatus.refunded = true
same_order_status _ _ = false

-- A condition of a query that may be left out.
abbrev pub if_given {ℓ} : {A : Type ℓ} → (A → Bool) → Option A → Bool
if_given p none = true
if_given p (some a) = p a

unfoldable pub filter_orders : (Order → Bool) → Table Order → Table Order
filter_orders p [] = []
filter_orders p ((id, o) ∷ m) = if p o then (id, o) ∷ filter_orders p m else filter_orders p m

unfoldable pub to_list_responses : Db → Table Order → List OrderResponse
unfolding to_order_response_minimal
to_list_responses db [] = []
to_list_responses db ((id, o) ∷ m) = to_order_response_minimal db none id o ∷ to_list_responses db m

-- `OrderListResponseDto`.
pub record OrderList : Type 0 where
  pub orders : List OrderResponse
  pub total : ℕ
  pub page : ℕ
  pub limit : ℕ
  pub total_pages : ℕ

-- `getMyOrders`, the newest first: the total counts the user's orders of every status.
unfoldable pub get_my_orders : ℕ → ℕ → ℕ → Option OrderStatus → Db → OrderList
unfolding filter_orders to_list_responses
get_my_orders user page limit status db =
    let mine =
      filter_orders (λ o. o.user_id == user && if_given (same_order_status o.status) status)
        db.orders in
    let total = length (filter_orders (λ o. o.user_id == user) db.orders) in
    record {
      orders = to_list_responses db (page_rows limit page (reverse mine));
      total = total;
      page = page;
      limit = limit;
      total_pages = total_pages total limit;
    }

abbrev pub is_organizer : ℕ → Option Concert → Bool
is_organizer user none = false
is_organizer user (some c) = c.organizer_id == user

-- The conditions of `getAllOrders`.
abbrev pub order_matches :
    Db → Option OrderStatus → (concert_id organizer_id : Option ℕ) → Order → Bool
order_matches db status concert_id organizer_id o =
    if_given (same_order_status o.status) status
    && if_given (λ c. o.concert_id == c) concert_id
    && if_given (λ u. is_organizer u (find o.concert_id db.concerts)) organizer_id

-- `getAllOrders`.
unfoldable pub get_all_orders :
    ℕ → ℕ → Option OrderStatus → (concert_id organizer_id : Option ℕ) → Db → OrderList
unfolding filter_orders to_list_responses
get_all_orders page limit status concert_id organizer_id db =
    let rows = filter_orders (order_matches db status concert_id organizer_id) db.orders in
    record {
      orders = to_list_responses db (page_rows limit page (reverse rows));
      total = length rows;
      page = page;
      limit = limit;
      total_pages = total_pages (length rows) limit;
    }
