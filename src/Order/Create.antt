-- ===== src/Order/Create.antt =====
-- `createOrder` of backend/src/modules/order/order.service.ts, stage by stage, with the rollback
-- of each. What the program does not decide is in `Sale`. The broadcasts and the cache are left out.
use se_ticketbox.Prelude.{
  ℕ, suc, ◌+◌, ◌*◌, Bool, true, false, ◌&&◌, Option, none, some, List, [], ◌∷◌, ◌++◌, map, reverse,
  ◌==◌, if◌then◌else◌, take, sum_of,
}
use se_ticketbox.Prelude.Int.{pos, ◌+ℤ◌, ltb_ℤ}
use se_ticketbox.Prelude.Table.{find, put, remove}
use se_ticketbox.Redis.{Redis, Hold, LuaReply, LuaError, success, failure, reserve_ticket}
use se_ticketbox.Store.{
  Db, Order, OrderItem, OrderStatus, TicketType, Counter, Payment, Error, bad_request,
  unprocessable, database, Result, ok, err, or_fail, set_counter, update_types, update_counters,
}
use se_ticketbox.Store
use se_ticketbox.World.{World, Action, ◌>>=◌, ◌>>◌, reads, set_db, set_redis, release_holds}
use se_ticketbox.Payment.Url.{Gateway, PaymentUrl, create_payment_url}
use se_ticketbox.Order.Validate.{ItemDto, Meta, collect_meta, seed_all}

-- One request: its time, the configured duration of a hold, the ids that are drawn, whether the
-- database takes the order and runs the inventory transaction, and the gateway.
pub record Sale : Type 0 where
  pub now : ℕ
  pub configured_ttl : Option ℕ
  pub order_id : ℕ
  pub item_ids : ℕ
  pub persists : Bool
  pub syncs : Bool
  pub gateway : Gateway

-- `DEFAULT_RESERVATION_TTL_SECONDS`.
abbrev pub default_ttl : ℕ
default_ttl = 15 * 60

-- `getReservationTtl`.
abbrev pub ttl_or_default : Option ℕ → ℕ
ttl_or_default none = default_ttl
ttl_or_default (some ttl) = ttl

abbrev pub ttl_of : Sale → ℕ
ttl_of s = ttl_or_default s.configured_ttl

abbrev pub meta_hold : ℕ → ℕ → Meta → Hold
meta_hold user_id order_id m = record {
  ticket_type_id = m.ticket_type_id;
  user_id = user_id;
  order_id = order_id;
  quantity = m.quantity;
}

-- Step 4: the script runs for every ticket type, also after one has failed.
unfoldable pub reserve_all : ℕ → ℕ → ℕ → ℕ → List Meta → Redis → List LuaReply × Redis
reserve_all now ttl user_id order_id [] r = ([], r)
reserve_all now ttl user_id order_id (m ∷ ms) r =
    let (reply, r') = reserve_ticket now ttl m.max_per_user (meta_hold user_id order_id m) r in
    let (replies, r'') = reserve_all now ttl user_id order_id ms r' in (reply ∷ replies, r'')

-- `findIndex((r) => !r.ok)`, with the error of that reply.
unfoldable pub failed_index : List LuaReply → Option (ℕ × LuaError)
failed_index [] = none
failed_index (failure e ∷ rs) = some (0, e)
failed_index (success n m ∷ rs) = elim (failed_index rs) [
  | none ↦ none
  | some (k, e) ↦ some (suc k, e)
]

-- The reservation with its rollback, which releases the entries before the failed one, from the
-- last to the first.
unfoldable pub reserve_stage : Sale → ℕ → List Meta → Action (Unit {0})
reserve_stage s user_id ms w =
    let (replies, r) = reserve_all s.now (ttl_of s) user_id s.order_id ms w.redis in
    elim (failed_index replies) [
      | none ↦ (ok tt, set_redis r w)
      | some (k, e) ↦ (
        err unprocessable,
        set_redis (release_holds s.now (reverse (take k (map (meta_hold user_id s.order_id) ms))) r)
            w,
      )
    ]

-- The rows that are created with the order.
unfoldable pub order_items : ℕ → List Meta → List OrderItem
order_items id [] = []
order_items id (m ∷ ms) =
    record {
      id = id;
      ticket_type_id = m.ticket_type_id;
      quantity = m.quantity;
      unit_price = m.unit_price;
      subtotal = m.unit_price * m.quantity;
    }
    ∷ order_items (suc id) ms

-- Step 5: the order as it is written.
unfoldable pub new_order : Sale → ℕ → ℕ → List Meta → Order
unfolding order_items
new_order s user_id concert_id ms = record {
  user_id = user_id;
  concert_id = concert_id;
  status = OrderStatus.pending_payment;
  total_amount = sum_of (λ m. m.unit_price * m.quantity) ms;
  expires_at = some (s.now + ttl_of s * 1000);
  paid_at = none;
  cancelled_at = none;
  inventory_released_at = none;
  release_reason = none;
  items = order_items s.item_ids ms;
}

abbrev pub release_metas : Sale → ℕ → List Meta → Redis → Redis
release_metas s user_id ms r = release_holds s.now (map (meta_hold user_id s.order_id) ms) r

unfoldable pub persist_stage : Sale → ℕ → ℕ → List Meta → Action (Unit {0})
persist_stage s user_id concert_id ms w =
    if s.persists
    then (
      ok tt,
      set_db
          (record w.db { orders = put s.order_id (new_order s user_id concert_id ms) w.db.orders })
          w,
    )
    else (err bad_request, set_redis (release_metas s user_id ms w.redis) w)

-- `userTicketCounter.upsert` of a reservation.
abbrev pub reserved_counter : ℕ → Option Counter → Counter
reserved_counter q none = record { paid_qty = 0; reserved_qty = pos q }
reserved_counter q (some c) = record c { reserved_qty = c.reserved_qty +ℤ pos q }

-- The conditional UPDATE, which affects no row where the type is missing or has too few left.
unfoldable pub reserve_row : ℕ → Option TicketType → Result TicketType
reserve_row q none = err unprocessable
reserve_row q (some row) =
    if ltb_ℤ (pos row.total_qty) (row.reserved_qty +ℤ pos row.sold_qty +ℤ pos q)
    then err unprocessable
    else ok (record row { reserved_qty = row.reserved_qty +ℤ pos q })

-- The body of the inventory transaction.
unfoldable pub sync_items : ℕ → List Meta → Db → Result Db
unfolding reserve_row
sync_items user_id [] db = ok db
sync_items user_id (m ∷ ms) db =
    Store.◌>>=◌ (reserve_row m.quantity (find m.ticket_type_id db.ticket_types)) λ row.
      sync_items user_id ms (
        set_counter user_id m.ticket_type_id
          (reserved_counter m.quantity (db.counters user_id m.ticket_type_id))
          (record db { ticket_types = put m.ticket_type_id row db.ticket_types }))

has_payment : ℕ → List Payment → Bool
has_payment order_id [] = false
has_payment order_id (p ∷ ps) = if p.order_id == order_id then true else has_payment order_id ps

-- `order.delete`. The foreign keys of OrderItem and PaymentTransaction restrict it, so Prisma throws
-- where the order has items or payments (or is not there).
unfoldable pub delete_order : ℕ → Db → Result Db
unfolding has_payment
delete_order order_id db = elim (find order_id db.orders) [
  | none ↦ err database
  | some o ↦ elim o.items [
    | i ∷ is ↦ err database
    | [] ↦
        if has_payment order_id db.payments
        then err database
        else ok (record db { orders = remove order_id db.orders })
  ]
]

-- `.catch(() => undefined)` on the deletion.
abbrev pub or_else : Db → Result Db → Db
or_else db (ok db') = db'
or_else db (err e) = db

-- An error that is no UnprocessableEntityException becomes a BadRequestException.
abbrev pub rethrow : Error → Error
rethrow unprocessable = unprocessable
rethrow e = bad_request

unfoldable pub sync_stage : Sale → ℕ → List Meta → Action (Unit {0})
sync_stage s user_id ms w = elim (if s.syncs then sync_items user_id ms w.db else err database) [
  | ok db ↦ (ok tt, set_db db w)
  | err e ↦ (
    err (rethrow e),
    set_db (or_else w.db (delete_order s.order_id w.db))
        (set_redis (release_metas s user_id ms w.redis) w),
  )
]

-- The rollback where the gateway fails: Redis, the two counters, and the order. An error of the
-- rollback takes the place of the gateway's.
unfoldable pub undo_sale : Sale → ℕ → List Meta → Error → Action PaymentUrl
undo_sale s user_id ms e w =
    let items = order_items s.item_ids ms in
    let v = set_redis (release_metas s user_id ms w.redis) w in
    let (db', types) = update_types items w.db in
    let (db'', counters) = update_counters user_id items db' in
    if types && counters
    then elim (delete_order s.order_id db'') [
      | ok db3 ↦ (err e, set_db db3 v)
      | err d ↦ (err d, set_db db'' v)
    ]
    else (err database, set_db db'' v)

unfoldable pub pay_stage : Sale → ℕ → List Meta → Action PaymentUrl
pay_stage s user_id ms w = elim (create_payment_url s.gateway s.order_id user_id w.db) [
  | ok (url, db) ↦ (ok url, set_db db w)
  | err e ↦ undo_sale s user_id ms e w
]

-- The delayed job that expires the order.
abbrev pub schedule : Sale → World → World
schedule s w = record w {
  expire_queue = w.expire_queue ++ (s.order_id, s.now + ttl_of s * 1000) ∷ [];
}

unfoldable pub create_order : Sale → ℕ → List ItemDto → ℕ → Action PaymentUrl
create_order s concert_id items user_id = do
  ms ← reads (λ w. collect_meta s.now concert_id items w.db)
  (λ w. (ok tt, set_redis (seed_all user_id ms w.db w.redis) w))
  reserve_stage s user_id ms
  persist_stage s user_id concert_id ms
  sync_stage s user_id ms
  url ← pay_stage s user_id ms
  (λ w. (ok url, schedule s w))
