-- ===== src/Order/Validate.antt =====
-- The steps of `createOrder` before the reservation: `validateTicketType`, `ensureRedisStock` and
-- `ensureRedisUserLimit` of backend/src/modules/order/order.service.ts.
use se_ticketbox.Prelude.{ℕ, Bool, true, false, not, Option, none, some, List, [], ◌∷◌, ltb, ◌==◌}
use se_ticketbox.Prelude.Int.{ℤ, pos, ◌+ℤ◌, ◌-ℤ◌, pos_part}
use se_ticketbox.Prelude.Table.{find}
use se_ticketbox.Redis.{Redis, set_nx_stock, set_nx_user_limit}
use se_ticketbox.Store.{
  Db, ConcertStatus, TicketType, TicketTypeStatus, Counter, not_found, bad_request, Result, ok,
  ◌>>=◌, ◌>>◌, or_fail, guard,
}

-- `OrderItemDto` of dto/create-order.dto.ts.
pub record ItemDto : Type 0 where
  pub ticket_type_id : ℕ
  pub quantity : ℕ

-- An entry of `ticketMeta`.
pub record Meta : Type 0 where
  pub ticket_type_id : ℕ
  pub quantity : ℕ
  pub max_per_user : ℕ
  pub unit_price : ℕ

abbrev pub sells : ConcertStatus → Bool
sells ConcertStatus.published = true
sells ConcertStatus.sale_open = true
sells _ = false

abbrev pub on_sale : TicketTypeStatus → Bool
on_sale TicketTypeStatus.active = true
on_sale _ = false

abbrev pub has_ended : ℕ → Option ℕ → Bool
has_ended now none = false
has_ended now (some at) = ltb at now

unfoldable pub validate_ticket_type : ℕ → ℕ → ℕ → Db → Result TicketType
validate_ticket_type now concert_id ticket_type_id db = do
  concert ← or_fail (find concert_id db.concerts) not_found
  guard (sells concert.status) bad_request
  ticket_type ← or_fail (find ticket_type_id db.ticket_types) not_found
  guard (ticket_type.concert_id == concert_id) bad_request
  guard (on_sale ticket_type.status) bad_request
  guard (not (ltb now ticket_type.sale_starts_at)) bad_request
  guard (not (has_ended now ticket_type.sale_ends_at)) bad_request
  ok ticket_type

-- The loop of step 1.
unfoldable pub collect_meta : ℕ → ℕ → List ItemDto → Db → Result (List Meta)
collect_meta now concert_id [] db = ok []
collect_meta now concert_id (item ∷ items) db = do
  ticket_type ← validate_ticket_type now concert_id item.ticket_type_id db
  rest ← collect_meta now concert_id items db
  ok (
      record {
        ticket_type_id = item.ticket_type_id;
        quantity = item.quantity;
        max_per_user = ticket_type.max_per_user;
        unit_price = ticket_type.price;
      }
      ∷ rest)

-- `totalQty - soldQty - reservedQty`.
abbrev pub available : TicketType → ℤ
available row = pos row.total_qty -ℤ pos row.sold_qty -ℤ row.reserved_qty

-- `Math.max(0, available)` is written where the key is missing and the row is there.
unfoldable pub ensure_redis_stock : ℕ → Db → Redis → Redis
ensure_redis_stock t db r = elim (find t db.ticket_types) [
  | none ↦ r
  | some row ↦ set_nx_stock t (pos_part (available row)) r
]

abbrev pub count_of : Option Counter → ℤ
count_of none = pos 0
count_of (some c) = pos c.paid_qty +ℤ c.reserved_qty

unfoldable pub ensure_redis_user_limit : ℕ → ℕ → Db → Redis → Redis
ensure_redis_user_limit u t db r = set_nx_user_limit u t (count_of (db.counters u t)) r

-- Step 2, one key after another.
unfoldable pub seed_all : ℕ → List Meta → Db → Redis → Redis
seed_all u [] db r = r
seed_all u (m ∷ ms) db r =
    seed_all u ms db
      (ensure_redis_user_limit u m.ticket_type_id db (ensure_redis_stock m.ticket_type_id db r))
