-- ===== src/TicketTypes.antt =====
-- The ticket types of a concert: backend/src/modules/ticket-type/ticket-type.service.ts and its
-- dto/ticket-type.dto.ts. All checks come before the writes, so an error leaves the state as it was.
-- The call that invalidates the concert's cache is not part of these definitions.
pub mod Listing
pub mod Names
pub mod Edit
use se_ticketbox.Prelude.{
  ℕ, ◌≤◌, Bool, true, false, ◌&&◌, ◌||◌, not, Option, none, some, List, [], ◌∷◌, ◌++◌, ltb, ◌==◌,
  if◌then◌else◌,
}
use se_ticketbox.Prelude.Int.{ℤ, pos, negsuc, ◌+ℤ◌, ◌-ℤ◌, pos_part, ltb_ℤ}
use se_ticketbox.Prelude.Table.{Table, find, put, remove}
use se_ticketbox.Prelude.Text.{Text, text_eq}
use se_ticketbox.Redis.{Redis, seed_stock}
use se_ticketbox.Store.{
  Db, Role, Concert, ConcertStatus, TicketType, TicketTypeStatus, not_found, bad_request, forbidden,
  conflict, database, Result, ok, ◌>>=◌, ◌>>◌, or_fail, guard,
}
use se_ticketbox.World.{World}
use se_ticketbox.Order.Validate.{sells, available}

abbrev pub is_admin : Role → Bool
is_admin Role.admin = true
is_admin _ = false

abbrev pub may_manage : ℕ → Role → Concert → Bool
may_manage user role concert = is_admin role || concert.organizer_id == user

-- `checkConcertOwnership`.
unfoldable pub check_concert_ownership : ℕ → ℕ → Role → Db → Result Concert
check_concert_ownership concert_id user role db = do
  concert ← or_fail (find concert_id db.concerts) not_found
  guard (may_manage user role concert) forbidden
  ok concert

-- The fields of `TicketTypeResponseDto` that stand in no other row.
pub record Response : Type 0 where
  pub id : ℕ
  pub row : TicketType
  pub available_qty : ℤ

-- `toResponse`. No caller gives an `availableQty`.
abbrev pub to_response : ℕ → TicketType → Response
to_response id row = record { id = id; row = row; available_qty = available row }

-- `findUnique` by the pair of concert and name.
unfoldable pub type_name_taken : ℕ → Text → Table TicketType → Bool
type_name_taken concert_id name [] = false
type_name_taken concert_id name ((id, row) ∷ m) =
    if row.concert_id == concert_id && text_eq row.name name
    then true
    else type_name_taken concert_id name m

-- `CreateTicketTypeDto`.
pub record CreateDto : Type 0 where
  pub name : Text
  pub price : ℕ
  pub total_qty : ℕ
  pub max_per_user : ℕ
  pub sale_starts_at : ℕ
  pub sale_ends_at : Option ℕ
  pub status : Option TicketTypeStatus

abbrev pub is_over : ConcertStatus → Bool
is_over ConcertStatus.completed = true
is_over ConcertStatus.cancelled = true
is_over _ = false

abbrev pub or_else {ℓ} : {A : Type ℓ} → Option A → A → A
or_else none a = a
or_else (some b) a = b

abbrev pub new_ticket_type : ℕ → CreateDto → TicketType
new_ticket_type concert_id dto = record {
  concert_id = concert_id;
  name = dto.name;
  price = dto.price;
  total_qty = dto.total_qty;
  sold_qty = 0;
  reserved_qty = pos 0;
  max_per_user = dto.max_per_user;
  sale_starts_at = dto.sale_starts_at;
  sale_ends_at = dto.sale_ends_at;
  status = or_else dto.status TicketTypeStatus.active;
}

-- The writes of `create`; `id` is the one that the database draws.
abbrev pub create_writes : ℕ → TicketType → World → World
create_writes id row w = record w {
  db = record (w.db) { ticket_types = w.db.ticket_types ++ (id, row) ∷ [] };
  redis = seed_stock id row.total_qty w.redis;
}

-- `create`.
unfoldable pub create_ticket_type : ℕ → ℕ → CreateDto → ℕ → Role → World → Result (Response × World)
unfolding check_concert_ownership type_name_taken
create_ticket_type id concert_id dto user role w = do
  concert ← check_concert_ownership concert_id user role w.db
  guard (not (type_name_taken concert_id dto.name w.db.ticket_types)) conflict
  guard (not (is_over concert.status)) bad_request
  let row = new_ticket_type concert_id dto
  ok (to_response id row, create_writes id row w)

-- `UpdateTicketTypeDto`; an end of the sale that is given may be empty.
pub record UpdateDto : Type 0 where
  pub name : Option Text
  pub price : Option ℕ
  pub total_qty : Option ℕ
  pub sold_qty : Option ℕ
  pub reserved_qty : Option ℕ
  pub max_per_user : Option ℕ
  pub sale_starts_at : Option ℕ
  pub sale_ends_at : Option (Option ℕ)
  pub status : Option TicketTypeStatus

abbrev pub is_some {ℓ} : {A : Type ℓ} → Option A → Bool
is_some none = false
is_some (some a) = true

abbrev pub or_pos : Option ℕ → ℤ → ℤ
or_pos none z = z
or_pos (some n) z = pos n

-- A new name that another ticket type of the concert has.
unfoldable pub name_clash : Option Text → TicketType → Table TicketType → Bool
unfolding type_name_taken
name_clash none row m = false
name_clash (some name) row m = not (text_eq name row.name) && type_name_taken row.concert_id name m

-- The total that is given, compared with what is sold and reserved.
abbrev pub total_too_small : UpdateDto → Option ℕ → TicketType → Bool
total_too_small dto none row = false
total_too_small dto (some total) row =
    ltb_ℤ (pos total)
      (pos (or_else dto.sold_qty row.sold_qty) +ℤ or_pos dto.reserved_qty row.reserved_qty)

abbrev pub updated_row : UpdateDto → TicketType → TicketType
updated_row dto row = record row {
  name = or_else dto.name row.name;
  price = or_else dto.price row.price;
  total_qty = or_else dto.total_qty row.total_qty;
  sold_qty = or_else dto.sold_qty row.sold_qty;
  reserved_qty = or_pos dto.reserved_qty row.reserved_qty;
  max_per_user = or_else dto.max_per_user row.max_per_user;
  sale_starts_at = or_else dto.sale_starts_at row.sale_starts_at;
  sale_ends_at = or_else dto.sale_ends_at row.sale_ends_at;
  status = or_else dto.status row.status;
}

abbrev pub is_zero : ℤ → Bool
is_zero (pos n) = n == 0
is_zero (negsuc n) = false

-- `SOLD_OUT` where nothing is left.
abbrev pub mark_sold_out : TicketType → TicketType
mark_sold_out row =
    if is_zero (available row) then (record row { status = TicketTypeStatus.sold_out }) else row

abbrev pub changes_inventory : UpdateDto → Bool
changes_inventory dto = is_some dto.total_qty || (is_some dto.sold_qty || is_some dto.reserved_qty)

-- The writes of `update`; `seedStock` writes `Math.max(0, available)`.
abbrev pub update_writes : ℕ → UpdateDto → TicketType → World → World
update_writes id dto row w = record w {
  db = record (w.db) { ticket_types = put id (mark_sold_out row) w.db.ticket_types };
  redis =
      if changes_inventory dto then seed_stock id (pos_part (available row)) w.redis else w.redis;
}

-- `update`.
unfoldable pub update_ticket_type : ℕ → UpdateDto → ℕ → Role → World → Result (Response × World)
unfolding check_concert_ownership name_clash
update_ticket_type id dto user role w = do
  existing ← or_fail (find id w.db.ticket_types) not_found
  _ ← check_concert_ownership existing.concert_id user role w.db
  guard (not (name_clash dto.name existing w.db.ticket_types)) conflict
  guard (not (total_too_small dto dto.total_qty existing)) bad_request
  guard (not (is_some dto.sold_qty || is_some dto.reserved_qty) || is_admin role) forbidden
  let row = updated_row dto existing
  ok (to_response id (mark_sold_out row), update_writes id dto row w)

-- `del` of `stock:{ticketTypeId}`.
unfoldable pub del_stock : ℕ → Redis → Redis
del_stock t r = record r { stock = λ j. if t == j then none else r.stock j }

-- `remove`. `deletes` says whether the database lets the row go, which the order items, tickets and
-- counters that refer to it forbid.
unfoldable pub remove_ticket_type : Bool → ℕ → ℕ → Role → World → Result World
unfolding check_concert_ownership del_stock
remove_ticket_type deletes id user role w = do
  row ← or_fail (find id w.db.ticket_types) not_found
  _ ← check_concert_ownership row.concert_id user role w.db
  guard (not (ltb 0 row.sold_qty || ltb_ℤ (pos 0) row.reserved_qty)) bad_request
  guard deletes database
  ok (record w {
    db = record (w.db) { ticket_types = remove id w.db.ticket_types };
    redis = del_stock id w.redis;
  })
