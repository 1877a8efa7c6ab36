-- ===== src/TicketTypes/Listing.antt =====
-- The lists of ticket types: `findAll`, `findOne` and `findAvailable` of
-- backend/src/modules/ticket-type/ticket-type.service.ts, beside what an order accepts.
use se_ticketbox.Prelude.{
  ℕ, ◌≡◌, ◌≢◌, refl, Bool, true, false, ◌&&◌, Option, none, some, List, [], ◌∷◌, map, arith, ltb,
  leb, ◌==◌, if◌then◌else◌, length,
}
use se_ticketbox.Prelude.Table.{Table, find, Distinct}
use se_ticketbox.Store.{
  Db, Role, TicketType, TicketTypeStatus, not_found, Result, ok, err, ◌>>=◌, or_fail,
}
use se_ticketbox.Order.Validate.{sells, on_sale, validate_ticket_type}
use se_ticketbox.TicketTypes.{Response, to_response, check_concert_ownership}

-- `orderBy: { price: 'desc' }`.
unfoldable pub insert_by_price : ℕ → TicketType → Table TicketType → Table TicketType
insert_by_price id row [] = (id, row) ∷ []
insert_by_price id row ((j, other) ∷ m) =
    if leb other.price row.price
    then (id, row) ∷ (j, other) ∷ m
    else (j, other) ∷ insert_by_price id row m

-- `findMany` with a condition, the dearest first.
unfoldable pub select_types : (TicketType → Bool) → Table TicketType → Table TicketType
unfolding insert_by_price
select_types p [] = []
select_types p ((id, row) ∷ m) =
    if p row then insert_by_price id row (select_types p m) else select_types p m

abbrev pub same_status : TicketTypeStatus → TicketTypeStatus → Bool
same_status TicketTypeStatus.active TicketTypeStatus.active = true
same_status TicketTypeStatus.inactive TicketTypeStatus.inactive = true
same_status TicketTypeStatus.sold_out TicketTypeStatus.sold_out = true
same_status _ _ = false

abbrev pub has_status : Option TicketTypeStatus → TicketType → Bool
has_status none row = true
has_status (some s) row = same_status row.status s

pub record ListResponse : Type 0 where
  pub data_ : List Response
  pub total : ℕ

abbrev pub respond : ℕ × TicketType → Response
respond (id, row) = to_response id row

abbrev pub to_list : Table TicketType → ListResponse
to_list m = record { data_ = map respond m; total = length m }

-- `findAll`.
unfoldable pub find_all : ℕ → ℕ → Role → Option TicketTypeStatus → Db → Result ListResponse
unfolding check_concert_ownership select_types
find_all concert_id user role status db = do
  _ ← check_concert_ownership concert_id user role db
  ok (
      to_list (
        select_types (λ row. row.concert_id == concert_id && has_status status row)
          db.ticket_types))

-- `findOne`.
unfoldable pub find_one : ℕ → ℕ → Role → Db → Result Response
unfolding check_concert_ownership
find_one id user role db = do
  row ← or_fail (find id db.ticket_types) not_found
  _ ← check_concert_ownership row.concert_id user role db
  ok (to_response id row)

-- `saleEndsAt: null` or `saleEndsAt: { gt: now }`.
abbrev pub ends_later : ℕ → Option ℕ → Bool
ends_later now none = true
ends_later now (some at) = ltb now at

unfoldable pub is_available : ℕ → ℕ → TicketType → Bool
is_available now concert_id row =
    row.concert_id == concert_id
    && (on_sale row.status && (leb row.sale_starts_at now && ends_later now row.sale_ends_at))

-- The rows that `findAvailable` lists.
unfoldable pub available_rows : ℕ → ℕ → Db → Result (Table TicketType)
unfolding select_types is_available
available_rows now concert_id db = do
  concert ← or_fail (find concert_id db.concerts) not_found
  ok (
      if sells concert.status
      then select_types (is_available now concert_id) db.ticket_types
      else [])

-- `findAvailable`.
unfoldable pub find_available : ℕ → ℕ → Db → Result ListResponse
unfolding available_rows
find_available now concert_id db = do rows ← available_rows now concert_id db; ok (to_list rows)

abbrev keep : (TicketType → Bool) → Option TicketType → Option TicketType
keep p none = none
keep p (some row) = if p row then some row else none

find-insert :
    (id k : ℕ) (row : TicketType) (m : Table TicketType)
    → find id m ≡ none
    → find k (insert_by_price id row m) ≡ (if id == k then some row else find k m)
unfolding find insert_by_price
find-insert id k row [] fresh = refl
find-insert id k row ((j, other) ∷ m) fresh = ground (arith, find-insert id k row m)

-- The order of the rows does not matter to a lookup.
find-select :
    (p : TicketType → Bool) (k : ℕ) (m : Table TicketType)
    → Distinct m
    → find k (select_types p m) ≡ keep p (find k m)
unfolding find select_types
find-select p k [] d = refl
find-select p k ((id, row) ∷ m) d =
    ground (
      arith,
      find-select p k m d.1,
      find-select p id m d.1,
      find-insert id k row (select_types p m),
    )

-- The rows of an answer; an error lists none.
abbrev pub listed : Result (Table TicketType) → Table TicketType
listed (ok rows) = rows
listed (err e) = []

abbrev pub accepted : Result TicketType → Option TicketType
accepted (ok row) = some row
accepted (err e) = none

abbrev pub NotEndingAt : ℕ → Option TicketType → Type 0
NotEndingAt now none = Unit
NotEndingAt now (some row) = row.sale_ends_at ≢ some now

-- Customers are shown a ticket type exactly where an order for it passes the checks of
-- `validateTicketType` at that time, with the same row, if its sale does not end at that very time.
pub find_available-validate :
    (now concert_id id : ℕ) (db : Db)
    → Distinct db.ticket_types
    → NotEndingAt now (find id db.ticket_types)
    → find id (listed (available_rows now concert_id db))
      ≡ accepted (validate_ticket_type now concert_id id db)
unfolding available_rows validate_ticket_type is_available find
find_available-validate now concert_id id db d ends =
    ground (arith, find-select (is_available now concert_id) id db.ticket_types d)
