-- ===== src/Seatmap.antt =====
-- The zones of a concert's seat map and their cache in Redis:
-- backend/src/modules/seatmap/seatmap.service.ts. Each ticket type is one zone. JSON and the fields
-- that only pass through (seat map address, venue) are not modelled.
pub mod Broadcast
use se_ticketbox.Prelude.{
  ℕ, ◌+◌, ◌*◌, Bool, true, false, not, Option, none, some, List, [], ◌∷◌, ◌++◌, ltb, ◌==◌,
  if◌then◌else◌,
}
use se_ticketbox.Prelude.Int.{ℤ, pos, pos_part, ltb_ℤ}
use se_ticketbox.Prelude.Table.{Table, find}
use se_ticketbox.Prelude.Text.{Text}
use se_ticketbox.Store.{Db, TicketType, not_found, Result, ok, err, or_fail, ◌>>=◌, ◌>>◌, guard}
use se_ticketbox.Order.Validate.{sells}
use se_ticketbox.Order.Validate
use se_ticketbox.TicketTypes.Listing.{select_types}

-- AVAILABILITY_TTL_SEC.
abbrev pub availability_ttl_sec : ℕ
availability_ttl_sec = 3

pub data ZoneStatus : Type 0 where
  available reserved sold_out : ZoneStatus

-- `ZoneAvailability`.
pub record Zone : Type 0 where
  pub zone_id : ℕ
  pub zone_name : Text
  pub available_count : ℕ
  pub reserved_count : ℤ
  pub sold_count : ℕ
  pub status : ZoneStatus

abbrev pub zone_status : TicketType → ZoneStatus
zone_status row =
    if not (ltb_ℤ (pos 0) (Validate.available row))
    then ZoneStatus.sold_out
    else if ltb_ℤ (pos 0) row.reserved_qty
    then ZoneStatus.reserved
    else ZoneStatus.available

-- `computeZoneAvailability`.
abbrev pub compute_zone_availability : ℕ → TicketType → List Zone
compute_zone_availability id row =
    record {
      zone_id = id;
      zone_name = row.name;
      available_count = pos_part (Validate.available row);
      reserved_count = row.reserved_qty;
      sold_count = row.sold_qty;
      status = zone_status row;
    }
    ∷ []

-- The zones at `seatmap:{concertId}:{ticketTypeId}:zones`, and when Redis drops them.
pub record Cached : Type 0 where
  pub zones : List Zone
  pub expires_at : ℕ

abbrev pub Cache : Type 0
Cache = ℕ → ℕ → Option Cached

abbrev pub fresh : ℕ → Option Cached → Option (List Zone)
fresh now none = none
fresh now (some c) = if ltb now c.expires_at then some c.zones else none

unfoldable pub get_zones : ℕ → ℕ → ℕ → Cache → Option (List Zone)
get_zones now concert_id id cache = fresh now (cache concert_id id)

unfoldable pub set_zones : ℕ → ℕ → ℕ → List Zone → Cache → Cache
set_zones now concert_id id zones cache =
    let entry : Cached = record { zones = zones; expires_at = now + availability_ttl_sec * 1000 } in
    λ c j. if concert_id == c then if id == j then some entry else cache c j else cache c j

-- The zones of one row: from the cache, or computed and put there.
abbrev pub zones_of : ℕ → ℕ → ℕ → TicketType → Option (List Zone) → Cache → List Zone × Cache
zones_of now concert_id id row (some zones) cache = (zones, cache)
zones_of now concert_id id row none cache =
    let zones = compute_zone_availability id row in (zones, set_zones now concert_id id zones cache)

unfoldable pub read_zones : ℕ → ℕ → ℕ → TicketType → Cache → List Zone × Cache
unfolding get_zones
read_zones now concert_id id row cache =
    zones_of now concert_id id row (get_zones now concert_id id cache) cache

-- One entry of `ticketTypes` in the answer.
pub record TicketTypeAvailability : Type 0 where
  pub id : ℕ
  pub row : TicketType
  pub zones : List Zone

-- Each row has a key of its own, so the parallel reads are one after another.
unfoldable pub read_all_zones :
    ℕ → ℕ → Table TicketType → Cache → List TicketTypeAvailability × Cache
unfolding read_zones
read_all_zones now concert_id [] cache = ([], cache)
read_all_zones now concert_id ((id, row) ∷ m) cache =
    let (zones, cache') = read_zones now concert_id id row cache in
    let (rest, cache'') = read_all_zones now concert_id m cache' in
    (record { id = id; row = row; zones = zones } ∷ rest, cache'')

-- The concert's ticket types, the dearest first.
abbrev pub types_of : ℕ → Db → Table TicketType
types_of concert_id db = select_types (λ row. row.concert_id == concert_id) db.ticket_types

-- `getSeatmap`.
unfoldable pub get_seatmap : ℕ → ℕ → Db → Cache → Result (List TicketTypeAvailability) × Cache
unfolding read_all_zones
get_seatmap now concert_id db cache =
    let (entries, cache') = read_all_zones now concert_id (types_of concert_id db) cache in
    elim (find concert_id db.concerts) [
      | none ↦ (err not_found, cache)
      | some concert ↦
          if not (sells concert.status) then (err not_found, cache) else (ok entries, cache')
    ]

-- The loop of `getAvailability` over the concert's ticket types, in the table's order.
unfoldable pub collect_zones : ℕ → ℕ → Table TicketType → Cache → List Zone × Cache
unfolding read_zones
collect_zones now concert_id [] cache = ([], cache)
collect_zones now concert_id ((id, row) ∷ m) cache =
    let (zones, cache') = read_zones now concert_id id row cache in
    let (rest, cache'') = collect_zones now concert_id m cache' in
    let (others, unread) = collect_zones now concert_id m cache in
    if row.concert_id == concert_id then (zones ++ rest, cache'') else (others, unread)

-- `getAvailability`.
unfoldable pub get_availability : ℕ → ℕ → Db → Cache → List Zone × Cache
unfolding collect_zones
get_availability now concert_id db cache = collect_zones now concert_id db.ticket_types cache

abbrev pub same_zone_status : ZoneStatus → ZoneStatus → Bool
same_zone_status ZoneStatus.available ZoneStatus.available = true
same_zone_status ZoneStatus.reserved ZoneStatus.reserved = true
same_zone_status ZoneStatus.sold_out ZoneStatus.sold_out = true
same_zone_status _ _ = false

abbrev pub first_status : Option (List Zone) → Option ZoneStatus
first_status none = none
first_status (some []) = none
first_status (some (z ∷ zs)) = some z.status

-- `ZoneUpdatePayload`, less its time.
pub record ZoneUpdate : Type 0 where
  pub ticket_type_id : ℕ
  pub old_status : ZoneStatus
  pub new_status : ZoneStatus
  pub available_count : ℕ

abbrev pub payload : ℕ → TicketType → Option ZoneStatus → Option ZoneUpdate
payload id row none = none
payload id row (some old) =
    if same_zone_status old (zone_status row)
    then none
    else (some (record {
      ticket_type_id = id;
      old_status = old;
      new_status = zone_status row;
      available_count = pos_part (Validate.available row);
    }))

-- `invalidateAndBroadcast`. The key that is deleted is written again at once.
unfoldable pub invalidate_and_broadcast : ℕ → ℕ → ℕ → Db → Cache → Option ZoneUpdate × Cache
unfolding set_zones
invalidate_and_broadcast now concert_id id db cache = elim (find id db.ticket_types) [
  | none ↦ (none, cache)
  | some row ↦ (
    payload id row (first_status (get_zones now concert_id id cache)),
    set_zones now concert_id id (compute_zone_availability id row) cache,
  )
]
