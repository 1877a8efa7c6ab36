-- ===== src/Seatmap/Broadcast.antt =====
-- Who hears of a change of the zones (backend/src/modules/seatmap/seatmap.service.ts).
use se_ticketbox.Prelude.{
  ℕ, ◌+◌, ◌*◌, ◌≡◌, ◌<◌, ◌≤◌, Bool, true, false, not, Option, none, some, arith,
}
use se_ticketbox.Prelude.Table.{find}
use se_ticketbox.Store.{Db, TicketType}
use se_ticketbox.Seatmap.{
  ZoneStatus, zone_status, compute_zone_availability, Cache, get_zones, set_zones, read_zones,
  same_zone_status, first_status, ZoneUpdate, invalidate_and_broadcast, availability_ttl_sec,
}

-- Is there a cached status, other than the row's?
abbrev pub heard : TicketType → Option ZoneStatus → Bool
heard row none = false
heard row (some old) = not (same_zone_status old (zone_status row))

abbrev pub sent : Option ZoneUpdate → Bool
sent none = false
sent (some p) = true

-- An update goes out exactly where an unexpired cache entry has another status than the row, so not
-- where nothing is cached. For 3 seconds every reader then gets the zones computed from this row,
-- whatever becomes of the row meanwhile, and afterwards the zones of the row as it is by then.
pub broadcast_outcome :
    (now later concert_id id : ℕ) (db : Db) (row changed : TicketType) (cache : Cache)
    → find id db.ticket_types ≡ some row
    → let (update, cache') = invalidate_and_broadcast now concert_id id db cache in
      (sent update ≡ heard row (first_status (get_zones now concert_id id cache)))
      × (later < now + availability_ttl_sec * 1000
          → (read_zones later concert_id id changed cache').0 ≡ compute_zone_availability id row)
      × (now + availability_ttl_sec * 1000 ≤ later
          → (read_zones later concert_id id changed cache').0
            ≡ compute_zone_availability id changed)
unfolding invalidate_and_broadcast read_zones get_zones set_zones
broadcast_outcome now later concert_id id db row changed cache here = ground (arith, here)
