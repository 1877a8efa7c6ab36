-- ===== src/SeatPicker.antt =====
-- The choice of a zone on the seat map: frontend/customer-web/hooks/useSeatMap.ts with
-- lib/seatmap-data.ts and lib/user-ticket-usage.ts. Names that are only shown are left out; a map keyed
-- by a ticket type and a zone is keyed by the pair.
pub mod Usage
pub mod Filters
pub mod Held
pub mod Cover
use se_ticketbox.Prelude.{
  ℕ, ◌+◌, ◌-◌, ◌*◌, Bool, true, false, not, ◌&&◌, ◌||◌, Option, none, some, List, [], ◌∷◌, ◌++◌,
  ltb, leb, ◌==◌, if◌then◌else◌,
}
use se_ticketbox.Prelude.Int.{ℤ, pos, negsuc}

pub data ZoneStatus : Type 0 where
  available reserved sold_out : ZoneStatus

pub record Zone : Type 0 where
  pub zone_id : ℕ
  pub available_count : ℕ
  pub reserved_count : ℕ
  pub sold_count : ℕ
  pub status : ZoneStatus

pub record MapType : Type 0 where
  pub id : ℕ
  pub price : ℕ
  pub max_per_user : ℕ
  pub zones : List Zone

-- `SeatMapData`.
abbrev pub SeatMap : Type 0
SeatMap = List MapType

pub record ZoneUpdate : Type 0 where
  pub ticket_type_id : ℕ
  pub zone_id : ℕ
  pub status : ZoneStatus
  pub available_count : ℕ
  pub reserved_count : Option ℕ
  pub sold_count : Option ℕ

pub record ZoneSelection : Type 0 where
  pub ticket_type_id : ℕ
  pub zone_id : ℕ
  pub quantity : ℕ
  pub unit_price : ℕ

-- `deriveZoneStatus`.
unfoldable pub derive_zone_status : (available_count reserved_count : ℕ) → ZoneStatus
derive_zone_status a r =
    if a == 0 then sold_out else if ltb 0 r && leb a r then reserved else available

abbrev pub is_for : ℕ → ℕ → ZoneUpdate → Bool
is_for t z u = u.ticket_type_id == t && u.zone_id == z

-- The entry of `updateMap`, where a later update replaces an earlier one.
unfoldable pub last_update : ℕ → ℕ → List ZoneUpdate → Option ZoneUpdate
last_update t z [] = none
last_update t z (u ∷ us) = elim (last_update t z us) [
  | some v ↦ some v
  | none ↦ if is_for t z u then some u else none
]

-- `updates.find`.
unfoldable pub first_update : ℕ → ℕ → List ZoneUpdate → Option ZoneUpdate
first_update t z [] = none
first_update t z (u ∷ us) = if is_for t z u then some u else first_update t z us

abbrev pub or_else : Option ℕ → ℕ → ℕ
or_else none n = n
or_else (some m) n = m

abbrev pub update_zone : Option ZoneUpdate → Zone → Zone
update_zone none z = z
update_zone (some u) z = record z {
  status = u.status;
  available_count = u.available_count;
  reserved_count = or_else u.reserved_count z.reserved_count;
  sold_count = or_else u.sold_count z.sold_count;
}

unfoldable pub update_zones : ℕ → List ZoneUpdate → List Zone → List Zone
unfolding last_update
update_zones t us [] = []
update_zones t us (z ∷ zs) = update_zone (last_update t z.zone_id us) z ∷ update_zones t us zs

-- `applyZoneAvailabilityUpdates`.
unfoldable pub apply_updates : List ZoneUpdate → SeatMap → SeatMap
unfolding update_zones
apply_updates us [] = []
apply_updates us (t ∷ ts) = record t { zones = update_zones t.id us t.zones } ∷ apply_updates us ts

-- The entry of `zoneLookup`, where a later zone replaces an earlier one.
unfoldable pub zone_of : ℕ → List Zone → Option Zone
zone_of z [] = none
zone_of z (x ∷ xs) = elim (zone_of z xs) [
  | some y ↦ some y
  | none ↦ if x.zone_id == z then some x else none
]

abbrev pub with_type : MapType → Option Zone → Option (MapType × Zone)
with_type t none = none
with_type t (some z) = some (t, z)

unfoldable pub zone_lookup : ℕ → ℕ → SeatMap → Option (MapType × Zone)
unfolding zone_of
zone_lookup t z [] = none
zone_lookup t z (x ∷ xs) = elim (zone_lookup t z xs) [
  | some y ↦ some y
  | none ↦ if x.id == t then with_type x (zone_of z x.zones) else none
]

pub data Warning : Type 0 where
  zone_sold_out limit_reached above_allowance above_limit above_stock : Warning

pub data Notice : Type 0 where
  now_sold_out count_changed : Notice

-- The state of `useSeatMap`: what is loaded, what is chosen, and the tickets that the user holds of
-- each type, where somebody is logged in.
pub record Picker : Type 0 where
  pub loaded : SeatMap
  pub selection : Option ZoneSelection
  pub limit_warning : Option Warning
  pub notice : Option Notice
  pub usage : Option (ℕ → ℕ)

abbrev pub is_sold_out : ZoneStatus → Bool
is_sold_out sold_out = true
is_sold_out available = false
is_sold_out reserved = false

abbrev pub is_available : ZoneStatus → Bool
is_available available = true
is_available reserved = false
is_available sold_out = false

abbrev pub drop_selection : Bool → Picker → Picker
drop_selection gone p = record p {
  selection = none;
  notice = some (if gone then now_sold_out else count_changed);
}

abbrev pub check_update : Option ZoneUpdate → ZoneSelection → Picker → Picker
check_update none c p = p
check_update (some u) c p =
    if is_sold_out u.status || ltb u.available_count c.quantity
    then drop_selection (is_sold_out u.status) p
    else p

abbrev pub check_selection : Option ZoneSelection → List ZoneUpdate → Picker → Picker
check_selection none us p = p
check_selection (some c) us p = check_update (first_update c.ticket_type_id c.zone_id us) c p

-- `applyUpdatesAndValidateSelection`.
unfoldable pub take_updates : List ZoneUpdate → Picker → Picker
unfolding apply_updates first_update
take_updates us p = check_selection p.selection us (record p { loaded = apply_updates us p.loaded })

-- `getRemainingAllowance`, with `remainingTicketAllowance`.
abbrev pub allowance : ℕ → ℕ → Option (ℕ → ℕ) → ℕ
allowance t limit none = limit
allowance t limit (some used) = limit - used t

abbrev pub is_selected : ℕ → ℕ → Option ZoneSelection → Bool
is_selected t z none = false
is_selected t z (some c) = c.ticket_type_id == t && c.zone_id == z

abbrev pub warn : Warning → Picker → Picker
warn w p = record p { limit_warning = some w }

abbrev pub choose : ℕ → ℕ → MapType × Zone → Picker → Picker
choose t z (ty, zone) p =
    if is_sold_out zone.status
    then warn zone_sold_out p
    else if allowance ty.id ty.max_per_user p.usage == 0
    then warn limit_reached p
    else if is_selected t z p.selection
    then record p { limit_warning = none; notice = none; selection = none }
    else record p {
      limit_warning = none;
      notice = none;
      selection = some (record {
        ticket_type_id = ty.id;
        zone_id = zone.zone_id;
        quantity = 0;
        unit_price = ty.price;
      });
    }

abbrev pub choose_found : ℕ → ℕ → Option (MapType × Zone) → Picker → Picker
choose_found t z none p = p
choose_found t z (some entry) p = choose t z entry p

-- `selectZone`.
unfoldable pub select_zone : ℕ → ℕ → Picker → Picker
unfolding zone_lookup
select_zone t z p = choose_found t z (zone_lookup t z p.loaded) p

abbrev pub min : ℕ → ℕ → ℕ
min a b = if leb a b then a else b

-- `Math.max(0, Math.min(quantity, cap))`.
abbrev pub clip : ℤ → ℕ → ℕ
clip (pos n) cap = min n cap
clip (negsuc n) cap = 0

abbrev pub cap_of : MapType × Zone → Option (ℕ → ℕ) → ℕ
cap_of (ty, zone) usage =
    min zone.available_count (min ty.max_per_user (allowance ty.id ty.max_per_user usage))

abbrev pub choose_quantity : ℤ → ZoneSelection → MapType × Zone → Picker → Picker
choose_quantity quantity c (ty, zone) p =
    let left = allowance ty.id ty.max_per_user p.usage in
    let next = clip quantity (cap_of (ty, zone) p.usage) in
    if left == 0
    then warn limit_reached p
    else if ltb left next
    then warn above_allowance p
    else if ltb ty.max_per_user next
    then warn above_limit p
    else if ltb zone.available_count next
    then warn above_stock p
    else record p { limit_warning = none; selection = some (record c { quantity = next }) }

abbrev pub quantity_found : ℤ → ZoneSelection → Option (MapType × Zone) → Picker → Picker
quantity_found quantity c none p = p
quantity_found quantity c (some entry) p = choose_quantity quantity c entry p

abbrev pub quantity_of : ℤ → Option ZoneSelection → Picker → Picker
quantity_of quantity none p = p
quantity_of quantity (some c) p =
    quantity_found quantity c (zone_lookup c.ticket_type_id c.zone_id p.loaded) p

-- `setQuantity`.
unfoldable pub set_quantity : ℤ → Picker → Picker
unfolding zone_lookup
set_quantity quantity p = quantity_of quantity p.selection p

abbrev pub restore_found : ZoneSelection → Option (MapType × Zone) → Picker → Picker
restore_found saved none p = p
restore_found saved (some (ty, zone)) p =
    if is_available zone.status && leb saved.quantity zone.available_count
    then record p { selection = some saved }
    else p

-- The effect that restores the saved choice of the tab, once after the load.
unfoldable pub restore_selection : Option ZoneSelection → Picker → Picker
unfolding zone_lookup
restore_selection none p = p
restore_selection (some saved) p =
    restore_found saved (zone_lookup saved.ticket_type_id saved.zone_id p.loaded) p

-- `selectionState.totalPrice`.
abbrev pub total_price : Option ZoneSelection → ℕ
total_price none = 0
total_price (some c) = c.unit_price * c.quantity
