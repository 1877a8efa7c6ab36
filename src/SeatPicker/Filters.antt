-- ===== src/SeatPicker/Filters.antt =====
-- The lists beside the seat map, and its filters (frontend/customer-web/hooks/useSeatMap.ts).
use se_ticketbox.Prelude.{
  ℕ, Bool, true, false, ◌&&◌, ◌||◌, Option, none, some, List, [], ◌∷◌, ◌++◌, ◌==◌, if◌then◌else◌,
  sum_of,
}
use se_ticketbox.SeatPicker.{
  Zone, ZoneStatus, available, reserved, sold_out, MapType, SeatMap, ZoneSelection, Picker,
  zone_lookup, cap_of,
}

-- The filters, where none stands for "all".
pub record Filter : Type 0 where
  pub ticket_type : Option ℕ
  pub zone : Option ℕ
  pub status : Option ZoneStatus

abbrev pub same_status : ZoneStatus → ZoneStatus → Bool
same_status available available = true
same_status reserved reserved = true
same_status sold_out sold_out = true
same_status _ _ = false

abbrev pub passes {ℓ} : {A : Type ℓ} → (A → Bool) → Option A → Bool
passes p none = true
passes p (some a) = p a

abbrev pub is_shown : Filter → MapType × Zone → Bool
is_shown f (ty, z) =
    passes (λ t. ty.id == t) f.ticket_type
    && (passes (λ i. z.zone_id == i) f.zone && passes (same_status z.status) f.status)

unfoldable pub zones_of_type : MapType → List Zone → List (MapType × Zone)
zones_of_type ty [] = []
zones_of_type ty (z ∷ zs) = (ty, z) ∷ zones_of_type ty zs

-- `zones`.
unfoldable pub all_zones : SeatMap → List (MapType × Zone)
unfolding zones_of_type
all_zones [] = []
all_zones (ty ∷ m) = zones_of_type ty ty.zones ++ all_zones m

unfoldable pub select_shown : Filter → List (MapType × Zone) → List (MapType × Zone)
select_shown f [] = []
select_shown f (x ∷ xs) = if is_shown f x then x ∷ select_shown f xs else select_shown f xs

-- `filteredZones`.
unfoldable pub filtered_zones : Filter → SeatMap → List (MapType × Zone)
unfolding all_zones select_shown
filtered_zones f m = select_shown f (all_zones m)

unfoldable pub is_listed : ZoneSelection → List (MapType × Zone) → Bool
is_listed c [] = false
is_listed c ((ty, z) ∷ xs) = (ty.id == c.ticket_type_id && z.zone_id == c.zone_id) || is_listed c xs

abbrev pub keep_listed : List (MapType × Zone) → Option ZoneSelection → Picker → Picker
keep_listed xs none p = p
keep_listed xs (some c) p = if is_listed c xs then p else record p { selection = none }

-- The effect that drops a choice which the filters hide.
unfoldable pub apply_filter : Filter → Picker → Picker
unfolding filtered_zones is_listed
apply_filter f p = keep_listed (filtered_zones f p.loaded) p.selection p

-- `ticketTypeSummaries`.
pub record Summary : Type 0 where
  pub id : ℕ
  pub available_total : ℕ
  pub price : ℕ
  pub max_per_user : ℕ

unfoldable pub summaries : SeatMap → List Summary
summaries [] = []
summaries (ty ∷ m) =
    record {
      id = ty.id;
      available_total = sum_of (λ (z : Zone). z.available_count) ty.zones;
      price = ty.price;
      max_per_user = ty.max_per_user;
    }
    ∷ summaries m

abbrev pub most : Option (ℕ → ℕ) → Option (MapType × Zone) → ℕ
most usage none = 1
most usage (some entry) = cap_of entry usage

-- `maxQuantityForSelection`.
unfoldable pub max_quantity : Picker → ℕ
unfolding zone_lookup
max_quantity p = elim p.selection [
  | none ↦ 1
  | some c ↦ most p.usage (zone_lookup c.ticket_type_id c.zone_id p.loaded)
]
