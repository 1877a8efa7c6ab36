-- ===== src/SeatPicker/Cover.antt =====
-- What the choice on the seat map may be (frontend/customer-web/hooks/useSeatMap.ts).
use se_ticketbox.Prelude.{
  ℕ, ◌≤◌, ◌≡◌, refl, Bool, true, false, not, ◌&&◌, Option, none, some, List, [], ◌∷◌, leb, ◌==◌,
  if◌then◌else◌, arith, Option-cases, inl, inr,
}
use se_ticketbox.Prelude.Int.{ℤ, pos, negsuc}
use se_ticketbox.SeatPicker.{
  Zone, MapType, SeatMap, ZoneUpdate, ZoneSelection, Picker, last_update, first_update, update_zone,
  update_zones, apply_updates, zone_of, zone_lookup, take_updates, select_zone, set_quantity,
  restore_selection, warn, limit_reached, clip, cap_of, allowance,
}
use se_ticketbox.SeatPicker.Filters.{Filter, apply_filter}

abbrev pub places_of : Option (MapType × Zone) → Option ℕ
places_of none = none
places_of (some (ty, x)) = some x.available_count

abbrev pub covers : ℕ → Option ℕ → Bool
covers quantity none = false
covers quantity (some n) = leb quantity n

abbrev pub is_covered : Option ZoneSelection → SeatMap → Bool
is_covered none m = true
is_covered (some c) m = covers c.quantity (places_of (zone_lookup c.ticket_type_id c.zone_id m))

-- The zone that is chosen is on the map and has as many places as are asked for.
abbrev pub Covered : Picker → Type 0
Covered p = is_covered p.selection p.loaded ≡ true

abbrev has_zone_id : ℕ → Option Zone → Bool
has_zone_id z none = true
has_zone_id z (some x) = x.zone_id == z

zone_of-id : (z : ℕ) (zs : List Zone) → has_zone_id z (zone_of z zs) ≡ true
unfolding zone_of
zone_of-id z [] = refl
zone_of-id z (x ∷ xs) = elim (Option-cases (zone_of z xs)) [
  | inl e ↦ ground (arith, e)
  | inr (y, e) ↦ ground (arith, e, zone_of-id z xs)
]

abbrev has_ids : ℕ → ℕ → Option (MapType × Zone) → Bool
has_ids t z none = true
has_ids t z (some (ty, x)) = ty.id == t && x.zone_id == z

zone_lookup-ids : (t z : ℕ) (m : SeatMap) → has_ids t z (zone_lookup t z m) ≡ true
unfolding zone_lookup
zone_lookup-ids t z [] = refl
zone_lookup-ids t z (ty ∷ m) = elim (Option-cases (zone_lookup t z m)) [
  | inl e ↦ elim (Option-cases (zone_of z ty.zones)) [
    | inl f ↦ ground (arith, e, f)
    | inr (x, f) ↦ ground (arith, e, f, zone_of-id z ty.zones)
  ]
  | inr (y, e) ↦ ground (arith, e, zone_lookup-ids t z m)
]

-- A map's zone after updates is the zone with the last update for it.
abbrev update_option : Option ZoneUpdate → Option Zone → Option Zone
update_option u none = none
update_option u (some x) = some (update_zone u x)

zone_id-update_zone : (u : Option ZoneUpdate) (x : Zone) → (update_zone u x).zone_id ≡ x.zone_id
zone_id-update_zone none x = refl
zone_id-update_zone (some u) x = refl

zone_of-update_zones :
    (t z : ℕ) (us : List ZoneUpdate) (zs : List Zone)
    → zone_of z (update_zones t us zs) ≡ update_option (last_update t z us) (zone_of z zs)
unfolding zone_of update_zones
zone_of-update_zones t z us [] = refl
zone_of-update_zones t z us (x ∷ xs) =
    let ih = zone_of-update_zones t z us xs in
    let same_id = zone_id-update_zone (last_update t x.zone_id us) x in
    elim (Option-cases (zone_of z xs)) [
      | inl e ↦ ground (arith, e, ih, same_id)
      | inr (y, e) ↦ ground (arith, e, ih, same_id)
    ]

abbrev new_places : Option ZoneUpdate → Option ℕ → Option ℕ
new_places u none = none
new_places none (some n) = some n
new_places (some u) (some n) = some u.available_count

zone_lookup-apply_updates :
    (t z : ℕ) (us : List ZoneUpdate) (m : SeatMap)
    → places_of (zone_lookup t z (apply_updates us m))
      ≡ new_places (last_update t z us) (places_of (zone_lookup t z m))
unfolding zone_lookup apply_updates
zone_lookup-apply_updates t z us [] = refl
zone_lookup-apply_updates t z us (ty ∷ m) =
    let ih = zone_lookup-apply_updates t z us m in
    let here = zone_of-update_zones ty.id z us ty.zones in
    elim (Option-cases (last_update t z us)) [
      | inl l ↦ elim (Option-cases (zone_lookup t z m)) [
        | inl e ↦ elim (Option-cases (zone_of z ty.zones)) [
          | inl f ↦ ground (arith, e, f, l, ih, here)
          | inr (x, f) ↦ ground (arith, e, f, l, ih, here)
        ]
        | inr (y, e) ↦ ground (arith, e, l, ih)
      ]
      | inr (u, l) ↦ elim (Option-cases (zone_lookup t z m)) [
        | inl e ↦ elim (Option-cases (zone_of z ty.zones)) [
          | inl f ↦ ground (arith, e, f, l, ih, here)
          | inr (x, f) ↦ ground (arith, e, f, l, ih, here)
        ]
        | inr (y, e) ↦ ground (arith, e, l, ih)
      ]
    ]

abbrev is_there : Option ZoneUpdate → Bool
is_there none = false
is_there (some u) = true

-- No two updates are for one zone.
unfoldable pub unique_updates : List ZoneUpdate → Bool
unfolding last_update
unique_updates [] = true
unique_updates (u ∷ us) =
    not (is_there (last_update u.ticket_type_id u.zone_id us)) && unique_updates us

first_update-last_update :
    (t z : ℕ) (us : List ZoneUpdate)
    → unique_updates us ≡ true
    → first_update t z us ≡ last_update t z us
unfolding unique_updates first_update last_update
first_update-last_update t z [] h = refl
first_update-last_update t z (u ∷ us) h = elim (Option-cases (last_update t z us)) [
  | inl e ↦ ground (arith, e, h, first_update-last_update t z us)
  | inr (v, e) ↦ ground (arith, e, h, first_update-last_update t z us)
]

take_updates-Covered :
    (us : List ZoneUpdate) (p : Picker)
    → unique_updates us ≡ true
    → Covered p
    → Covered (take_updates us p)
unfolding take_updates
take_updates-Covered us p h k = elim (Option-cases p.selection) [
  | inl e ↦ ground (arith, e)
  | inr (c, e) ↦
      let places = zone_lookup-apply_updates c.ticket_type_id c.zone_id us p.loaded in
      let agree = first_update-last_update c.ticket_type_id c.zone_id us h in
      elim (Option-cases (zone_lookup c.ticket_type_id c.zone_id p.loaded)) [
        | inl f ↦ ground (arith, e, f, k)
        | inr (y, f) ↦ elim (Option-cases (last_update c.ticket_type_id c.zone_id us)) [
          | inl l ↦ ground (arith, e, f, l, k, places, agree)
          | inr (u, l) ↦ ground (arith, e, f, l, k, places, agree)
        ]
      ]
]

select_zone-Covered : (t z : ℕ) (p : Picker) → Covered p → Covered (select_zone t z p)
unfolding select_zone
select_zone-Covered t z p k = elim (Option-cases (zone_lookup t z p.loaded)) [
  | inl e ↦ ground (arith, e, k)
  | inr ((ty, x), e) ↦ ground (arith, e, k, zone_lookup-ids t z p.loaded)
]

clip-le : (q : ℤ) (cap : ℕ) → clip q cap ≤ cap
clip-le (pos n) cap = ground arith
clip-le (negsuc n) cap = omega arith

set_quantity-Covered : (q : ℤ) (p : Picker) → Covered p → Covered (set_quantity q p)
unfolding set_quantity
set_quantity-Covered q p k = elim (Option-cases p.selection) [
  | inl e ↦ ground (arith, e)
  | inr (c, e) ↦ elim (Option-cases (zone_lookup c.ticket_type_id c.zone_id p.loaded)) [
    | inl f ↦ ground (arith, e, f, k)
    | inr ((ty, x), f) ↦ ground (arith, e, f, k, clip-le q (cap_of (ty, x) p.usage))
  ]
]

restore_selection-Covered :
    (o : Option ZoneSelection) (p : Picker) → Covered p → Covered (restore_selection o p)
unfolding restore_selection
restore_selection-Covered none p k = k
restore_selection-Covered (some c) p k =
    elim (Option-cases (zone_lookup c.ticket_type_id c.zone_id p.loaded)) [
      | inl f ↦ ground (arith, f, k)
      | inr ((ty, x), f) ↦ ground (arith, f, k)
    ]

apply_filter-Covered : (f : Filter) (p : Picker) → Covered p → Covered (apply_filter f p)
unfolding apply_filter
apply_filter-Covered f p k = elim (Option-cases p.selection) [
  | inl e ↦ ground (arith, e)
  | inr (c, e) ↦ ground (arith, e, k)
]

-- What happens on the page.
pub data Action : Type 0 where
  restored : Option ZoneSelection → Action
  chosen : (ticket_type_id zone_id : ℕ) → Action
  quantity_set : ℤ → Action
  updated : List ZoneUpdate → Action
  filtered : Filter → Action
  usage_loaded : Option (ℕ → ℕ) → Action

unfoldable pub act : Action → Picker → Picker
act (restored o) p = restore_selection o p
act (chosen t z) p = select_zone t z p
act (quantity_set q) p = set_quantity q p
act (updated us) p = take_updates us p
act (filtered f) p = apply_filter f p
act (usage_loaded u) p = record p { usage = u }

unfoldable pub act_all : List Action → Picker → Picker
unfolding act
act_all [] p = p
act_all (a ∷ as') p = act_all as' (act a p)

abbrev pub one_update_per_zone : Action → Bool
one_update_per_zone (updated us) = unique_updates us
one_update_per_zone _ = true

unfoldable pub all_unique : List Action → Bool
unfolding unique_updates
all_unique [] = true
all_unique (a ∷ as') = one_update_per_zone a && all_unique as'

act-Covered :
    (a : Action) (p : Picker) → one_update_per_zone a ≡ true → Covered p → Covered (act a p)
unfolding act
act-Covered (restored o) p h k = restore_selection-Covered o p k
act-Covered (chosen t z) p h k = select_zone-Covered t z p k
act-Covered (quantity_set q) p h k = set_quantity-Covered q p k
act-Covered (updated us) p h k = take_updates-Covered us p h k
act-Covered (filtered f) p h k = apply_filter-Covered f p k
act-Covered (usage_loaded u) p h k = k

-- Whatever the user does on the seat map, whatever is restored and whatever updates arrive, the zone
-- that is chosen stays on the map with as many places as the chosen quantity, if that was so at the
-- start and no message of updates has two for one zone.
pub act_all-Covered :
    (as' : List Action) (p : Picker) → all_unique as' ≡ true → Covered p → Covered (act_all as' p)
unfolding act_all all_unique
act_all-Covered [] p h k = k
act_all-Covered (a ∷ as') p h k =
    act_all-Covered as' (act a p) (ground (arith, h)) (act-Covered a p (ground (arith, h)) k)

-- Setting the quantity of a choice that is on the map either warns that the user's limit is reached,
-- or takes the quantity cut down to the places, the limit and the allowance, and to 0 below it: no
-- other warning is ever given, also where the quantity asked for is above one of the three.
pub set_quantity_lem :
    (q : ℤ) (p : Picker) (c : ZoneSelection) (ty : MapType) (z : Zone)
    → p.selection ≡ some c
    → zone_lookup c.ticket_type_id c.zone_id p.loaded ≡ some (ty, z)
    → set_quantity q p ≡ (
        if allowance ty.id ty.max_per_user p.usage == 0 then warn limit_reached p else record p {
          limit_warning = none;
          selection = some (record c { quantity = clip q (cap_of (ty, z) p.usage) });
        })
unfolding set_quantity
set_quantity_lem q p c ty z e f = ground (arith, e, f, clip-le q (cap_of (ty, z) p.usage))
