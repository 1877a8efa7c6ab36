-- ===== src/Redis.antt =====
-- The inventory keys in Redis and the two Lua scripts that change them:
-- backend/src/modules/redis/scripts/reserve-ticket.lua and release-reservation.lua, called by
-- RedisService in backend/src/modules/redis/redis.service.ts. A script runs alone, so it is one step.
-- Identifiers are only compared, so they are numbers; the three key prefixes are three maps.
pub mod Laws
pub mod Trace
use se_ticketbox.Prelude.{
  ℕ, ◌+◌, ◌-◌, ◌*◌, ◌/◌, ◌≡◌, Bool, true, false, not, Option, none, some, List, [], ◌∷◌, ltb, leb,
  ◌==◌, if◌then◌else◌,
}
use se_ticketbox.Prelude.Int.{ℤ, pos, negsuc, ◌+ℤ◌, ◌-ℤ◌, ltb_ℤ}
use se_ticketbox.Prelude.Table.{Table, find, put, remove}

-- The value of `reservation:{orderId}`, with the time in milliseconds at which Redis drops the key.
pub record Reservation : Type 0 where
  pub order_id : ℕ
  pub user_id : ℕ
  pub ticket_type_id : ℕ
  pub quantity : ℕ
  pub created_at : ℕ  -- seconds
  pub expires_at : ℕ

-- `stock:{ticketTypeId}`, `user_limit:{userId}:{ticketTypeId}` and `reservation:{orderId}`.
pub record Redis : Type 0 where
  pub stock : ℕ → Option ℕ
  pub user_limit : ℕ → ℕ → Option ℤ
  pub reservations : Table Reservation

-- A key that has expired is not there. `now` is in milliseconds.
abbrev pub live : ℕ → Option Reservation → Option Reservation
live now none = none
live now (some r) = if ltb now r.expires_at then some r else none

unfoldable pub get_reservation : ℕ → ℕ → Redis → Option Reservation
get_reservation now order_id s = live now (find order_id s.reservations)

abbrev pub or_zero : Option ℕ → ℕ
or_zero none = 0
or_zero (some n) = n

abbrev pub or_zero_ℤ : Option ℤ → ℤ
or_zero_ℤ none = pos 0
or_zero_ℤ (some n) = n

abbrev pub set_stock : ℕ → ℕ → Redis → Redis
set_stock t n s = record s { stock = λ j. if t == j then some n else s.stock j }

abbrev pub set_user_limit : ℕ → ℕ → ℤ → Redis → Redis
set_user_limit u t n s = record s {
  user_limit =
      λ v j. if u == v then if t == j then some n else s.user_limit v j else s.user_limit v j;
}

-- The `error` of a script's reply, with the numbers that the caller reads.
pub data LuaError : Type 0 where
  out_of_stock : (remaining_stock : ℕ) → LuaError
  exceed_user_limit : (user_current_qty : ℤ) (max_per_user : ℕ) → LuaError
  reservation_already_exists : LuaError
  reservation_not_found : LuaError
  order_id_mismatch : LuaError
  user_id_mismatch : LuaError
  ticket_type_mismatch : LuaError
  quantity_mismatch : LuaError

pub data LuaReply : Type 0 where
  success : (new_stock : ℕ) (new_user_qty : ℤ) → LuaReply
  failure : LuaError → LuaReply

-- The parameters of `reserveTicket`; `releaseReservation` takes the first four.
pub record Hold : Type 0 where
  pub ticket_type_id : ℕ
  pub user_id : ℕ
  pub order_id : ℕ
  pub quantity : ℕ

-- Step 6 of reserve-ticket.lua: DECRBY, INCRBY and SET with EX. DECRBY cannot pass 0 there, since
-- step 3 has compared the stock with the quantity.
execute_reserve : ℕ → ℕ → Hold → Redis → LuaReply × Redis
execute_reserve now ttl_seconds h s =
    let new_stock = or_zero (s.stock h.ticket_type_id) - h.quantity in
    let new_user_qty = or_zero_ℤ (s.user_limit h.user_id h.ticket_type_id) +ℤ pos h.quantity in
    let reservation : Reservation = record {
      order_id = h.order_id;
      user_id = h.user_id;
      ticket_type_id = h.ticket_type_id;
      quantity = h.quantity;
      created_at = now / 1000;
      expires_at = now + ttl_seconds * 1000;
    } in
    let s' =
      set_user_limit h.user_id h.ticket_type_id new_user_qty
        (set_stock h.ticket_type_id new_stock s) in
    (
      success new_stock new_user_qty,
      record s' { reservations = put h.order_id reservation s.reservations },
    )

exists : Option Reservation → Bool
exists none = false
exists (some r) = true

-- reserve-ticket.lua.
unfoldable pub reserve_ticket : ℕ → ℕ → ℕ → Hold → Redis → LuaReply × Redis
unfolding get_reservation execute_reserve exists
reserve_ticket now ttl_seconds max_per_user h s =
    let current_stock = or_zero (s.stock h.ticket_type_id) in
    let user_current_qty = or_zero_ℤ (s.user_limit h.user_id h.ticket_type_id) in
    if ltb current_stock h.quantity
    then (failure (out_of_stock current_stock), s)
    else if ltb_ℤ (pos max_per_user) (user_current_qty +ℤ pos h.quantity)
    then (failure (exceed_user_limit user_current_qty max_per_user), s)
    else if exists (get_reservation now h.order_id s)
    then (failure reservation_already_exists, s)
    else execute_reserve now ttl_seconds h s

-- A counter that has fallen below 0 is set to 0.
abbrev pub or_reset : ℤ → ℤ
or_reset (pos n) = pos n
or_reset (negsuc n) = pos 0

-- Step 4 of release-reservation.lua: INCRBY, DECRBY with a reset of a negative counter to 0, DEL.
execute_release : Reservation → Hold → Redis → LuaReply × Redis
execute_release r h s =
    let new_stock = or_zero (s.stock h.ticket_type_id) + r.quantity in
    let counter = or_zero_ℤ (s.user_limit h.user_id h.ticket_type_id) in
    let new_user_qty = or_reset (counter -ℤ pos r.quantity) in
    let s' =
      set_user_limit h.user_id h.ticket_type_id new_user_qty
        (set_stock h.ticket_type_id new_stock s) in
    (success new_stock new_user_qty, record s' { reservations = remove h.order_id s.reservations })

-- Steps 2 to 4 of release-reservation.lua, on the reservation that step 1 has read.
release_found : Option Reservation → Hold → Redis → LuaReply × Redis
unfolding execute_release
release_found none h s = (failure reservation_not_found, s)
release_found (some r) h s =
    if not (r.order_id == h.order_id)
    then (failure order_id_mismatch, s)
    else if not (r.user_id == h.user_id)
    then (failure user_id_mismatch, s)
    else if not (r.ticket_type_id == h.ticket_type_id)
    then (failure ticket_type_mismatch, s)
    else if not (r.quantity == h.quantity)
    then (failure quantity_mismatch, s)
    else execute_release r h s

-- release-reservation.lua.
unfoldable pub release_reservation : ℕ → Hold → Redis → LuaReply × Redis
unfolding release_found get_reservation
release_reservation now h s = release_found (get_reservation now h.order_id s) h s

-- `setNx`: the value is written only where the key is missing.
unfoldable pub set_nx_stock : ℕ → ℕ → Redis → Redis
set_nx_stock t n s = elim (s.stock t) [ none ↦ set_stock t n s | some m ↦ s ]

unfoldable pub set_nx_user_limit : ℕ → ℕ → ℤ → Redis → Redis
set_nx_user_limit u t n s = elim (s.user_limit u t) [ none ↦ set_user_limit u t n s | some m ↦ s ]

-- `seedStock` with an available quantity that is not negative.
unfoldable pub seed_stock : ℕ → ℕ → Redis → Redis
seed_stock t available s = set_stock t available s

-- `del` of `reservation:{orderId}`.
unfoldable pub del_reservation : ℕ → Redis → Redis
del_reservation order_id s = record s { reservations = remove order_id s.reservations }

-- `decrementUserLimit`.
unfoldable pub decrement_user_limit : ℕ → ℕ → ℕ → Redis → Redis
decrement_user_limit t u quantity s = elim (s.user_limit u t) [
  | none ↦ s
  | some current ↦ set_user_limit u t (or_reset (current -ℤ pos quantity)) s
]
