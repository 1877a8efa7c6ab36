-- ===== src/Redis/Laws.antt =====
-- The two inventory scripts, call by call: what each reply promises, and what a call conserves.
use se_ticketbox.Prelude.{
  ℕ, ◌+◌, ◌*◌, ◌/◌, ◌≤◌, ◌<◌, ◌≡◌, Option, none, some, arith, ltb, ◌==◌, if◌then◌else◌,
}
use se_ticketbox.Prelude.Int.{ℤ, pos, ◌+ℤ◌, ◌-ℤ◌, ◌≤ℤ◌}
use se_ticketbox.Prelude.Table.{
  find, remove, total, Distinct, find-put, find-remove, total-put, total-remove,
}
use se_ticketbox.Redis.{
  Redis, Reservation, Hold, LuaReply, LuaError, success, failure, out_of_stock, exceed_user_limit,
  reservation_already_exists, reservation_not_found, or_zero, or_zero_ℤ, or_reset, get_reservation,
  reserve_ticket, release_reservation,
}

-- The quantity that a reservation holds of a ticket type, while it is live.
abbrev pub share : ℕ → ℕ → Reservation → ℕ
share now t r = if ltb now r.expires_at then if r.ticket_type_id == t then r.quantity else 0 else 0

abbrev pub share_by : ℕ → ℕ → ℕ → Reservation → ℕ
share_by now u t r = if r.user_id == u then share now t r else 0

-- The tickets of a type held by live reservations, of all users and of one.
abbrev pub held : ℕ → ℕ → Redis → ℕ
held now t s = total (share now t) s.reservations

abbrev pub held_by : ℕ → ℕ → ℕ → Redis → ℕ
held_by now u t s = total (share_by now u t) s.reservations

abbrev pub stock_of : ℕ → Redis → ℕ
stock_of t s = or_zero (s.stock t)

abbrev pub counter_of : ℕ → ℕ → Redis → ℤ
counter_of u t s = or_zero_ℤ (s.user_limit u t)

-- The record that step 6 of reserve-ticket.lua stores.
abbrev pub new_reservation : ℕ → ℕ → Hold → Reservation
new_reservation now ttl h = record {
  order_id = h.order_id;
  user_id = h.user_id;
  ticket_type_id = h.ticket_type_id;
  quantity = h.quantity;
  created_at = now / 1000;
  expires_at = now + ttl * 1000;
}

-- `reserve_ticket` keeps the sum of free and held tickets of every type, where a hold lasts for some
-- time.
pub reserve_ticket_conserves :
    (now ttl max t : ℕ) (h : Hold) (s : Redis)
    → 0 < ttl
    → let s' = (reserve_ticket now ttl max h s).1 in
      stock_of t s' + held now t s' ≡ stock_of t s + held now t s
unfolding reserve_ticket ◌+ℤ◌ ◌-ℤ◌
reserve_ticket_conserves now ttl max t h s lasts =
    ground (arith, total-put (share now t) h.order_id (new_reservation now ttl h) s.reservations)

pub release_reservation_conserves :
    (now t : ℕ) (h : Hold) (s : Redis)
    → let s' = (release_reservation now h s).1 in
      stock_of t s' + held now t s' ≡ stock_of t s + held now t s
unfolding release_reservation
release_reservation_conserves now t h s =
    ground (arith, total-remove (share now t) h.order_id s.reservations)

-- What a successful reservation has checked and done: it took no more than was in stock, kept the
-- user within the limit, found no live reservation of the order, and stored one.
pub record Reserved (now ttl max : ℕ) (h : Hold) (s s' : Redis) : Type 0 where
  pub in_stock : h.quantity ≤ stock_of h.ticket_type_id s
  pub stock_falls : stock_of h.ticket_type_id s' + h.quantity ≡ stock_of h.ticket_type_id s
  pub within_limit : counter_of h.user_id h.ticket_type_id s' ≤ℤ pos max
  pub counter_grows :
      counter_of h.user_id h.ticket_type_id s'
      ≡ counter_of h.user_id h.ticket_type_id s +ℤ pos h.quantity
  pub was_free : get_reservation now h.order_id s ≡ none
  pub stored : find h.order_id s'.reservations ≡ some (new_reservation now ttl h)

-- Why a script refuses. Only the first check that fails is reported.
abbrev pub ReserveRefused : ℕ → ℕ → Hold → Redis → LuaError → Type 0
ReserveRefused now max h s (out_of_stock n) = (n ≡ stock_of h.ticket_type_id s) × (n < h.quantity)
ReserveRefused now max h s (exceed_user_limit n m) =
    (n ≡ counter_of h.user_id h.ticket_type_id s)
    × (m ≡ max)
    × ¬ (n +ℤ pos h.quantity ≤ℤ pos m)
    × (h.quantity ≤ stock_of h.ticket_type_id s)
ReserveRefused now max h s reservation_already_exists =
    (r : Reservation) × (get_reservation now h.order_id s ≡ some r)
ReserveRefused now max h s e = ⊥

abbrev pub ReserveOutcome : ℕ → ℕ → ℕ → Hold → Redis → LuaReply × Redis → Type 0
ReserveOutcome now ttl max h s (success n m, s') =
    (n ≡ stock_of h.ticket_type_id s')
    × (m ≡ counter_of h.user_id h.ticket_type_id s')
    × Reserved now ttl max h s s'
ReserveOutcome now ttl max h s (failure e, s') = (s' ≡ s) × ReserveRefused now max h s e

-- On every branch of reserve-ticket.lua: a refusal changes nothing and names a check that fails, and
-- a success has the effects of `Reserved` and reports the new stock and the user's new count.
pub reserve_ticket_outcome :
    (now ttl max : ℕ) (h : Hold) (s : Redis)
    → ReserveOutcome now ttl max h s (reserve_ticket now ttl max h s)
unfolding reserve_ticket ◌+ℤ◌ ◌-ℤ◌
reserve_ticket_outcome now ttl max h s =
    ground (arith, find-put h.order_id h.order_id (new_reservation now ttl h) s.reservations)

-- The live reservation that a release asks for: all four of its parameters agree.
abbrev pub Matches : Hold → Reservation → Type 0
Matches h r =
    (r.order_id ≡ h.order_id)
    × (r.user_id ≡ h.user_id)
    × (r.ticket_type_id ≡ h.ticket_type_id)
    × (r.quantity ≡ h.quantity)

abbrev pub NoMatch : Hold → Option Reservation → Type 0
NoMatch h none = Unit
NoMatch h (some r) = ¬ Matches h r

abbrev pub ReleaseOutcome : ℕ → Hold → Redis → LuaReply × Redis → Type 0
ReleaseOutcome now h s (success n m, s') =
    (r : Reservation) × (get_reservation now h.order_id s ≡ some r)
    × Matches h r
    × (n ≡ stock_of h.ticket_type_id s')
    × (n ≡ stock_of h.ticket_type_id s + h.quantity)
    × (m ≡ counter_of h.user_id h.ticket_type_id s')
    × (m ≡ or_reset (counter_of h.user_id h.ticket_type_id s -ℤ pos h.quantity))
    × (s'.reservations ≡ remove h.order_id s.reservations)
ReleaseOutcome now h s (failure e, s') = (s' ≡ s) × NoMatch h (get_reservation now h.order_id s)

-- On every branch of release-reservation.lua: it succeeds exactly where a live reservation of the
-- order has the caller's user, ticket type and quantity. Then the quantity is back in stock, the
-- user's count is less by it (at least 0), and the record is gone. Otherwise nothing changes.
pub release_reservation_outcome :
    (now : ℕ) (h : Hold) (s : Redis) → ReleaseOutcome now h s (release_reservation now h s)
unfolding release_reservation get_reservation ◌+ℤ◌ ◌-ℤ◌
release_reservation_outcome now h s = ground arith

or_reset-add-sub : (c : ℤ) (q : ℕ) → pos 0 ≤ℤ c → or_reset (c +ℤ pos q -ℤ pos q) ≡ c
unfolding ◌+ℤ◌ ◌-ℤ◌
or_reset-add-sub c q h = ground arith

-- After a successful reservation, the release of the same hold before it expires puts the stock
-- of every ticket type and the counter of every user back to what they were, where the user's
-- counter was not negative.
pub release-reserve :
    (now later ttl max : ℕ) (h : Hold) (s : Redis) (t u : ℕ) {n : ℕ} {m : ℤ} {s' : Redis}
    → later < now + ttl * 1000
    → pos 0 ≤ℤ counter_of h.user_id h.ticket_type_id s
    → reserve_ticket now ttl max h s ≡ (success n m, s')
    → let s'' = (release_reservation later h s').1 in
      (stock_of t s'' ≡ stock_of t s) × (counter_of u t s'' ≡ counter_of u t s)
unfolding release_reservation reserve_ticket
release-reserve now later ttl max h s t u fresh nonneg done = ground (
  arith,
  find-put h.order_id h.order_id (new_reservation now ttl h) s.reservations,
  or_reset-add-sub (counter_of h.user_id h.ticket_type_id s) h.quantity nonneg,
)

-- A second release of an order is refused and changes nothing, where each order had one record at
-- most before the first.
pub release_twice :
    (now later : ℕ) (h g : Hold) (s s' : Redis) {n : ℕ} {m : ℤ}
    → Distinct s.reservations
    → release_reservation now h s ≡ (success n m, s')
    → g.order_id ≡ h.order_id
    → release_reservation later g s' ≡ (failure reservation_not_found, s')
unfolding release_reservation
release_twice now later h g s s' d done same =
    ground (arith, find-remove h.order_id g.order_id s.reservations d)

-- Once the hold has run out, a release finds nothing to release: the stock that the reservation
-- took stays taken.
release_expired :
    (now later ttl max : ℕ) (h : Hold) (s : Redis) {n : ℕ} {m : ℤ} {s' : Redis}
    → now + ttl * 1000 ≤ later
    → reserve_ticket now ttl max h s ≡ (success n m, s')
    → (release_reservation later h s' ≡ (failure reservation_not_found, s'))
      × (stock_of h.ticket_type_id s' + h.quantity ≡ stock_of h.ticket_type_id s)
unfolding release_reservation reserve_ticket ◌+ℤ◌ ◌-ℤ◌
release_expired now later ttl max h s over done =
    ground (arith, find-put h.order_id h.order_id (new_reservation now ttl h) s.reservations)
