-- ===== src/TicketTypes/Edit.antt =====
-- What creating and updating a ticket type leave in the rows and in Redis
-- (backend/src/modules/ticket-type/ticket-type.service.ts).
use se_ticketbox.Prelude.{
  ℕ, ◌≡◌, Bool, true, false, ◌&&◌, ◌||◌, not, Option, none, some, arith, if◌then◌else◌,
  Option-cases, inl, inr,
}
use se_ticketbox.Prelude.Int.{pos, ◌+ℤ◌, ◌-ℤ◌, pos_part, ltb_ℤ}
use se_ticketbox.Prelude.Table.{find, find-put}
use se_ticketbox.Redis.{seed_stock}
use se_ticketbox.Store.{Role, Concert, TicketType, TicketTypeStatus, Result, ok, err}
use se_ticketbox.Order.Validate.{available}
use se_ticketbox.World.{World}
use se_ticketbox.TicketTypes.{
  Response, UpdateDto, changes_inventory, is_zero, is_admin, is_some, may_manage,
  check_concert_ownership, update_ticket_type, updated_row, mark_sold_out, total_too_small,
}

abbrev pub Managed : ℕ → Role → Option Concert → Type 0
Managed user role none = ⊥
Managed user role (some concert) = may_manage user role concert ≡ true

abbrev is_sold_out : TicketTypeStatus → Bool
is_sold_out TicketTypeStatus.sold_out = true
is_sold_out _ = false

abbrev pub Updated : ℕ → UpdateDto → ℕ → Role → World → Result (Response × World) → Type 0
Updated id dto user role w (err e) = Unit
Updated id dto user role w (ok (r, w')) =
    (find id w'.db.ticket_types ≡ some r.row)
    × Managed user role (find r.row.concert_id w.db.concerts)
    × (w'.redis.stock id
        ≡ (if changes_inventory dto then some (pos_part (available r.row)) else w.redis.stock id))
    × (is_zero (available r.row) && not (is_sold_out r.row.status) ≡ false)
    × ((is_some dto.sold_qty || is_some dto.reserved_qty) && not (is_admin role) ≡ false)
    × (is_some dto.total_qty && ltb_ℤ (available r.row) (pos 0) ≡ false)

marked_available : (row : TicketType) → available (mark_sold_out row) ≡ available row
marked_available row = ground arith

marked_status :
    (row : TicketType)
    → is_zero (available row) && not (is_sold_out (mark_sold_out row).status) ≡ false
marked_status row = ground arith

fits_total :
    (dto : UpdateDto) (row : TicketType)
    → total_too_small dto dto.total_qty row ≡ false
    → is_some dto.total_qty && ltb_ℤ (available (updated_row dto row)) (pos 0) ≡ false
unfolding ◌+ℤ◌ ◌-ℤ◌
fits_total dto row fits = ground arith

-- An update that goes through leaves the answered row, by a user who may manage its concert. Where
-- the total, the sold or the reserved quantity is given, Redis has what is neither sold nor reserved
-- as stock, or 0 where that is negative; else the stock is as it was. A row with nothing left is
-- SOLD_OUT. Only an admin gives sold or reserved quantities, and where a total is given it covers
-- them.
pub update_outcome :
    (id : ℕ) (dto : UpdateDto) (user : ℕ) (role : Role) (w : World)
    → Updated id dto user role w (update_ticket_type id dto user role w)
unfolding update_ticket_type check_concert_ownership seed_stock
update_outcome id dto user role w = elim (Option-cases (find id w.db.ticket_types)) [
  | inl e ↦ rw e tt
  | inr (row, e) ↦
      let new = updated_row dto row in
      ground (
        arith,
        e,
        find-put id id (mark_sold_out new) w.db.ticket_types,
        marked_available new,
        marked_status new,
        fits_total dto row,
      )
]
