-- ===== src/TicketTypes/Names.antt =====
-- The names of ticket types under the edits of
-- backend/src/modules/ticket-type/ticket-type.service.ts.
use se_ticketbox.Prelude.{
  ℕ, ◌≡◌, refl, ◌+◌, ◌≤◌, Bool, false, ◌&&◌, Option, Option-cases, inl, inr, none, some, [], ◌∷◌,
  ◌++◌, arith, ◌==◌, if◌then◌else◌,
}
use se_ticketbox.Prelude.Table.{Table, find, put, remove}
use se_ticketbox.Prelude.Text.{Text, text_eq, text_eq_refl, text_eq-eq}
use se_ticketbox.Store.{Role, TicketType, Result, ok, err}
use se_ticketbox.World.{World}
use se_ticketbox.TicketTypes.{
  CreateDto, UpdateDto, type_name_taken, name_clash, create_ticket_type, update_ticket_type,
  remove_ticket_type, new_ticket_type, updated_row, mark_sold_out,
}

-- How many rows of a concert have a name.
unfoldable pub named : ℕ → Text → Table TicketType → ℕ
named concert_id name [] = 0
named concert_id name ((id, row) ∷ m) =
    (if row.concert_id == concert_id && text_eq row.name name then 1 else 0)
    + named concert_id name m

not_taken-named :
    (c : ℕ) (name : Text) (m : Table TicketType)
    → type_name_taken c name m ≡ false
    → named c name m ≡ 0
unfolding type_name_taken named
not_taken-named c name [] h = refl
not_taken-named c name ((id, row) ∷ m) h = ground (arith, not_taken-named c name m)

-- No concert has two ticket types of one name.
abbrev pub UniqueNames : Table TicketType → Type 0
UniqueNames m = (c : ℕ) (name : Text) → named c name m ≤ 1

named-append :
    (c : ℕ) (name : Text) (m : Table TicketType) (id : ℕ) (row : TicketType)
    → named c name (m ++ (id, row) ∷ []) ≡ named c name m + named c name ((id, row) ∷ [])
unfolding named
named-append c name [] id row = omega arith
named-append c name (r ∷ m) id row = omega (arith, named-append c name m id row)

-- The row's own share of a name.
abbrev share : ℕ → Text → TicketType → ℕ
share c name row = if row.concert_id == c && text_eq row.name name then 1 else 0

abbrev share_of : ℕ → Text → Option TicketType → ℕ
share_of c name none = 0
share_of c name (some row) = share c name row

named-put :
    (c : ℕ) (name : Text) (id : ℕ) (row : TicketType) (m : Table TicketType)
    → named c name (put id row m) + share_of c name (find id m) ≡ named c name m + share c name row
unfolding named put find
named-put c name id row [] = omega arith
named-put c name id row ((j, other) ∷ m) = ground (arith, named-put c name id row m)

named-remove :
    (c : ℕ) (name : Text) (id : ℕ) (m : Table TicketType)
    → named c name (remove id m) ≤ named c name m
unfolding named remove
named-remove c name id [] = omega arith
named-remove c name id ((j, other) ∷ m) = ground (arith, named-remove c name id m)

abbrev pub rows_after {ℓ} : {A : Type ℓ} → World → Result (A × World) → Table TicketType
rows_after w (ok (a, w')) = w'.db.ticket_types
rows_after w (err e) = w.db.ticket_types

create-named :
    (id concert_id : ℕ) (dto : CreateDto) (user : ℕ) (role : Role) (w : World) (c : ℕ) (name : Text)
    → named c name w.db.ticket_types ≤ 1
    → named c name (rows_after w (create_ticket_type id concert_id dto user role w)) ≤ 1
unfolding create_ticket_type named
create-named id concert_id dto user role w c name h = ground (
  arith,
  text_eq-eq dto.name name,
  not_taken-named concert_id dto.name w.db.ticket_types,
  named-append c name w.db.ticket_types id (new_ticket_type concert_id dto),
)

-- A row whose name is another one gets a name that no row of the concert had.
updated-named :
    (id : ℕ) (dto : UpdateDto) (row : TicketType) (m : Table TicketType) (c : ℕ) (name : Text)
    → find id m ≡ some row
    → name_clash dto.name row m ≡ false
    → named c name m ≤ 1
    → named c name (put id (mark_sold_out (updated_row dto row)) m) ≤ 1
unfolding name_clash
updated-named id dto row m c name here clash h =
    let changed = named-put c name id (mark_sold_out (updated_row dto row)) m in
    elim (dto.name)
        as (λ n. n ≡ dto.name → named c name (put id (mark_sold_out (updated_row dto row)) m) ≤ 1) [
          | none ↦ λ e. ground (arith, changed, here)
          | some new ↦ λ e. ground (
            arith,
            changed,
            here,
            text_eq-eq new name,
            text_eq-eq new row.name,
            text_eq_refl name,
            not_taken-named row.concert_id new m,
          )
        ]
      refl

update-named :
    (id : ℕ) (dto : UpdateDto) (user : ℕ) (role : Role) (w : World) (c : ℕ) (name : Text)
    → named c name w.db.ticket_types ≤ 1
    → named c name (rows_after w (update_ticket_type id dto user role w)) ≤ 1
unfolding update_ticket_type
update-named id dto user role w c name h = elim (Option-cases (find id w.db.ticket_types)) [
  | inl e ↦ ground (arith, e)
  | inr (row, e) ↦ ground (arith, e, h, updated-named id dto row w.db.ticket_types c name e)
]

abbrev pub rows_left : World → Result World → Table TicketType
rows_left w (ok w') = w'.db.ticket_types
rows_left w (err e) = w.db.ticket_types

remove-named :
    (deletes : Bool) (id user : ℕ) (role : Role) (w : World) (c : ℕ) (name : Text)
    → named c name w.db.ticket_types ≤ 1
    → named c name (rows_left w (remove_ticket_type deletes id user role w)) ≤ 1
unfolding remove_ticket_type
remove-named deletes id user role w c name h =
    ground (arith, h, named-remove c name id w.db.ticket_types)

-- If no concert has two ticket types of one name, this still holds after a request that creates,
-- updates or removes a ticket type, whether it goes through or not.
pub edits-UniqueNames :
    (new_id concert_id id : ℕ) (create : CreateDto) (update : UpdateDto) (deletes : Bool) (user : ℕ)
    (role : Role) (w : World)
    → UniqueNames w.db.ticket_types
    → UniqueNames (rows_after w (create_ticket_type new_id concert_id create user role w))
      × UniqueNames (rows_after w (update_ticket_type id update user role w))
      × UniqueNames (rows_left w (remove_ticket_type deletes id user role w))
edits-UniqueNames new_id concert_id id create update deletes user role w h = (
  λ c name. create-named new_id concert_id create user role w c name (h c name),
  λ c name. update-named id update user role w c name (h c name),
  λ c name. remove-named deletes id user role w c name (h c name),
)
