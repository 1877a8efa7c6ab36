-- ===== src/Store/Updates.antt =====
-- What the decrements of the database leave as it is: the rows of the orders and the tickets.
use se_ticketbox.Prelude.{ℕ, ◌≡◌, refl, ◌∙◌, List, [], ◌∷◌, arith}
use se_ticketbox.Store.{
  Db, OrderItem, decrement_type, decrement_counter, update_types, update_counters,
}

decrement_type-orders : (t q : ℕ) (db : Db) → (decrement_type t q db).0.orders ≡ db.orders
unfolding decrement_type
decrement_type-orders t q db = ground arith

decrement_counter-orders : (u t q : ℕ) (db : Db) → (decrement_counter u t q db).0.orders ≡ db.orders
unfolding decrement_counter
decrement_counter-orders u t q db = ground arith

pub update_types-orders :
    (is : List OrderItem) (db : Db) → (update_types is db).0.orders ≡ db.orders
unfolding update_types
update_types-orders [] db = refl
update_types-orders (i ∷ is) db =
    update_types-orders is _ ∙ decrement_type-orders i.ticket_type_id i.quantity db

pub update_counters-orders :
    (u : ℕ) (is : List OrderItem) (db : Db) → (update_counters u is db).0.orders ≡ db.orders
unfolding update_counters
update_counters-orders u [] db = refl
update_counters-orders u (i ∷ is) db =
    update_counters-orders u is _ ∙ decrement_counter-orders u i.ticket_type_id i.quantity db

decrement_type-tickets : (t q : ℕ) (db : Db) → (decrement_type t q db).0.tickets ≡ db.tickets
unfolding decrement_type
decrement_type-tickets t q db = ground arith

decrement_counter-tickets :
    (u t q : ℕ) (db : Db) → (decrement_counter u t q db).0.tickets ≡ db.tickets
unfolding decrement_counter
decrement_counter-tickets u t q db = ground arith

pub update_types-tickets :
    (is : List OrderItem) (db : Db) → (update_types is db).0.tickets ≡ db.tickets
unfolding update_types
update_types-tickets [] db = refl
update_types-tickets (i ∷ is) db =
    update_types-tickets is _ ∙ decrement_type-tickets i.ticket_type_id i.quantity db

pub update_counters-tickets :
    (u : ℕ) (is : List OrderItem) (db : Db) → (update_counters u is db).0.tickets ≡ db.tickets
unfolding update_counters
update_counters-tickets u [] db = refl
update_counters-tickets u (i ∷ is) db =
    update_counters-tickets u is _ ∙ decrement_counter-tickets u i.ticket_type_id i.quantity db

decrement_type-counters : (t q : ℕ) (db : Db) → (decrement_type t q db).0.counters ≡ db.counters
unfolding decrement_type
decrement_type-counters t q db = ground arith

pub update_types-counters :
    (is : List OrderItem) (db : Db) → (update_types is db).0.counters ≡ db.counters
unfolding update_types
update_types-counters [] db = refl
update_types-counters (i ∷ is) db =
    update_types-counters is _ ∙ decrement_type-counters i.ticket_type_id i.quantity db
