-- ===== src/Payment/Presence.antt =====
-- Whether the rows that a settlement and a cancellation need are there
-- (backend/src/modules/payment/payment.service.ts and backend/src/modules/order/order.service.ts).
use se_ticketbox.Prelude.{
  ℕ, ◌≡◌, refl, ap, Bool, true, false, ◌&&◌, Option, none, some, List, [], ◌∷◌, arith, ◌==◌, inl,
  inr, Option-cases, Bool-cases, ==_iff,
}
use se_ticketbox.Prelude.Table.{Table, find, put, find-put}
use se_ticketbox.Store.{
  Db, OrderItem, TicketType, Counter, Result, ok, err, set_counter, update_types, update_counters,
  decrement_type, decrement_counter,
}
use se_ticketbox.Payment.Settle.{sell_items, pay_counters, paid_counter}
use se_ticketbox.Payment.Effects.{
  sell_row, sell_one, paid_one, paid_counters, pay_counters-paid_counters,
}
use se_ticketbox.Prelude.Int.{pos, ◌-ℤ◌}

abbrev pub is_there {ℓ} : {A : Type ℓ} → Option A → Bool
is_there none = false
is_there (some a) = true

-- The ticket types of the items are in the table.
unfoldable pub types_there : List OrderItem → Table TicketType → Bool
types_there [] m = true
types_there (i ∷ is) m = is_there (find i.ticket_type_id m) && types_there is m

pub types_there-same :
    (is : List OrderItem) (m m' : Table TicketType)
    → ((t : ℕ) → is_there (find t m') ≡ is_there (find t m))
    → types_there is m' ≡ types_there is m
unfolding types_there
types_there-same [] m m' h = refl
types_there-same (i ∷ is) m m' h = ground (arith, h i.ticket_type_id, types_there-same is m m' h)

is_there-put :
    (k : ℕ) (v row : TicketType) (m : Table TicketType)
    → find k m ≡ some row
    → (t : ℕ) → is_there (find t (put k v m)) ≡ is_there (find t m)
is_there-put k v row m here t = elim (Bool-cases (k == t)) [
  | inr n ↦ ground (arith, find-put k t v m, n)
  | inl same ↦
      let at = ap (λ j. find j m) ((==_iff k t).0 same) in
      ground (arith, find-put k t v m, same, at, here)
]

abbrev pub NeedsTypes : List OrderItem → Db → Result Db → Type 0
NeedsTypes is db (ok db') = types_there is db.ticket_types ≡ true
NeedsTypes is db (err e) = types_there is db.ticket_types ≡ false

needs_one :
    (i : OrderItem) (is : List OrderItem) (row : TicketType) (db db1 : Db) (r : Result Db)
    → find i.ticket_type_id db.ticket_types ≡ some row
    → types_there is db1.ticket_types ≡ types_there is db.ticket_types
    → NeedsTypes is db1 r
    → NeedsTypes (i ∷ is) db r
unfolding types_there
needs_one i is row db db1 (ok x) here same h = ground (arith, here, same, h)
needs_one i is row db db1 (err e) here same h = ground (arith, here, same, h)

-- A sale goes through exactly where all its ticket types are there.
pub sell_items-NeedsTypes : (is : List OrderItem) (db : Db) → NeedsTypes is db (sell_items is db)
unfolding sell_items types_there
sell_items-NeedsTypes [] db = refl
sell_items-NeedsTypes (i ∷ is) db = elim (Option-cases (find i.ticket_type_id db.ticket_types)) [
  | inl e ↦ rw (e, sell_items) (ground (arith, e))
  | inr (row, e) ↦
      rw (e, sell_items)
        (needs_one i is row db (sell_one i row db) (sell_items is (sell_one i row db)) e
          (types_there-same is db.ticket_types (sell_one i row db).ticket_types
            (is_there-put i.ticket_type_id (sell_row i row) row db.ticket_types e))
          (sell_items-NeedsTypes is (sell_one i row db)))
]

decrement_type-there :
    (k q : ℕ) (db : Db)
    → ((decrement_type k q db).1 ≡ is_there (find k db.ticket_types))
      × ((t : ℕ)
          → is_there (find t (decrement_type k q db).0.ticket_types)
            ≡ is_there (find t db.ticket_types))
unfolding decrement_type
decrement_type-there k q db = elim (Option-cases (find k db.ticket_types)) [
  | inl e ↦ (ground (arith, e), λ t. ground (arith, e))
  | inr (row, e) ↦
      let cut : TicketType = record row { reserved_qty = row.reserved_qty -ℤ pos q } in
      (ground (arith, e), λ t. ground (arith, e, is_there-put k cut row db.ticket_types e t))
]

-- A cancellation's decrements go through exactly where the rows are there.
pub update_types-types_there :
    (is : List OrderItem) (db : Db) → (update_types is db).1 ≡ types_there is db.ticket_types
unfolding update_types types_there
update_types-types_there [] db = refl
update_types-types_there (i ∷ is) db =
    let after = (decrement_type i.ticket_type_id i.quantity db).0 in
    let (done, there) = decrement_type-there i.ticket_type_id i.quantity db in
    ground (
      arith,
      done,
      update_types-types_there is after,
      types_there-same is db.ticket_types after.ticket_types there,
    )

-- The user's counters of the items' ticket types are there.
unfoldable pub counters_there : ℕ → List OrderItem → (ℕ → ℕ → Option Counter) → Bool
counters_there u [] m = true
counters_there u (i ∷ is) m = is_there (m u i.ticket_type_id) && counters_there u is m

counters_there-same :
    (u : ℕ) (is : List OrderItem) (m m' : ℕ → ℕ → Option Counter)
    → ((t : ℕ) → is_there (m' u t) ≡ is_there (m u t))
    → counters_there u is m' ≡ counters_there u is m
unfolding counters_there
counters_there-same u [] m m' h = refl
counters_there-same u (i ∷ is) m m' h =
    ground (arith, h i.ticket_type_id, counters_there-same u is m m' h)

decrement_counter-there :
    (u k q : ℕ) (db : Db)
    → ((decrement_counter u k q db).1 ≡ is_there (db.counters u k))
      × ((t : ℕ)
          → is_there ((decrement_counter u k q db).0.counters u t) ≡ is_there (db.counters u t))
unfolding decrement_counter
decrement_counter-there u k q db = elim (Option-cases (db.counters u k)) [
  | inl e ↦ (ground (arith, e), λ t. ground (arith, e))
  | inr (c, e) ↦ (
    ground (arith, e),
    λ t. elim (Bool-cases (k == t)) [
      | inr n ↦ ground (arith, e, n)
      | inl same ↦ ground (arith, e, same, ap (db.counters u) ((==_iff k t).0 same))
    ],
  )
]

pub update_counters-counters_there :
    (u : ℕ) (is : List OrderItem) (db : Db)
    → (update_counters u is db).1 ≡ counters_there u is db.counters
unfolding update_counters counters_there
update_counters-counters_there u [] db = refl
update_counters-counters_there u (i ∷ is) db =
    let after = (decrement_counter u i.ticket_type_id i.quantity db).0 in
    let (done, there) = decrement_counter-there u i.ticket_type_id i.quantity db in
    ground (
      arith,
      done,
      update_counters-counters_there u is after,
      counters_there-same u is db.counters after.counters there,
    )

paid_counters-is_there :
    (t : ℕ) (is : List OrderItem) (c : Counter) → is_there (paid_counters t is (some c)) ≡ true
unfolding paid_counters
paid_counters-is_there t [] c = refl
paid_counters-is_there t (i ∷ is) c = elim (Bool-cases (i.ticket_type_id == t)) [
  | inr n ↦ ground (arith, n, paid_counters-is_there t is c)
  | inl same ↦ ground (arith, same, paid_counters-is_there t is (paid_one i.quantity (some c)))
]

-- A sale leaves a counter for each of its ticket types.
pub counters_there-pay_counters :
    (u : ℕ) (is : List OrderItem) (db : Db)
    → counters_there u is (pay_counters u is db).counters ≡ true
unfolding pay_counters counters_there
counters_there-pay_counters u [] db = refl
counters_there-pay_counters u (i ∷ is) db =
    let t = i.ticket_type_id in
    let paid = paid_counter i.quantity (db.counters u t) in
    let after = set_counter u t paid db in
    ground (
      arith,
      counters_there-pay_counters u is after,
      pay_counters-paid_counters u is after u t,
      paid_counters-is_there t is paid,
    )
