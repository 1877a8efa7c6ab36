-- ===== src/Payment/Effects.antt =====
-- What a settlement does to each row of the database, row by row (`handlePaymentSuccess` and
-- `handlePaymentFailed` of backend/src/modules/payment/payment.service.ts).
use se_ticketbox.Prelude.{
  ℕ, ◌+◌, ◌≡◌, refl, ap, ◌∙◌, Option, none, some, List, [], ◌∷◌, arith, ◌==◌, if◌then◌else◌, inl,
  inr, Option-cases, Bool-cases, ==_iff,
}
use se_ticketbox.Prelude.Int.{ℤ, pos, ◌-ℤ◌, ltb_ℤ}
use se_ticketbox.Prelude.Table.{find, map_option, put, find-put, find-adjust}
use se_ticketbox.Store.{set_counter, Db, OrderItem, TicketType, Counter, Result, ok, err}
use se_ticketbox.Payment.Settle.{
  sell_items, pay_counters, give_back_items, give_back_type, give_back_counter, paid_counter,
}

-- The row of a ticket type after the sale of an order's items, and the user's counter.
unfoldable pub sold_row : ℕ → List OrderItem → TicketType → TicketType
sold_row t [] row = row
sold_row t (i ∷ is) row = sold_row t is (
    if i.ticket_type_id == t
    then record row {
      sold_qty = row.sold_qty + i.quantity;
      reserved_qty = row.reserved_qty -ℤ pos i.quantity;
    }
    else row)

abbrev pub paid_one : ℕ → Option Counter → Counter
paid_one q none = record { paid_qty = q; reserved_qty = pos 0 }
paid_one q (some c) = record { paid_qty = c.paid_qty + q; reserved_qty = c.reserved_qty -ℤ pos q }

unfoldable pub paid_counters : ℕ → List OrderItem → Option Counter → Option Counter
paid_counters t [] c = c
paid_counters t (i ∷ is) c =
    paid_counters t is (if i.ticket_type_id == t then some (paid_one i.quantity c) else c)

-- A reserved quantity after items are given back, each where it is covered.
unfoldable pub given_back : ℕ → List OrderItem → ℤ → ℤ
given_back t [] r = r
given_back t (i ∷ is) r = given_back t is (
    if i.ticket_type_id == t
    then if ltb_ℤ r (pos i.quantity) then r else r -ℤ pos i.quantity
    else r)

abbrev pub row_given_back : ℕ → List OrderItem → TicketType → TicketType
row_given_back t is row = record row { reserved_qty = given_back t is row.reserved_qty }

abbrev pub counter_given_back : ℕ → List OrderItem → Counter → Counter
counter_given_back t is c = record c { reserved_qty = given_back t is c.reserved_qty }

abbrev pub TypesSold : List OrderItem → Db → Result Db → Type 0
TypesSold is db (err e) = Unit
TypesSold is db (ok db') =
    (t : ℕ) → find t db'.ticket_types ≡ map_option (sold_row t is) (find t db.ticket_types)

map_option_id : {A : Type 0} (x : Option A) → map_option (λ a. a) x ≡ x
map_option_id none = refl
map_option_id (some a) = refl

abbrev pub sell_row : OrderItem → TicketType → TicketType
sell_row i row = record row {
  sold_qty = row.sold_qty + i.quantity;
  reserved_qty = row.reserved_qty -ℤ pos i.quantity;
}

abbrev pub sell_one : OrderItem → TicketType → Db → Db
sell_one i row db = record db {
  ticket_types = put i.ticket_type_id (sell_row i row) db.ticket_types;
}

sell_one-TypesSold :
    (i : OrderItem) (is : List OrderItem) (row : TicketType) (db : Db) (r : Result Db)
    → find i.ticket_type_id db.ticket_types ≡ some row
    → TypesSold is (sell_one i row db) r
    → TypesSold (i ∷ is) db r
unfolding sold_row
sell_one-TypesSold i is row db (err e) here h = tt
sell_one-TypesSold i is row db (ok db') here h = λ t.
    let put_at = find-put i.ticket_type_id t (sell_row i row) db.ticket_types in
    elim (Bool-cases (i.ticket_type_id == t)) [
      | inr other ↦ ground (arith, h t, put_at, other)
      | inl same ↦
          let at = ap (λ k. find k db.ticket_types) ((==_iff i.ticket_type_id t).0 same) in
          ground (arith, h t, put_at, same, at, here)
    ]

pub sell_items-TypesSold : (is : List OrderItem) (db : Db) → TypesSold is db (sell_items is db)
unfolding sell_items sold_row
sell_items-TypesSold [] db = λ t. ground (arith, map_option_id (find t db.ticket_types))
sell_items-TypesSold (i ∷ is) db = elim (Option-cases (find i.ticket_type_id db.ticket_types)) [
  | inl e ↦ rw (e, sell_items) tt
  | inr (row, e) ↦
      let sold = sell_items is (sell_one i row db) in
      rw (e, sell_items)
        (sell_one-TypesSold i is row db sold e (sell_items-TypesSold is (sell_one i row db)))
]

pub pay_counters-paid_counters :
    (u : ℕ) (is : List OrderItem) (db : Db) (v t : ℕ)
    → (pay_counters u is db).counters v t
      ≡ (if u == v then paid_counters t is (db.counters v t) else db.counters v t)
unfolding pay_counters paid_counters
pay_counters-paid_counters u [] db v t = ground arith
pay_counters-paid_counters u (i ∷ is) db v t =
    let t' = i.ticket_type_id in
    let paid = paid_counter i.quantity (db.counters u t') in
    let rest = pay_counters-paid_counters u is (set_counter u t' paid db) v t in
    elim (Bool-cases (u == v)) [
      | inr n ↦ ground (arith, rest, n)
      | inl mine ↦ elim (Bool-cases (t' == t)) [
        | inr n ↦ ground (arith, rest, n, mine)
        | inl same ↦
            let at = ap (db.counters u) ((==_iff t' t).0 same) in
            let at' = ap (λ x. db.counters x t) ((==_iff u v).0 mine) in
            ground (arith, rest, mine, same, at, at')
      ]
    ]

give_back_counter-types :
    (u t q : ℕ) (db : Db) → (give_back_counter u t q db).ticket_types ≡ db.ticket_types
unfolding give_back_counter
give_back_counter-types u t q db = ground arith

abbrev give_row : ℕ → TicketType → TicketType
give_row q row =
    if ltb_ℤ row.reserved_qty (pos q)
    then row
    else record row { reserved_qty = row.reserved_qty -ℤ pos q }

give_back_type-find :
    (k q t : ℕ) (db : Db)
    → find t (give_back_type k q db).ticket_types ≡ (
        if k == t then map_option (give_row q) (find t db.ticket_types) else find t db.ticket_types)
unfolding give_back_type
give_back_type-find k q t db = find-adjust k t (give_row q) db.ticket_types

pub give_back_items-types :
    (u : ℕ) (is : List OrderItem) (db : Db) (t : ℕ)
    → find t (give_back_items u is db).ticket_types
      ≡ map_option (row_given_back t is) (find t db.ticket_types)
unfolding give_back_items given_back give_back_type give_back_counter
give_back_items-types u [] db t = elim (Option-cases (find t db.ticket_types)) [
  | inl e ↦ ground (arith, e)
  | inr (row, e) ↦ ground (arith, e)
]
give_back_items-types u (i ∷ is) db t =
    let k = i.ticket_type_id in
    let q = i.quantity in
    let given = give_back_type k q db in
    let rest = give_back_items-types u is (give_back_counter u k q given) t in
    let kept = ap (find t) (give_back_counter-types u k q given) in
    elim (Option-cases (find t db.ticket_types)) [
      | inl e ↦ ground (arith, rest, kept, give_back_type-find k q t db, e)
      | inr (row, e) ↦ ground (arith, rest, kept, give_back_type-find k q t db, e)
    ]

abbrev give_counter : ℕ → Counter → Counter
give_counter q c =
    if ltb_ℤ c.reserved_qty (pos q) then c else record c { reserved_qty = c.reserved_qty -ℤ pos q }

give_back_counter-find :
    (u k q v t : ℕ) (db : Db)
    → (give_back_counter u k q db).counters v t ≡ (
        if u == v
        then if k == t then map_option (give_counter q) (db.counters v t) else db.counters v t
        else db.counters v t)
unfolding give_back_counter
give_back_counter-find u k q v t db = elim (Bool-cases (u == v)) [
  | inr n ↦ ground (arith, n)
  | inl mine ↦ elim (Bool-cases (k == t)) [
    | inr n ↦ ground (arith, n, mine)
    | inl same ↦
        let at : db.counters u k ≡ db.counters v t =
          ap (λ x. db.counters x k) ((==_iff u v).0 mine)
          ∙ ap (db.counters v) ((==_iff k t).0 same) in
        elim (Option-cases (db.counters u k)) [
          | inl e ↦ ground (arith, mine, same, at, e)
          | inr (c, e) ↦ ground (arith, mine, same, at, e)
        ]
  ]
]

pub give_back_items-counters :
    (u : ℕ) (is : List OrderItem) (db : Db) (v t : ℕ)
    → (give_back_items u is db).counters v t
      ≡ (if u == v then map_option (counter_given_back t is) (db.counters v t) else db.counters v t)
unfolding give_back_items given_back give_back_type give_back_counter
give_back_items-counters u [] db v t = elim (Option-cases (db.counters v t)) [
  | inl e ↦ ground (arith, e)
  | inr (row, e) ↦ ground (arith, e)
]
give_back_items-counters u (i ∷ is) db v t =
    let k = i.ticket_type_id in
    let q = i.quantity in
    let given = give_back_type k q db in
    let rest = give_back_items-counters u is (give_back_counter u k q given) v t in
    let here = give_back_counter-find u k q v t given in
    elim (Option-cases (db.counters v t)) [
      | inl e ↦ ground (arith, rest, here, e)
      | inr (c, e) ↦ ground (arith, rest, here, e)
    ]
