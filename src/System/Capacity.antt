-- ===== src/System/Capacity.antt =====
-- The capacity of a ticket type in the database, under every handler that writes its quantities
-- (OrderService, PaymentService, PaymentCronService and TicketIssueProcessor).
use se_ticketbox.Prelude.{
  ℕ, zero, suc, ◌+◌, ◌≡◌, refl, sym, subst, ◌∙◌, Bool, false, Option, none, some, List, [], ◌∷◌,
  arith, ◌==◌, if◌then◌else◌, Option-cases, Bool-cases, ==_iff, inl, inr,
}
use se_ticketbox.Prelude.Int.{ℤ, pos, ◌+ℤ◌, ◌-ℤ◌, ◌≤ℤ◌, ltb_ℤ, int_laws}
use se_ticketbox.Prelude.Table.{Table, map_option, find, put, adjust, find-put, find-adjust}
use se_ticketbox.Store.{
  Db, Order, OrderItem, TicketType, Result, ok, err, decrement_type, decrement_counter,
  update_types, update_counters,
}
use se_ticketbox.Payment.Settle.{
  give_back_type, give_back_counter, give_back_items, sell_items, pay_counters,
}
use se_ticketbox.Order.Validate.{Meta}
use se_ticketbox.Order.Create.{sync_items}
use se_ticketbox.Ticket.Token.{Crypto}
use se_ticketbox.Ticket.Issue.{issue_tickets, issue_items}

-- No more tickets are sold and reserved than there are.
abbrev pub RowWithin : Option TicketType → Type 0
RowWithin none = Unit
RowWithin (some row) = pos row.sold_qty +ℤ row.reserved_qty ≤ℤ pos row.total_qty

abbrev pub Within : ℕ → Db → Type 0
Within t db = RowWithin (find t db.ticket_types)

abbrev pub OkWithin : ℕ → Result Db → Type 0
OkWithin t (ok db) = Within t db
OkWithin t (err e) = Unit

-- A write of a row keeps the bound of every type, if it keeps the bound of its own row.
put-Within :
    (t k : ℕ) (row row' : TicketType) (m : Table TicketType)
    → find k m ≡ some row
    → (RowWithin (some row) → RowWithin (some row'))
    → RowWithin (find t m)
    → RowWithin (find t (put k row' m))
put-Within t k row row' m e keep h = elim (Bool-cases (k == t)) [
  | inl same ↦
      let eq : k ≡ t = (==_iff k t).0 same in
      rw (find-put k t row' m)
        (rw same (keep (subst RowWithin e (subst (λ x. RowWithin (find x m)) (sym eq) h))))
  | inr other ↦ rw (find-put k t row' m) (rw other h)
]

adjust-Within :
    (t k : ℕ) (f : TicketType → TicketType) (m : Table TicketType)
    → ((row : TicketType) → RowWithin (some row) → RowWithin (some (f row)))
    → RowWithin (find t m)
    → RowWithin (find t (adjust k f m))
adjust-Within t k f m keep h = elim (Bool-cases (k == t)) [
  | inl same ↦ rw (find-adjust k t f m) (rw same (mapped (find t m) h))
  | inr other ↦ rw (find-adjust k t f m) (rw other h)
]
  where
    mapped : (o : Option TicketType) → RowWithin o → RowWithin (map_option f o)
    mapped none h = tt
    mapped (some row) h = keep row h

less : (s n q : ℕ) (r : ℤ) → pos s +ℤ r ≤ℤ pos n → pos s +ℤ (r -ℤ pos q) ≤ℤ pos n
less s n q r h = omega int_laws

moved : (s n q : ℕ) (r : ℤ) → pos s +ℤ r ≤ℤ pos n → pos (s + q) +ℤ (r -ℤ pos q) ≤ℤ pos n
moved s n q r h = omega int_laws

fits_of :
    (s n q : ℕ) (r : ℤ)
    → ltb_ℤ (pos n) (r +ℤ pos s +ℤ pos q) ≡ false
    → pos s +ℤ (r +ℤ pos q) ≤ℤ pos n
unfolding ◌+ℤ◌
fits_of s n q r h = ground arith

decrement_type-Within : (t k q : ℕ) (db : Db) → Within t db → Within t (decrement_type k q db).0
unfolding decrement_type
decrement_type-Within t k q db h = elim (Option-cases (find k db.ticket_types)) [
  | inl e ↦ rw (e, decrement_type) h
  | inr (row, e) ↦
      rw (e, decrement_type)
        (put-Within t k row _ db.ticket_types e (less row.sold_qty row.total_qty q row.reserved_qty)
          h)
]

decrement_counter-types :
    (u t q : ℕ) (db : Db) → (decrement_counter u t q db).0.ticket_types ≡ db.ticket_types
unfolding decrement_counter
decrement_counter-types u t q db = ground arith

pub update_types-Within :
    (t : ℕ) (is : List OrderItem) (db : Db) → Within t db → Within t (update_types is db).0
unfolding update_types
update_types-Within t [] db h = h
update_types-Within t (i ∷ is) db h =
    update_types-Within t is _ (decrement_type-Within t i.ticket_type_id i.quantity db h)

pub update_counters-types :
    (u : ℕ) (is : List OrderItem) (db : Db)
    → (update_counters u is db).0.ticket_types ≡ db.ticket_types
unfolding update_counters
update_counters-types u [] db = refl
update_counters-types u (i ∷ is) db =
    update_counters-types u is _ ∙ decrement_counter-types u i.ticket_type_id i.quantity db

give_back_type-Within : (t k q : ℕ) (db : Db) → Within t db → Within t (give_back_type k q db)
unfolding give_back_type
give_back_type-Within t k q db h = adjust-Within t k _ db.ticket_types (λ row b. keep row b) h
  where
    keep :
        (row : TicketType)
        → RowWithin (some row)
        → RowWithin (
            some (
              if ltb_ℤ row.reserved_qty (pos q)
              then row
              else record row { reserved_qty = row.reserved_qty -ℤ pos q }))
    keep row b = ground (arith, less row.sold_qty row.total_qty q row.reserved_qty b)

give_back_counter-types :
    (u t q : ℕ) (db : Db) → (give_back_counter u t q db).ticket_types ≡ db.ticket_types
unfolding give_back_counter
give_back_counter-types u t q db = ground arith

pub give_back_items-Within :
    (t u : ℕ) (is : List OrderItem) (db : Db) → Within t db → Within t (give_back_items u is db)
unfolding give_back_items
give_back_items-Within t u [] db h = h
give_back_items-Within t u (i ∷ is) db h = give_back_items-Within t u is _ (
    rw
      (give_back_counter-types u i.ticket_type_id i.quantity
        (give_back_type i.ticket_type_id i.quantity db))
      (give_back_type-Within t i.ticket_type_id i.quantity db h))

pub sell_items-Within :
    (t : ℕ) (is : List OrderItem) (db : Db) → Within t db → OkWithin t (sell_items is db)
unfolding sell_items
sell_items-Within t [] db h = h
sell_items-Within t (i ∷ is) db h = elim (Option-cases (find i.ticket_type_id db.ticket_types)) [
  | inl e ↦ rw e tt
  | inr (row, e) ↦ rw e (
      sell_items-Within t is _ (
        put-Within t i.ticket_type_id row _ db.ticket_types e
          (moved row.sold_qty row.total_qty i.quantity row.reserved_qty) h))
]

pub pay_counters-types :
    (u : ℕ) (is : List OrderItem) (db : Db) → (pay_counters u is db).ticket_types ≡ db.ticket_types
unfolding pay_counters
pay_counters-types u [] db = refl
pay_counters-types u (i ∷ is) db = pay_counters-types u is _

pub sync_items-Within :
    (t u : ℕ) (ms : List Meta) (db : Db) → Within t db → OkWithin t (sync_items u ms db)
unfolding sync_items
sync_items-Within t u [] db h = h
sync_items-Within t u (m ∷ ms) db h = elim (Option-cases (find m.ticket_type_id db.ticket_types)) [
  | inl e ↦ rw (e, sync_items) tt
  | inr (row, e) ↦ elim (Bool-cases (full row)) [
    | inl no_room ↦ rw (e, sync_items) (rw no_room tt)
    | inr room ↦
        rw (e, sync_items)
          (rw room (
            sync_items-Within t u ms _
              (put-Within t m.ticket_type_id row _ db.ticket_types e (λ _. fits row room) h)))
  ]
]
  where
    full : TicketType → Bool
    full row = ltb_ℤ (pos row.total_qty) (row.reserved_qty +ℤ pos row.sold_qty +ℤ pos m.quantity)

    fits :
        (row : TicketType)
        → full row ≡ false
        → pos row.sold_qty +ℤ (row.reserved_qty +ℤ pos m.quantity) ≤ℤ pos row.total_qty
    fits row room = fits_of row.sold_qty row.total_qty m.quantity row.reserved_qty room

issue_tickets-types :
    (c : Crypto) (n o : ℕ) (order : Order) (item : OrderItem) (k : ℕ) (db : Db)
    → (issue_tickets c n o order item k db).ticket_types ≡ db.ticket_types
unfolding issue_tickets
issue_tickets-types c n o order item zero db = refl
issue_tickets-types c n o order item (suc k) db = issue_tickets-types c (suc n) o order item k _

pub issue_items-Within :
    (t : ℕ) (c : Crypto) (n o : ℕ) (order : Order) (is : List OrderItem) (db : Db)
    → Within t db
    → OkWithin t (issue_items c n o order is db)
unfolding issue_items
issue_items-Within t c n o order [] db h = h
issue_items-Within t c n o order (i ∷ is) db h =
    elim (Option-cases (find i.ticket_type_id db.ticket_types)) [
      | inl e ↦ rw (e, issue_items) tt
      | inr (row, e) ↦
          rw (e, issue_items)
            (issue_items-Within t c (n + i.quantity) o order is _ (
              rw (issue_tickets-types c n o order i i.quantity _) (
                put-Within t i.ticket_type_id row _ db.ticket_types e
                  (moved row.sold_qty row.total_qty i.quantity row.reserved_qty) h)))
    ]
