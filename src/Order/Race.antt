-- ===== src/Order/Race.antt =====
-- What a cancellation does to an order that is paid while it is cancelled
-- (backend/src/modules/order/order.service.ts with backend/src/modules/payment/payment.service.ts).
use se_ticketbox.Prelude.{
  ℕ, ◌≡◌, refl, ap, subst, ◌∙◌, true, Option, some, none, List, [], ◌∷◌, ◌++◌, arith, ◌==◌,
  if◌then◌else◌, Option-cases, Bool-cases, inl, inr, ==_iff,
}
use se_ticketbox.Prelude.Int.{pos, ◌-ℤ◌}
use se_ticketbox.Prelude.Table.{find, map_option, find-put, find-adjust}
use se_ticketbox.Store.{
  Db, Order, OrderItem, OrderStatus, ReleaseReason, TicketType, ok, update_types, update_counters,
  decrement_type,
}
use se_ticketbox.Store.Updates.{
  update_types-orders, update_counters-orders, update_types-tickets, update_counters-tickets,
  update_types-counters,
}
use se_ticketbox.World.{World}
use se_ticketbox.Gate.Load.{find_least_loaded_gate}
use se_ticketbox.Ticket.Token.{Crypto, gate_name, order_tickets}
use se_ticketbox.Payment.Settle.{Calls, Webhook}
use se_ticketbox.Payment.Webhook.{Signing, paid, handle_mock_webhook}
use se_ticketbox.Payment.Effects.{sold_row}
use se_ticketbox.Payment.Presence.{
  counters_there, types_there-same, is_there, update_types-types_there,
  update_counters-counters_there,
}
use se_ticketbox.Payment.Answers.{PaidEffects, WebhookOutcome}
use se_ticketbox.Payment.Outcome.{webhook_outcome}
use se_ticketbox.Order.Close.{check_cancel, cancel_writes, cancel_row}
use se_ticketbox.System.Capacity.{update_counters-types}

-- The row of a ticket type after an order's items are taken from what is reserved.
unfoldable pub cut_row : ℕ → List OrderItem → TicketType → TicketType
cut_row t [] row = row
cut_row t (i ∷ is) row = cut_row t is (
    if i.ticket_type_id == t
    then record row { reserved_qty = row.reserved_qty -ℤ pos i.quantity }
    else row)

abbrev cut_one : ℕ → TicketType → TicketType
cut_one q row = record row { reserved_qty = row.reserved_qty -ℤ pos q }

decrement_type-find :
    (k q t : ℕ) (db : Db)
    → find t (decrement_type k q db).0.ticket_types
      ≡ (if k == t then map_option (cut_one q) (find t db.ticket_types) else find t db.ticket_types)
unfolding decrement_type
decrement_type-find k q t db = elim (Bool-cases (k == t)) [
  | inl same ↦
      let at = ap (λ j. find j db.ticket_types) ((==_iff k t).0 same) in
      elim (Option-cases (find k db.ticket_types)) [
        | inl e ↦ ground (arith, same, at, e)
        | inr (row, e) ↦ ground (arith, same, at, e, find-put k t (cut_one q row) db.ticket_types)
      ]
  | inr n ↦ elim (Option-cases (find k db.ticket_types)) [
    | inl e ↦ ground (arith, n, e)
    | inr (row, e) ↦ ground (arith, n, e, find-put k t (cut_one q row) db.ticket_types)
  ]
]

update_types-cut_row :
    (is : List OrderItem) (db : Db) (t : ℕ)
    → find t (update_types is db).0.ticket_types
      ≡ map_option (cut_row t is) (find t db.ticket_types)
unfolding update_types cut_row
update_types-cut_row [] db t = elim (Option-cases (find t db.ticket_types)) [
  | inl e ↦ ground (arith, e)
  | inr (row, e) ↦ ground (arith, e)
]
update_types-cut_row (i ∷ is) db t =
    let after = (decrement_type i.ticket_type_id i.quantity db).0 in
    let rest = update_types-cut_row is after t in
    let here = decrement_type-find i.ticket_type_id i.quantity t db in
    elim (Option-cases (find t db.ticket_types)) [
      | inl e ↦ ground (arith, rest, here, e)
      | inr (row, e) ↦ ground (arith, rest, here, e)
    ]

check_cancel-find :
    (id user : ℕ) (o : Order) (db : Db)
    → check_cancel id user db ≡ ok o
    → (find id db.orders ≡ some o) × (user ≡ o.user_id)
unfolding check_cancel
check_cancel-find id user o db h = elim (Option-cases (find id db.orders)) [
  | inl e ↦ absurd (ground (arith, e, h))
  | inr (x, e) ↦ elim (Bool-cases (x.user_id == user)) [
    | inr n ↦ absurd (ground (arith, e, h, n))
    | inl mine ↦ ground (arith, e, h, mine, (==_iff x.user_id user).0 mine)
  ]
]

paid-PaidEffects :
    (calls : Calls) (c : Crypto) (g : Signing) (now : ℕ) (dto : Webhook) (o : Order) (w w' : World)
    → find dto.order_id w.db.orders ≡ some o
    → handle_mock_webhook calls c g now dto w ≡ (ok paid, w')
    → PaidEffects calls c now dto o w w'
paid-PaidEffects calls c g now dto o w w' here h =
    let (order, accepted, (_, _, _, effects)) =
      subst (WebhookOutcome calls c g now dto w) h (webhook_outcome calls c g now dto w) in
    let same : order ≡ o = ground (arith, here, accepted.found) in
    subst (λ x. PaidEffects calls c now dto x w w') same effects

map_option-is_there :
    {A B : Type 0} (f : A → B) (x : Option A) → is_there (map_option f x) ≡ is_there x
map_option-is_there f none = refl
map_option-is_there f (some a) = refl

map_option-map_option :
    {A B C : Type 0} (f : A → B) (g : B → C) (x : Option A)
    → map_option g (map_option f x) ≡ map_option (λ a. g (f a)) x
map_option-map_option f g none = refl
map_option-map_option f g (some a) = refl

-- A cancellation that has read a pending order goes on with its writes where the order is paid
-- meanwhile: these always go through, the paid order becomes CANCELLED with its time of payment, the
-- tickets that the payment has issued stay, and what the order had reserved is taken off twice.
pub cancel_order_overwrites :
    (calls : Calls) (c : Crypto) (g : Signing) (now later user : ℕ) (dto : Webhook) (o : Order)
    (w w' : World)
    → check_cancel dto.order_id user w.db ≡ ok o
    → handle_mock_webhook calls c g now dto w ≡ (ok paid, w')
    → let (answer, w'') = cancel_writes later dto.order_id user o w' in
      (answer ≡ ok tt)
      × (find dto.order_id w''.db.orders
          ≡ some (record o {
            status = OrderStatus.cancelled;
            paid_at = some now;
            cancelled_at = some later;
            inventory_released_at = some later;
            release_reason = some ReleaseReason.cancelled;
          }))
      × (w''.db.tickets
          ≡ w.db.tickets
            ++ order_tickets c 0 dto.order_id o
                (gate_name (find_least_loaded_gate o.concert_id w.db))
                o.items)
      × ((t : ℕ)
          → find t w''.db.ticket_types
            ≡ map_option
                (λ row. cut_row t o.items (sold_row t o.items row))
                (find t w.db.ticket_types))
unfolding cancel_writes
cancel_order_overwrites calls c g now later user dto o w w' read won =
    let id = dto.order_id in
    let (here, mine) = check_cancel-find id user o w.db read in
    let ((order, tickets, types, counters, needed, counted, _, _, _), _) =
      paid-PaidEffects calls c g now dto o w w' here won in
    let cut = (update_types o.items w'.db).0 in
    let gone = (update_counters user o.items cut).0 in
    let same_types = types_there-same o.items w.db.ticket_types w'.db.ticket_types (λ t.
      ap is_there (types t)
      ∙ map_option-is_there (sold_row t o.items) (find t w.db.ticket_types)) in
    let all_types : (update_types o.items w'.db).1 ≡ true =
      update_types-types_there o.items w'.db ∙ same_types ∙ needed in
    let all_counters : (update_counters user o.items cut).1 ≡ true =
      update_counters-counters_there user o.items cut
      ∙ ap (counters_there user o.items) (update_types-counters o.items w'.db)
      ∙ ap (λ u. counters_there u o.items w'.db.counters) mine
      ∙ counted in
    let at_once = order id in
    rw (all_types, all_counters)
      (
        refl,
        ground (
          arith,
          at_once,
          update_types-orders o.items w'.db,
          update_counters-orders user o.items cut,
          find-adjust id id (cancel_row later) gone.orders,
        ),
        update_counters-tickets user o.items cut ∙ update_types-tickets o.items w'.db ∙ tickets,
        λ t.
            ap (find t) (update_counters-types user o.items cut)
            ∙ update_types-cut_row o.items w'.db t
            ∙ ap (map_option (cut_row t o.items)) (types t)
            ∙ map_option-map_option (sold_row t o.items) (cut_row t o.items)
                (find t w.db.ticket_types),
      )
