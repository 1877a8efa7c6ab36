-- ===== src/System/Step.antt =====
-- Histories of the sale: the requests, webhooks, jobs and cron runs that change orders, one after
-- another in any order (OrderController, PaymentController, the BullMQ workers and the cron job).
use se_ticketbox.Prelude.{ℕ, ◌≡◌, List, [], ◌∷◌, arith, Option-cases, inl, inr, take}
use se_ticketbox.Prelude.Table.{Table, find}
use se_ticketbox.Prelude.Text.{Text}
use se_ticketbox.Store.{Result-cases, Db, Order, Error, ok, update_types, update_counters}
use se_ticketbox.World.{World, Action, set_redis}
use se_ticketbox.Payment.Url.{Gateway, PaymentUrl, create_payment_url, store_url}
use se_ticketbox.Payment.Settle.{
  Calls, after_commit, Webhook, MockPaymentResult, fail_order, handle_payment_failed,
  handle_payment_success, settle_order, handle_payment_timeout, mark_failed, mark_settled,
  record_late_webhook, sell_items, set_payment_status,
}
use se_ticketbox.Payment.Webhook.{Signing, handle_mock_webhook, settle, settle_by}
use se_ticketbox.Payment.Cron.{
  VerifyResult, expire_db, mark_paid_db, mark_expired, close_stuck, stuck_orders, close_all,
  verify_stuck_pending_payments, mark_order_paid_from_cron, expire_order_and_release_inventory,
}
use se_ticketbox.Order.Validate.{ItemDto, Meta, collect_meta, seed_all}
use se_ticketbox.Order.Create.{
  Sale, reserve_stage, persist_stage, sync_stage, pay_stage, undo_sale, create_order, delete_order,
  or_else, order_items,
}
use se_ticketbox.Order.Close.{
  cancel_order, cancel_writes, check_cancel, expire_order, expire_writes,
}
use se_ticketbox.Gate.Load.{find_least_loaded_gate}
use se_ticketbox.Ticket.Token.{Crypto, gate_name}
use se_ticketbox.Ticket.Issue.{process_issue}
use se_ticketbox.System.Capacity.{
  Within, OkWithin, update_types-Within, update_counters-types, give_back_items-Within,
  sell_items-Within, pay_counters-types, sync_items-Within, issue_items-Within,
}

-- One call of a handler, with what it reads of its environment.
pub data Event : Type 0 where
  creates : Sale → (concert_id : ℕ) → List ItemDto → (user_id : ℕ) → Event
  cancels : (now order_id user_id : ℕ) → Event
  expires : (now order_id : ℕ) → Event
  notified : Calls → Crypto → Signing → (now : ℕ) → Webhook → Event
  verifies : (now : ℕ) → (ℕ → VerifyResult) → Event
  issues : Crypto → (order_id : ℕ) → Event

unfoldable pub handle : Event → World → World
handle (creates s concert_id items user_id) w = (create_order s concert_id items user_id w).1
handle (cancels now order_id user_id) w = (cancel_order now order_id user_id w).1
handle (expires now order_id) w = (expire_order now order_id w).1
handle (notified calls c g now dto) w = (handle_mock_webhook calls c g now dto w).1
handle (verifies now verify) w = verify_stuck_pending_payments now verify w
handle (issues c order_id) w = (process_issue c order_id w).1

unfoldable pub run : List Event → World → World
run [] w = w
run (e ∷ es) w = run es (handle e w)

-- An action that keeps the bound of a ticket type, whether it throws or not.
abbrev Keeps : {A : Type 0} → ℕ → Action A → Type 0
Keeps t m = (w : World) → Within t w.db → Within t (m w).1.db

reserve_stage-Keeps : (t : ℕ) (s : Sale) (u : ℕ) (ms : List Meta) → Keeps t (reserve_stage s u ms)
unfolding reserve_stage
reserve_stage-Keeps t s u ms w h = ground arith

persist_stage-Keeps :
    (t : ℕ) (s : Sale) (u c : ℕ) (ms : List Meta) → Keeps t (persist_stage s u c ms)
unfolding persist_stage
persist_stage-Keeps t s u c ms w h = ground arith

delete_order-types :
    (o : ℕ) (db : Db) → (or_else db (delete_order o db)).ticket_types ≡ db.ticket_types
unfolding delete_order
delete_order-types o db = ground arith

sync_stage-Keeps : (t : ℕ) (s : Sale) (u : ℕ) (ms : List Meta) → Keeps t (sync_stage s u ms)
unfolding sync_stage
sync_stage-Keeps t s u ms w h =
    ground (arith, sync_items-Within t u ms w.db h, delete_order-types s.order_id w.db)

undo_sale-Keeps :
    (t : ℕ) (s : Sale) (u : ℕ) (ms : List Meta) (e : Error) → Keeps t (undo_sale s u ms e)
unfolding undo_sale
undo_sale-Keeps t s u ms e w h =
    let items = order_items s.item_ids ms in
    let db' = (update_types items w.db).0 in
    ground (
      arith,
      update_types-Within t items w.db h,
      update_counters-types u items db',
      delete_order-types s.order_id (update_counters u items db').0,
    )

create_payment_url-types :
    (g : Gateway) (o u : ℕ) (db : Db) (url : PaymentUrl) (db' : Db)
    → create_payment_url g o u db ≡ ok (url, db')
    → db'.ticket_types ≡ db.ticket_types
unfolding create_payment_url store_url
create_payment_url-types g o u db url db' h = ground arith

pay_stage-Keeps : (t : ℕ) (s : Sale) (u : ℕ) (ms : List Meta) → Keeps t (pay_stage s u ms)
unfolding pay_stage
pay_stage-Keeps t s u ms w h =
    elim (Result-cases (create_payment_url s.gateway s.order_id u w.db)) [
      | inl ((url, db), e) ↦
          rw (e, pay_stage) (rw (create_payment_url-types s.gateway s.order_id u w.db url db e) h)
      | inr (e, refused) ↦ rw (refused, pay_stage) (undo_sale-Keeps t s u ms e w h)
    ]

create_order-Keeps :
    (t : ℕ) (s : Sale) (c : ℕ) (items : List ItemDto) (u : ℕ) → Keeps t (create_order s c items u)
unfolding create_order
create_order-Keeps t s c items u w h = elim (Result-cases (collect_meta s.now c items w.db)) [
  | inr (e, refused) ↦ ground (arith, refused)
  | inl (ms, checked) ↦
      let w1 = set_redis (seed_all u ms w.db w.redis) w in
      let w2 = (reserve_stage s u ms w1).1 in
      let w3 = (persist_stage s u c ms w2).1 in
      let w4 = (sync_stage s u ms w3).1 in
      ground (
        arith,
        checked,
        reserve_stage-Keeps t s u ms w1 h,
        persist_stage-Keeps t s u c ms w2,
        sync_stage-Keeps t s u ms w3,
        pay_stage-Keeps t s u ms w4,
      )
]

cancel_writes-Keeps : (t now o u : ℕ) (order : Order) → Keeps t (cancel_writes now o u order)
unfolding cancel_writes
cancel_writes-Keeps t now o u order w h = ground (
  arith,
  update_types-Within t order.items w.db h,
  update_counters-types u order.items (update_types order.items w.db).0,
)

expire_writes-Keeps : (t now o : ℕ) (order : Order) → Keeps t (expire_writes now o order)
unfolding expire_writes
expire_writes-Keeps t now o order w h = ground (
  arith,
  update_counters-types order.user_id order.items w.db,
  update_types-Within t order.items (update_counters order.user_id order.items w.db).0,
)

cancel_order-Keeps : (t now o u : ℕ) → Keeps t (cancel_order now o u)
unfolding cancel_order
cancel_order-Keeps t now o u w h = elim (Result-cases (check_cancel o u w.db)) [
  | inr (e, refused) ↦ ground (arith, refused)
  | inl (order, checked) ↦ ground (arith, checked, cancel_writes-Keeps t now o u order w h)
]

expire_order-Keeps : (t now o : ℕ) → Keeps t (expire_order now o)
unfolding expire_order
expire_order-Keeps t now o w h = elim (Option-cases (find o w.db.orders)) [
  | inl e ↦ ground (arith, e)
  | inr (order, e) ↦ ground (arith, e, expire_writes-Keeps t now o order w h)
]

fail_order-Within :
    (t now o : ℕ) (order : Order) (db : Db) → Within t db → Within t (fail_order now o order db)
unfolding fail_order mark_failed
fail_order-Within t now o order db h =
    ground (arith, give_back_items-Within t order.user_id order.items (mark_failed now o db) h)

expire_db-Within :
    (t now o : ℕ) (order : Order) (v : VerifyResult) (db : Db)
    → Within t db
    → Within t (expire_db now o order v db)
unfolding expire_db mark_expired
expire_db-Within t now o order v db h =
    ground
      (arith, give_back_items-Within t order.user_id order.items (mark_expired now o order v db) h)

settle_order-Within :
    (t : ℕ) (c : Crypto) (now : ℕ) (dto : Webhook) (order : Order) (name : Text) (db : Db)
    → Within t db
    → OkWithin t (settle_order c now dto order name db)
unfolding settle_order mark_settled set_payment_status
settle_order-Within t c now dto order name db h =
    let marked = mark_settled c now dto order name db in
    let kept = sell_items-Within t order.items marked h in
    elim (Result-cases (sell_items order.items marked)) [
      | inl (sold, e) ↦ ground (arith, e, kept, pay_counters-types order.user_id order.items sold)
      | inr (x, e) ↦ ground (arith, e)
    ]

handle_payment_success-Keeps :
    (t : ℕ) (calls : Calls) (c : Crypto) (now : ℕ) (dto : Webhook) (order : Order)
    → Keeps t (handle_payment_success calls c now dto order)
unfolding handle_payment_success after_commit
handle_payment_success-Keeps t calls c now dto order w h =
    let name = gate_name (find_least_loaded_gate order.concert_id w.db) in
    ground (arith, settle_order-Within t c now dto order name w.db h)

settle_by-Keeps :
    (t : ℕ) (calls : Calls) (c : Crypto) (now : ℕ) (dto : Webhook) (order : Order)
    (r : MockPaymentResult)
    → Keeps t (settle_by calls c now dto order r)
unfolding settle_by handle_payment_failed handle_payment_timeout
settle_by-Keeps t calls c now dto order MockPaymentResult.failed w h =
    ground (arith, fail_order-Within t now dto.order_id order w.db h)
settle_by-Keeps t calls c now dto order MockPaymentResult.timeout w h = ground arith
settle_by-Keeps t calls c now dto order MockPaymentResult.success w h =
    ground (arith, handle_payment_success-Keeps t calls c now dto order w h)

handle_mock_webhook-Keeps :
    (t : ℕ) (calls : Calls) (c : Crypto) (g : Signing) (now : ℕ) (dto : Webhook)
    → Keeps t (handle_mock_webhook calls c g now dto)
unfolding handle_mock_webhook settle record_late_webhook
handle_mock_webhook-Keeps t calls c g now dto w h =
    elim (Option-cases (find dto.order_id w.db.orders)) [
      | inl e ↦ ground (arith, e)
      | inr (order, e) ↦ ground (arith, e, settle_by-Keeps t calls c now dto order dto.result w h)
    ]

close_stuck-Within :
    (t now : ℕ) (v : VerifyResult) (o : ℕ) (order : Order) (w : World)
    → Within t w.db
    → Within t (close_stuck now v o order w).db
unfolding close_stuck mark_order_paid_from_cron mark_paid_db expire_order_and_release_inventory
close_stuck-Within t now VerifyResult.success o order w h = ground arith
close_stuck-Within t now VerifyResult.failed o order w h =
    expire_db-Within t now o order VerifyResult.failed w.db h
close_stuck-Within t now VerifyResult.pending o order w h =
    expire_db-Within t now o order VerifyResult.pending w.db h

close_all-Within :
    (t now : ℕ) (verify : ℕ → VerifyResult) (m : Table Order) (w : World)
    → Within t w.db
    → Within t (close_all now verify m w).db
unfolding close_all
close_all-Within t now verify [] w h = h
close_all-Within t now verify ((o, order) ∷ m) w h =
    close_all-Within t now verify m _ (close_stuck-Within t now (verify o) o order w h)

process_issue-Keeps : (t : ℕ) (c : Crypto) (o : ℕ) → Keeps t (process_issue c o)
unfolding process_issue
process_issue-Keeps t c o w h = elim (Option-cases (find o w.db.orders)) [
  | inl e ↦ ground (arith, e)
  | inr (order, e) ↦ ground (arith, e, issue_items-Within t c 0 o order order.items w.db h)
]

-- Each handler keeps the bound of every ticket type, on every path, errors and rollbacks included.
pub handle-Within : (t : ℕ) (e : Event) (w : World) → Within t w.db → Within t (handle e w).db
unfolding handle verify_stuck_pending_payments
handle-Within t (creates s c items u) w h = create_order-Keeps t s c items u w h
handle-Within t (cancels now o u) w h = cancel_order-Keeps t now o u w h
handle-Within t (expires now o) w h = expire_order-Keeps t now o w h
handle-Within t (notified calls c g now dto) w h = handle_mock_webhook-Keeps t calls c g now dto w h
handle-Within t (verifies now verify) w h =
    close_all-Within t now verify (take 50 (stuck_orders now w.db.orders)) w h
handle-Within t (issues c o) w h = process_issue-Keeps t c o w h

-- After any history of handlers, no more tickets of a type are sold and reserved than there are,
-- if that was so at the start.
pub run-Within : (t : ℕ) (es : List Event) (w : World) → Within t w.db → Within t (run es w).db
unfolding run
run-Within t [] w h = h
run-Within t (e ∷ es) w h = run-Within t es (handle e w) (handle-Within t e w h)
