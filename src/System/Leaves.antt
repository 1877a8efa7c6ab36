-- ===== src/System/Leaves.antt =====
-- Requests and webhooks leave the row of an order that is no longer pending (OrderService and
-- PaymentService).
use se_ticketbox.Prelude.{
  ℕ, ◌≡◌, refl, sym, subst, ap, ◌∙◌, ◌⊎◌, inl, inr, false, some, List, arith, ◌==◌, Option-cases,
  Bool-cases, ==_iff,
}
use se_ticketbox.Prelude.Table.{Table, find, adjust, find-adjust}
use se_ticketbox.Store.{
  Db, Order, OrderStatus, ReleaseReason, Result, ok, err, Result-cases, update_types,
  update_counters,
}
use se_ticketbox.Store.Updates.{update_types-orders, update_counters-orders}
use se_ticketbox.World.{World, next, set_redis}
use se_ticketbox.Gate.Load.{find_least_loaded_gate}
use se_ticketbox.Ticket.Token.{Crypto, gate_name}
use se_ticketbox.Payment.Url.{is_pending}
use se_ticketbox.Payment.Settle.{
  Calls, after_commit, Webhook, MockPaymentResult, after_settling, mark_settled, settle_order,
  handle_payment_failed, handle_payment_timeout, handle_payment_success, record_late_webhook,
  close_order, fail_order, mark_failed, mark_paid,
}
use se_ticketbox.Payment.Webhook.{
  Signing, Answer, settle, settle_by, webhook_on, handle_mock_webhook,
}
use se_ticketbox.Payment.Kept.{give_back_items-SameRest, OkSettled, settle_order-OkSettled}
use se_ticketbox.Order.Create.{Sale, create_order, reserve_stage, persist_stage, sync_stage}
use se_ticketbox.Order.Validate.{ItemDto, collect_meta, seed_all}
use se_ticketbox.Order.Close.{
  cancel_row, cancel_order, cancel_writes, check_cancel, expire_order, expire_writes,
}
use se_ticketbox.System.Rows.{
  Row, Leaves, reserve_stage-Leaves, persist_stage-Leaves, sync_stage-Leaves, pay_stage-Leaves,
}

pub create_order-Leaves :
    (o : ℕ) (x : Order) (s : Sale) (c : ℕ) (items : List ItemDto) (u : ℕ)
    → (s.order_id == o) ≡ false
    → Leaves o x (create_order s c items u)
unfolding create_order
create_order-Leaves o x s c items u n w h = elim (Result-cases (collect_meta s.now c items w.db)) [
  | inr (e, refused) ↦ ground (arith, refused, h)
  | inl (ms, checked) ↦
      let w1 = set_redis (seed_all u ms w.db w.redis) w in
      let w2 = (reserve_stage s u ms w1).1 in
      let w3 = (persist_stage s u c ms w2).1 in
      let w4 = (sync_stage s u ms w3).1 in
      ground (
        arith,
        checked,
        reserve_stage-Leaves o x s u ms w1 h,
        persist_stage-Leaves o x s u c ms n w2,
        sync_stage-Leaves o x s u ms n w3,
        pay_stage-Leaves o x s u ms n w4,
      )
]

-- A write of another order's row.
pub adjust-Row :
    (o k : ℕ) (x : Order) (f : Order → Order) (m : Table Order)
    → (k == o) ≡ false
    → find o m ≡ some x
    → find o (adjust k f m) ≡ some x
adjust-Row o k x f m n h = ground (arith, n, h, find-adjust k o f m)

pub cancel_order-Leaves :
    (o : ℕ) (x : Order) (now k u : ℕ)
    → is_pending x.status ≡ false
    → Leaves o x (cancel_order now k u)
unfolding cancel_order check_cancel cancel_writes
cancel_order-Leaves o x now k u final w h = elim (Option-cases (find k w.db.orders)) [
  | inl e ↦ ground (arith, e, h)
  | inr (order, e) ↦ elim (Bool-cases (k == o)) [
    | inl same ↦
        let e' : order ≡ x = ground (arith, e, h, (==_iff k o).0 same) in
        ground (arith, e, e', final, h)
    | inr n ↦
        let db' = (update_types order.items w.db).0 in
        let db'' = (update_counters u order.items db').0 in
        let kept : Row o x db'' =
          ap (find o)
            (update_counters-orders u order.items db' ∙ update_types-orders order.items w.db)
          ∙ h in
        ground (arith, e, kept, h, adjust-Row o k x (cancel_row now) db''.orders n kept)
  ]
]

pub expire_order-Leaves :
    (o : ℕ) (x : Order) (now k : ℕ) → is_pending x.status ≡ false → Leaves o x (expire_order now k)
unfolding expire_order expire_writes
expire_order-Leaves o x now k final w h = elim (Option-cases (find k w.db.orders)) [
  | inl e ↦ ground (arith, e, h)
  | inr (order, e) ↦ elim (Bool-cases (k == o)) [
    | inl same ↦
        let e' : order ≡ x = ground (arith, e, h, (==_iff k o).0 same) in
        ground (arith, e, e', final, h)
    | inr n ↦
        let u = order.user_id in
        let db' = (update_counters u order.items w.db).0 in
        let db'' = (update_types order.items db').0 in
        let first : Row o x db' = ap (find o) (update_counters-orders u order.items w.db) ∙ h in
        let kept : Row o x db'' = ap (find o) (update_types-orders order.items db') ∙ first in
        ground (
          arith,
          e,
          h,
          first,
          kept,
          adjust-Row o k x (close_order now OrderStatus.expired ReleaseReason.payment_timeout)
              db''.orders n kept,
        )
  ]
]

settle_order-Row :
    (o : ℕ) (x : Order) (calls : Calls) (c : Crypto) (now : ℕ) (dto : Webhook) (order : Order)
    (w : World) (r : Result Db)
    → (dto.order_id == o) ≡ false
    → Row o x w.db
    → OkSettled
        (mark_settled c now dto order
          (gate_name (find_least_loaded_gate order.concert_id w.db))
          w.db)
        r
    → Row o x (after_settling calls dto w r).1.db
unfolding after_settling after_commit mark_settled
settle_order-Row o x calls c now dto order w (err e) n h kept = h
settle_order-Row o x calls c now dto order w (ok db) n h (orders, _, _, _, _) =
    let kept = ap (find o) orders ∙ adjust-Row o dto.order_id x (mark_paid now) w.db.orders n h in
    ground (arith, kept)

fail_order-Row :
    (o : ℕ) (x : Order) (now k : ℕ) (order : Order) (db : Db)
    → (k == o) ≡ false
    → Row o x db
    → Row o x (fail_order now k order db)
unfolding fail_order mark_failed
fail_order-Row o x now k order db n h = ground (
  arith,
  h,
  (give_back_items-SameRest order.user_id order.items (mark_failed now k db)).0,
  adjust-Row o k x (close_order now OrderStatus.payment_failed ReleaseReason.payment_failed)
      db.orders n h,
)

next-state :
    {A B : Type 0} (f : A → Result B) (p : Result A × World) → (next (λ a w. (f a, w)) p).1 ≡ p.1
next-state f (ok a, w) = refl
next-state f (err e, w) = refl

settle_by-Leaves :
    (o : ℕ) (x : Order) (calls : Calls) (c : Crypto) (now : ℕ) (dto : Webhook) (order : Order)
    (r : MockPaymentResult)
    → (dto.order_id == o) ≡ false
    → Leaves o x (settle_by calls c now dto order r)
unfolding settle_by handle_payment_failed handle_payment_timeout handle_payment_success
settle_by-Leaves o x calls c now dto order MockPaymentResult.failed n w h =
    ground (arith, fail_order-Row o x now dto.order_id order w.db n h)
settle_by-Leaves o x calls c now dto order MockPaymentResult.timeout n w h = h
settle_by-Leaves o x calls c now dto order MockPaymentResult.success n w h =
    let name = gate_name (find_least_loaded_gate order.concert_id w.db) in
    let r = settle_order c now dto order name w.db in
    subst (λ v. Row o x v.db)
      (sym (next-state (λ _. ok Answer.paid) (after_settling calls dto w r)))
      (settle_order-Row o x calls c now dto order w r n h
        (settle_order-OkSettled c now dto order name w.db))

settle-Leaves :
    (o : ℕ) (x : Order) (calls : Calls) (c : Crypto) (now : ℕ) (dto : Webhook) (order : Order)
    (s : OrderStatus)
    → ((dto.order_id == o) ≡ false) ⊎ (is_pending s ≡ false)
    → Leaves o x (settle calls c now dto order s)
unfolding settle record_late_webhook
settle-Leaves o x calls c now dto order OrderStatus.pending_payment (inl n) w h =
    settle_by-Leaves o x calls c now dto order dto.result n w h
settle-Leaves o x calls c now dto order OrderStatus.pending_payment (inr p) w h =
    absurd (ground arith)
settle-Leaves o x calls c now dto order OrderStatus.paid p w h = h
settle-Leaves o x calls c now dto order OrderStatus.expired p w h = h
settle-Leaves o x calls c now dto order OrderStatus.cancelled p w h = h
settle-Leaves o x calls c now dto order OrderStatus.payment_failed p w h = h
settle-Leaves o x calls c now dto order OrderStatus.refunded p w h = h

pub handle_mock_webhook-Leaves :
    (o : ℕ) (x : Order) (calls : Calls) (c : Crypto) (g : Signing) (now : ℕ) (dto : Webhook)
    → is_pending x.status ≡ false
    → Leaves o x (handle_mock_webhook calls c g now dto)
unfolding handle_mock_webhook webhook_on
handle_mock_webhook-Leaves o x calls c g now dto final w h =
    elim (Option-cases (find dto.order_id w.db.orders)) [
      | inl e ↦ ground (arith, e, h)
      | inr (order, e) ↦
          let kept = settle-Leaves o x calls c now dto order order.status in
          elim (Bool-cases (dto.order_id == o)) [
            | inl same ↦
                let e' : order ≡ x = ground (arith, e, h, (==_iff dto.order_id o).0 same) in
                ground (arith, e, h, kept (inr (ground (arith, e', final))) w h)
            | inr n ↦ ground (arith, e, h, kept (inl n) w h)
          ]
    ]
