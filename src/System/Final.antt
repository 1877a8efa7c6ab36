-- ===== src/System/Final.antt =====
-- An order that is no longer pending is final: no handler writes its row, in any history
-- (OrderService, PaymentService, PaymentCronService and TicketIssueProcessor).
use se_ticketbox.Prelude.{
  ℕ, ◌≡◌, inl, inr, false, List, [], ◌∷◌, arith, ◌==◌, Option-cases, Bool-cases, All, ==_iff, take,
}
use se_ticketbox.Prelude.Table.{Table, find}
use se_ticketbox.Store.{Db, Order}
use se_ticketbox.World.{World}
use se_ticketbox.Ticket.Token.{Crypto}
use se_ticketbox.Ticket.Issue.{process_issue}
use se_ticketbox.Payment.Url.{is_pending}
use se_ticketbox.Payment.Settle.{close_order, mark_paid}
use se_ticketbox.Payment.Kept.{give_back_items-SameRest}
use se_ticketbox.Payment.Cron.{
  VerifyResult, expire_db, mark_expired, mark_paid_db, close_stuck, close_all, cron_status,
  cron_reason, mark_order_paid_from_cron, expire_order_and_release_inventory,
  verify_stuck_pending_payments, stuck_orders,
}
use se_ticketbox.System.Step.{
  Event, creates, cancels, expires, notified, verifies, issues, handle, run,
}
use se_ticketbox.System.Rows.{Row, Leaves, issue_items-Row}
use se_ticketbox.System.Leaves.{
  adjust-Row, create_order-Leaves, cancel_order-Leaves, expire_order-Leaves,
  handle_mock_webhook-Leaves,
}

process_issue-Leaves : (o : ℕ) (x : Order) (c : Crypto) (k : ℕ) → Leaves o x (process_issue c k)
unfolding process_issue
process_issue-Leaves o x c k w h = elim (Option-cases (find k w.db.orders)) [
  | inl e ↦ ground (arith, e, h)
  | inr (order, e) ↦ ground (arith, e, h, issue_items-Row o x c 0 k order order.items w.db h)
]

expire_db-Row :
    (o : ℕ) (x : Order) (now k : ℕ) (order : Order) (v : VerifyResult) (db : Db)
    → is_pending x.status ≡ false
    → Row o x db
    → Row o x (expire_db now k order v db)
unfolding expire_db mark_expired
expire_db-Row o x now k order v db final h = elim (Bool-cases (k == o)) [
  | inl same ↦ ground (arith, h, final, (==_iff k o).0 same)
  | inr n ↦ ground (
    arith,
    h,
    (give_back_items-SameRest order.user_id order.items (mark_expired now k order v db)).0,
    adjust-Row o k x (close_order now (cron_status v) (cron_reason v)) db.orders n h,
  )
]

mark_paid_db-Row :
    (o : ℕ) (x : Order) (now k amount : ℕ) (db : Db)
    → is_pending x.status ≡ false
    → Row o x db
    → Row o x (mark_paid_db now k amount db)
unfolding mark_paid_db
mark_paid_db-Row o x now k amount db final h = elim (Bool-cases (k == o)) [
  | inl same ↦ ground (arith, h, final, (==_iff k o).0 same)
  | inr n ↦ ground (arith, h, adjust-Row o k x (mark_paid now) db.orders n h)
]

close_all-Row :
    (o : ℕ) (x : Order) (now : ℕ) (verify : ℕ → VerifyResult) (m : Table Order) (w : World)
    → is_pending x.status ≡ false
    → Row o x w.db
    → Row o x (close_all now verify m w).db
unfolding close_all mark_order_paid_from_cron expire_order_and_release_inventory
close_all-Row o x now verify [] w final h = h
close_all-Row o x now verify ((k, order) ∷ m) w final h =
    close_all-Row o x now verify m _ final (closed (verify k))
  where
    closed : (v : VerifyResult) → Row o x (close_stuck now v k order w).db
    closed VerifyResult.success = mark_paid_db-Row o x now k order.total_amount w.db final h
    closed VerifyResult.failed = expire_db-Row o x now k order VerifyResult.failed w.db final h
    closed VerifyResult.pending = expire_db-Row o x now k order VerifyResult.pending w.db final h

-- The ids that are drawn for new orders are not the order's.
abbrev pub Fresh : ℕ → Event → Type 0
Fresh o (creates s c items u) = (s.order_id == o) ≡ false
Fresh o e = Unit

-- A handler leaves the row of an order that is not pending, whatever it does else.
pub handle-final :
    (o : ℕ) (x : Order) (e : Event) (w : World)
    → Fresh o e
    → is_pending x.status ≡ false
    → Row o x w.db
    → Row o x (handle e w).db
unfolding handle verify_stuck_pending_payments
handle-final o x (creates s c items u) w n final h = create_order-Leaves o x s c items u n w h
handle-final o x (cancels now k u) w n final h = cancel_order-Leaves o x now k u final w h
handle-final o x (expires now k) w n final h = expire_order-Leaves o x now k final w h
handle-final o x (notified calls c g now dto) w n final h =
    handle_mock_webhook-Leaves o x calls c g now dto final w h
handle-final o x (verifies now verify) w n final h =
    close_all-Row o x now verify (take 50 (stuck_orders now w.db.orders)) w final h
handle-final o x (issues c k) w n final h = process_issue-Leaves o x c k w h

-- An order that is paid, cancelled, expired or failed keeps its row through every history of
-- requests, webhooks, jobs and cron runs, one after another, where no new order gets its id.
pub run-final :
    (o : ℕ) (x : Order) (es : List Event) (w : World)
    → All (Fresh o) es
    → is_pending x.status ≡ false
    → Row o x w.db
    → Row o x (run es w).db
unfolding run
run-final o x [] w n final h = h
run-final o x (e ∷ es) w (n, ns) final h =
    run-final o x es (handle e w) ns final (handle-final o x e w n final h)
