-- ===== src/Tests/Selling.antt =====
-- The theorems on orders, payments and histories, on the sale of `Tests.Data`.
use se_ticketbox.Prelude.{ℕ, ◌≡◌, refl, arith, true, false, none, some, List, [], ◌∷◌}
use se_ticketbox.Prelude.Int.{pos, ◌+ℤ◌}
use se_ticketbox.Prelude.Table.{map_option, find, adjust}
use se_ticketbox.Prelude.Text.{text_eq, includes, to_lower, starts_with}
use se_ticketbox.Redis.{get_reservation, reserve_ticket, success, failure, out_of_stock}
use se_ticketbox.Store.{OrderStatus, ReleaseReason, TicketType, Db, service_unavailable, ok, err}
use se_ticketbox.Payment.Url.{
  is_stale_mock_payment_url, create_payment_url, mock_payment_url, execute, PaymentUrl,
  existing_initiated, reusable, store_url,
}
use se_ticketbox.Payment.Reuse.{usable}
use se_ticketbox.Payment.Webhook.{
  paid, settle_by, handle_mock_webhook, verify_signature, webhook_payload, settle,
}
use se_ticketbox.Payment.Answers.{WebhookOutcome}
use se_ticketbox.Payment.Outcome.{webhook_outcome}
use se_ticketbox.Order.Validate.{ItemDto}
use se_ticketbox.Order.Create.{create_order, meta_hold}
use se_ticketbox.Order.Reserve.{fails, create_order_several_fails}
use se_ticketbox.Order.Close.{expire_order}
use se_ticketbox.Order.Ending.{Ended, expire_order_keeps_stock}
use se_ticketbox.World.{World, answered}
use se_ticketbox.Gate.Load.{find_least_loaded_gate}
use se_ticketbox.Ticket.Token.{gate_name, order_tickets}
use se_ticketbox.Payment.Effects.{sold_row}
use se_ticketbox.Order.Close.{check_cancel, cancel_writes}
use se_ticketbox.Order.Race.{cut_row, cancel_order_overwrites}
use se_ticketbox.Payment.Settle.{
  Calls, handle_payment_success, sell_items, mark_settled, set_payment_status, pay_counters,
}
use se_ticketbox.System.Capacity.{Within}
use se_ticketbox.System.Step.{Event, expires, cancels, notified, issues, run, run-Within}
use se_ticketbox.System.Rows.{Row}
use se_ticketbox.System.Final.{run-final}
use se_ticketbox.Tests.Data.{
  crypto, signing, open_gateway, closed_gateway, stocked, pending_order, paid_order, waiting,
  settled, webhook, sale_with, meta_of,
}

-- Every call after a commit is answered.
abbrev calls : Calls
calls = record { releases = []; deletion = answered; mail = answered }

-- A payment, a late cancellation, the ticket job and the expiry job of order 8.
abbrev history : List Event
history =
    notified calls crypto signing 5 webhook
    ∷ cancels 6 8 3
    ∷ issues crypto 8
    ∷ expires 900000 8
    ∷ []

waiting-Within : Within 1 waiting.db
unfolding find ◌+ℤ◌
waiting-Within = omega arith

run-Within_example : Within 1 (run history waiting).db
run-Within_example = run-Within 1 history waiting waiting-Within

run-final_example : Row 8 paid_order (run history settled).db
unfolding find
run-final_example = run-final 8 paid_order history settled (tt, (tt, (tt, (tt, tt)))) refl refl

webhook_outcome_example :
    WebhookOutcome calls crypto signing 5 webhook waiting
      (handle_mock_webhook calls crypto signing 5 webhook waiting)
webhook_outcome_example = webhook_outcome calls crypto signing 5 webhook waiting

-- The reservation of ticket type 1 in the order of types 1 and 2.
first_reserved :
    reserve_ticket 0 900 4 (meta_hold 3 8 (meta_of 1)) stocked
    ≡ (success 3 (pos 2), (reserve_ticket 0 900 4 (meta_hold 3 8 (meta_of 1)) stocked).1)
unfolding reserve_ticket ◌+ℤ◌ find
first_reserved = refl

second_refused :
    reserve_ticket 0 900 4 (meta_hold 3 8 (meta_of 2)) stocked ≡ (failure (out_of_stock 0), stocked)
unfolding reserve_ticket
second_refused = refl

abbrev one : ItemDto
one = record { ticket_type_id = 1; quantity = 1 }

create_order_several_fails_example :
    fails (create_order (sale_with open_gateway) 4 (one ∷ one ∷ []) 3 waiting).0 ≡ true
create_order_several_fails_example =
    create_order_several_fails (sale_with open_gateway) 4 3 one one [] waiting (omega arith)

found_waiting : find 8 waiting.db.orders ≡ some pending_order
unfolding find
found_waiting = refl

none_live : get_reservation 900000 8 stocked ≡ none
unfolding get_reservation find
none_live = refl

expire_order_keeps_stock_example :
    Ended 900000 8 pending_order waiting (expire_order 900000 8 waiting)
expire_order_keeps_stock_example =
    expire_order_keeps_stock 900000 8 waiting pending_order found_waiting refl refl none_live

found_settled : find 8 settled.db.orders ≡ some paid_order
unfolding find
found_settled = refl

no_url : create_payment_url closed_gateway 8 3 waiting.db ≡ err service_unavailable
unfolding create_payment_url find execute existing_initiated reusable
no_url = refl

-- The address of order 8, and the database that has it.
abbrev offered : PaymentUrl
offered = record { payment_url = mock_payment_url open_gateway 8 200; reused = false }

abbrev offering : Db
offering = store_url 8 pending_order (mock_payment_url open_gateway 8 200) waiting.db

offered-eq : create_payment_url open_gateway 8 3 waiting.db ≡ ok (offered, offering)
unfolding create_payment_url find execute existing_initiated reusable
offered-eq = refl

usable_url : usable (mock_payment_url open_gateway 8 200) ≡ true
unfolding mock_payment_url is_stale_mock_payment_url includes to_lower starts_with
usable_url = refl

-- The payment of order 8 that comes in after a cancellation has read the order.
abbrev meanwhile : World
meanwhile = (handle_mock_webhook calls crypto signing 5 webhook waiting).1

cancellable : check_cancel 8 3 waiting.db ≡ ok pending_order
unfolding check_cancel find
cancellable = refl

pays : handle_mock_webhook calls crypto signing 5 webhook waiting ≡ (ok paid, meanwhile)
unfolding find handle_mock_webhook verify_signature webhook_payload text_eq settle settle_by
    handle_payment_success sell_items mark_settled set_payment_status pay_counters adjust
pays = refl

abbrev row_after : ℕ → TicketType → TicketType
row_after t row = cut_row t pending_order.items (sold_row t pending_order.items row)

cancel_order_overwrites_example :
    let (answer, w'') = cancel_writes 6 8 3 pending_order meanwhile in
    (answer ≡ ok tt)
    × (find 8 w''.db.orders
        ≡ some (record pending_order {
          status = OrderStatus.cancelled;
          paid_at = some 5;
          cancelled_at = some 6;
          inventory_released_at = some 6;
          release_reason = some ReleaseReason.cancelled;
        }))
    × (w''.db.tickets
        ≡ order_tickets crypto 0 8 pending_order
            (gate_name (find_least_loaded_gate 4 waiting.db))
            pending_order.items)
    × ((t : ℕ)
        → find t w''.db.ticket_types ≡ map_option (row_after t) (find t waiting.db.ticket_types))
cancel_order_overwrites_example =
    cancel_order_overwrites calls crypto signing 5 6 3 webhook pending_order waiting meanwhile
      cancellable pays
