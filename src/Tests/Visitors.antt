-- ===== src/Tests/Visitors.antt =====
-- The theorems on reminders, the waiting room and the seat map, at concrete data.
use se_ticketbox.Prelude.{ℕ, ◌≡◌, ◌≤◌, refl, true, false, some, none, List, [], ◌∷◌, arith}
use se_ticketbox.Prelude.Int.{pos}
use se_ticketbox.Prelude.Table.{Distinct, find, put}
use se_ticketbox.Prelude.Text.{codes}
use se_ticketbox.Store.{Db, Role, ok}
use se_ticketbox.Accounts.{Users}
use se_ticketbox.Mailing.{handle_concert_reminder, recipients}
use se_ticketbox.Mailing.Batches.{reminders, handle_concert_reminder_ends}
use se_ticketbox.WaitingRoom.{
  Env, Draw, Room, count_waiting, waiting_room_required, prune_joins, join_waiting_room,
  poll_waiting_room, polled_session, to_poll_response, is_admitted, existing_session, record_join,
  recent,
}
use se_ticketbox.WaitingRoom.Queue.{Event, joined, all_spare, run}
use se_ticketbox.WaitingRoom.Abandoned.{only_fresh_joins, abandoned_sessions_count}
use se_ticketbox.Scanner.{delivered}
use se_ticketbox.Purchase.{Tab, granted, request_purchase_access, remaining_ms}
use se_ticketbox.Purchase.Page.{Page, PageStatus, join_queue, poll_page}
use se_ticketbox.Purchase.Admission.{page_is_admitted, expired_token_stays}
use se_ticketbox.Order.Queries.{get_my_orders, filter_orders}
use se_ticketbox.SeatPicker.{ZoneStatus, SeatMap, ZoneUpdate, Picker, last_update}
use se_ticketbox.SeatPicker.Cover.{
  Action, chosen, quantity_set, updated, Covered, all_unique, act_all, act_all-Covered,
  unique_updates,
}
use se_ticketbox.SeatPicker.Usage.{used, fetch_user_ticket_usage}
use se_ticketbox.SeatPicker.Held.{held, fetch_user_ticket_usage-held}
use se_ticketbox.Tests.Data.{settled, ticket}

abbrev ticketed : Db
ticketed = record settled.db { tickets = ticket ∷ [] }

abbrev users : Users
users =
    (
      3,
      record {
        email = codes "a@b.c";
        phone = none;
        password_hash = codes "x";
        full_name = none;
        role = Role.customer;
      },
    )
    ∷ []

users-Distinct : Distinct users
unfolding find
users-Distinct = (refl, tt)

handle_concert_reminder_ends_example :
    handle_concert_reminder 2 (λ m. true) 4 ticketed users
    ≡ some (reminders (λ m. true) (recipients 4 ticketed.tickets users) (find 4 ticketed.concerts))
handle_concert_reminder_ends_example =
    handle_concert_reminder_ends 1 (λ m. true) 4 ticketed users users-Distinct (omega arith)

abbrev env : Env
env = record { forced = false; join_threshold = 1 }

abbrev draw : ℕ → Draw
draw id = record { session_id = id; token = 70; random_wait = 20000 }

abbrev empty_room : Room
empty_room = record { sessions = []; joins = λ c. [] }

-- The first user is let in at once, the second one waits.
abbrev first_joins : Room
first_joins = (join_waiting_room env 0 (draw 1) 4 none empty_room).1

abbrev busy : Room
busy = (join_waiting_room env 0 (draw 2) 4 none first_joins).1

busy_full : env.join_threshold ≤ count_waiting 4 busy.sessions
unfolding join_waiting_room existing_session waiting_room_required prune_joins recent record_join
    count_waiting put
busy_full = omega arith

abbrev crowd : List Event
crowd = joined 1000000 (draw 3) 4 none ∷ []

crowd_fresh : only_fresh_joins env crowd busy ≡ true
unfolding join_waiting_room existing_session waiting_room_required prune_joins recent record_join
    count_waiting only_fresh_joins find put
crowd_fresh = refl

abandoned_sessions_count_example :
    (waiting_room_required env 9000000 4 (run env crowd busy)).0 ≡ true
abandoned_sessions_count_example =
    abandoned_sessions_count env 9000000 4 busy crowd busy_full crowd_fresh

abbrev page : Page
page = record {
  status = PageStatus.loading;
  session_id = none;
  was_admitted = false;
  started_at = none;
  position = none;
  estimated_seconds = none;
}

abbrev tab : Tab
tab = record {
  session = λ c. none;
  token = λ c. none;
  intent = λ c. none;
  pending_order = λ c. none;
}

crowd_spares : all_spare 2 crowd ≡ true
unfolding all_spare
crowd_spares = refl

page_is_admitted_example :
    let (p', t', s') = join_queue delivered env 0 (draw 2) 4 page tab first_joins in
    (poll_page delivered 40000 71 4 p' t' (run env crowd s')).0.status ≡ PageStatus.admitted
page_is_admitted_example =
    page_is_admitted env 0 40000 71 (draw 2) 4 page tab first_joins crowd refl refl (omega arith)
      crowd_spares (omega arith)

-- The tab of the first user.
abbrev first_tab : Tab
first_tab = record tab {
  session = λ c. some 1;
  token = λ c. some (record { token = 70; expires_at = 300000 });
}

first_admitted :
    (poll_waiting_room 10 71 1 first_joins).0 ≡ some (is_admitted false 70 (some 300000))
unfolding join_waiting_room existing_session waiting_room_required prune_joins recent record_join
    count_waiting poll_waiting_room polled_session to_poll_response find put
first_admitted = refl

crowd_spares_first : all_spare 1 crowd ≡ true
unfolding all_spare
crowd_spares_first = refl

expired_token_stays_example :
    let s' = run env crowd (poll_waiting_room 10 71 1 first_joins).1 in
    let (answer, t', s'') = request_purchase_access delivered 300001 72 4 true first_tab s' in
    (answer ≡ ok (granted (some 70))) × ((remaining_ms 300001 4 t').0 ≡ none)
expired_token_stays_example =
    expired_token_stays env 10 300001 71 72 1 70 4 false 300000 first_tab first_joins crowd
      first_admitted crowd_spares_first refl refl (omega arith)

abbrev seat_map : SeatMap
seat_map =
    record {
      id = 1;
      price = 100;
      max_per_user = 4;
      zones =
          record {
            zone_id = 9;
            available_count = 5;
            reserved_count = 0;
            sold_count = 0;
            status = ZoneStatus.available;
          }
          ∷ [];
    }
    ∷ []

abbrev picker : Picker
picker = record {
  loaded = seat_map;
  selection = none;
  limit_warning = none;
  notice = none;
  usage = some (λ t. 1);
}

abbrev fewer : List ZoneUpdate
fewer =
    record {
      ticket_type_id = 1;
      zone_id = 9;
      status = ZoneStatus.reserved;
      available_count = 2;
      reserved_count = none;
      sold_count = some 3;
    }
    ∷ []

abbrev clicks : List Action
clicks = chosen 1 9 ∷ quantity_set (pos 3) ∷ updated fewer ∷ []

clicks_unique : all_unique clicks ≡ true
unfolding all_unique unique_updates last_update
clicks_unique = refl

act_all-Covered_example : Covered (act_all clicks picker)
act_all-Covered_example = act_all-Covered clicks picker clicks_unique refl

few_orders : (get_my_orders 3 1 100 none settled.db).total ≤ 100
unfolding get_my_orders filter_orders
few_orders = omega arith

fetch_user_ticket_usage-held_example :
    used (fetch_user_ticket_usage 3 4 settled.db) 1 ≡ held 3 4 1 settled.db.orders
fetch_user_ticket_usage-held_example = fetch_user_ticket_usage-held 3 4 1 settled.db few_orders
