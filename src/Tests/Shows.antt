-- ===== src/Tests/Shows.antt =====
-- The theorems on concerts, ticket types and gates, on the concert of `Tests.Data`.
use se_ticketbox.Prelude.{
  ℕ, if◌then◌else◌, ◌==◌, zero, suc, ◌<◌, ◌≡◌, refl, Bool, true, none, some, [], ◌∷◌, All, length,
  ltb, arith,
}
use se_ticketbox.Prelude.Table.{find, Distinct}
use se_ticketbox.Prelude.Text.{Text, codes, text_eq}
use se_ticketbox.Store.{Db, Role, ConcertStatus, Payment, PaymentStatus, Ticket}
use se_ticketbox.Ticket.Token.{recompute_signature}
use se_ticketbox.Order.Validate.{validate_ticket_type}
use se_ticketbox.TicketTypes.{
  CreateDto, UpdateDto, create_ticket_type, update_ticket_type, remove_ticket_type,
}
use se_ticketbox.TicketTypes.Listing.{listed, accepted, available_rows, find_available-validate}
use se_ticketbox.TicketTypes.Names.{UniqueNames, named, rows_after, rows_left, edits-UniqueNames}
use se_ticketbox.TicketTypes.Edit.{Updated, update_outcome}
use se_ticketbox.Gate.Load.{gates_of}
use se_ticketbox.Gate.Rebalance.{insert_by_name, sort_by_name, rebalance}
use se_ticketbox.Gate.Signed.{Signed}
use se_ticketbox.Gate.Shares.{NamesDiffer, Rebalances, rebalance-Rebalances}
use se_ticketbox.Concerts.{Ties, select_concerts, ConcertQuery, ConcertCache, query_concerts}
use se_ticketbox.Concerts.Manage.{Site, UpdateConcertDto, update_concert, is_order_of}
use se_ticketbox.Concerts.Fresh.{SeenAfter, update_concert-SeenAfter}
use se_ticketbox.Concerts.Paging.{none_starts, first_pages, selected, pages_cover}
use se_ticketbox.Concerts.Reminder.{Jobs}
use se_ticketbox.Tests.Data.{crypto, concert, ticket_type, ticket, waiting, settled}

one_type : Distinct settled.db.ticket_types
unfolding find
one_type = (refl, tt)

open_end : find 1 settled.db.ticket_types ≡ some ticket_type
unfolding find
open_end = refl

find_available-validate_example :
    find 1 (listed (available_rows 5 4 settled.db))
    ≡ accepted (validate_ticket_type 5 4 1 settled.db)
unfolding find
find_available-validate_example =
    find_available-validate 5 4 1 settled.db one_type (λ e. ground (arith, e))

abbrev create : CreateDto
create = record {
  name = codes "GA";
  price = 50;
  total_qty = 9;
  max_per_user = 2;
  sale_starts_at = 0;
  sale_ends_at = none;
  status = none;
}

abbrev update : UpdateDto
update = record {
  name = some (codes "VIP 2");
  price = none;
  total_qty = some 7;
  sold_qty = none;
  reserved_qty = none;
  max_per_user = none;
  sale_starts_at = none;
  sale_ends_at = none;
  status = none;
}

one_name : UniqueNames waiting.db.ticket_types
unfolding named
one_name c name = ground arith

edits-UniqueNames_example :
    UniqueNames (rows_after waiting (create_ticket_type 2 4 create 1 Role.organizer waiting))
    × UniqueNames (rows_after waiting (update_ticket_type 1 update 1 Role.organizer waiting))
    × UniqueNames (rows_left waiting (remove_ticket_type true 1 1 Role.organizer waiting))
edits-UniqueNames_example =
    edits-UniqueNames 2 4 1 create update true 1 Role.organizer waiting one_name

update_outcome_example :
    Updated 1 update 1 Role.organizer waiting (update_ticket_type 1 update 1 Role.organizer waiting)
update_outcome_example = update_outcome 1 update 1 Role.organizer waiting

-- Shorter texts come first.
abbrev shorter : Text → Text → Bool
shorter a b = ltb (length a) (length b)

abbrev other : Ticket
other = record ticket {
  id = codes "u";
  qr_signature = recompute_signature crypto (codes "u") ticket.qr_token_hash (codes "A");
}

abbrev ticketed : Db
ticketed = record settled.db { tickets = ticket ∷ other ∷ [] }

ticketed-Signed : All (Signed crypto) ticketed.tickets
unfolding recompute_signature
ticketed-Signed = (refl, (refl, tt))

two_names : NamesDiffer (sort_by_name shorter (gates_of 4 ticketed.gates))
unfolding sort_by_name insert_by_name gates_of text_eq
two_names zero zero h k = refl
two_names zero (suc zero) h k = refl
two_names (suc zero) zero h k = refl
two_names (suc zero) (suc zero) h k = refl
two_names (suc (suc i)) j h k = absurd (omega (arith, h))
two_names zero (suc (suc j)) h k = absurd (omega (arith, k))
two_names (suc zero) (suc (suc j)) h k = absurd (omega (arith, k))

two_gates : 1 < length (sort_by_name shorter (gates_of 4 ticketed.gates))
unfolding sort_by_name insert_by_name gates_of
two_gates = omega arith

rebalance-Rebalances_example :
    Rebalances shorter crypto 4 1 ticketed (rebalance shorter crypto 4 ticketed)
rebalance-Rebalances_example =
    rebalance-Rebalances shorter crypto 4 1 ticketed two_names two_gates ticketed-Signed

abbrev no_cache : ConcertCache
no_cache = record { lists = λ k. none; details = λ id. none }

abbrev no_jobs : Jobs
no_jobs id = none

abbrev site : Site
site = record { db = settled.db; cache = no_cache; jobs = no_jobs }

abbrev query : ConcertQuery
query = record { status = some ConcertStatus.sale_open; page = none; limit = none }

abbrev close_sale : UpdateConcertDto
close_sale = record { slug = none; starts_at = none; status = some ConcertStatus.sale_closed }

-- Orders of ties: the lower id first, and another one on every other page.
abbrev any_order : Ties
any_order i j = ltb i j

abbrev orders : ℕ → Ties
orders n i j = if n == 1 then ltb i j else ltb j i

update_concert-SeenAfter_example :
    SeenAfter any_order 9 4 query site.cache (update_concert 5 4 close_sale 1 Role.organizer site)
update_concert-SeenAfter_example =
    update_concert-SeenAfter any_order 5 9 4 close_sale 1 Role.organizer query site

pages_cover_example :
    first_pages orders query 2
      (query_concerts (orders 0) (record query { limit = some 2 }) settled.db).total_pages
      settled.db
    ≡ selected (orders 0) query settled.db
unfolding select_concerts none_starts
pages_cover_example = pages_cover orders query 2 settled.db (omega arith) (refl, tt)

found_concert : find 4 settled.db.concerts ≡ some concert
unfolding find
found_concert = refl

abbrev payment : Payment
payment = record {
  order_id = 8;
  status = PaymentStatus.success;
  amount = 200;
  provider_transaction_id = none;
  payment_url = none;
  received_at = none;
}

abbrev paid_site : Site
paid_site = record site { db = record settled.db { payments = payment ∷ [] } }

of_concert : is_order_of 4 (find 8 paid_site.db.orders) ≡ true
unfolding find
of_concert = refl
