-- ===== src/Concerts/Manage.antt =====
-- The changes of concerts: `create`, `update` and `remove` of
-- backend/src/modules/concert/concert.service.ts. The reminder and the cache, whose calls are not
-- awaited, come after the writes here.
use se_ticketbox.Prelude.{
  ℕ, ◌+◌, Bool, true, false, not, ◌&&◌, ◌||◌, Option, none, some, List, [], ◌∷◌, ◌++◌, ◌==◌,
  if◌then◌else◌,
}
use se_ticketbox.Prelude.Table.{Table, find, put, remove}
use se_ticketbox.Prelude.Text.{Text, text_eq, is_empty}
use se_ticketbox.Store.{
  Db, Role, Concert, ConcertStatus, TicketType, Order, OrderStatus, Payment, Ticket, not_found,
  bad_request, forbidden, conflict, database, Result, ok, ◌>>=◌, ◌>>◌, or_fail, guard,
}
use se_ticketbox.Order.Validate.{sells}
use se_ticketbox.TicketTypes.{or_else, is_some}
use se_ticketbox.Concerts.{
  ConcertCache, invalidate_cache, find_slug, is_organizer, same_concert_status, ConcertDetail,
  detail_of,
}
use se_ticketbox.Concerts.Reminder.{Jobs, schedule_reminder}

-- The database, the cache and the reminders.
pub record Site : Type 0 where
  pub db : Db
  pub cache : ConcertCache
  pub jobs : Jobs

abbrev pub with_reminder : Db × Jobs → ConcertCache → Site
with_reminder (db, jobs) cache = record { db = db; cache = cache; jobs = jobs }

-- `CreateConcertDto`, less the texts.
pub record CreateConcertDto : Type 0 where
  pub slug : Text
  pub starts_at : ℕ
  pub status : Option ConcertStatus
  pub organizer_id : Option ℕ

abbrev pub new_concert : CreateConcertDto → ℕ → Concert
new_concert dto fallback = record {
  organizer_id = or_else dto.organizer_id fallback;
  slug = dto.slug;
  starts_at = dto.starts_at;
  reminder_job_id = none;
  status = or_else dto.status ConcertStatus.draft;
}

abbrev pub add_concert : ℕ → Concert → Db → Db
add_concert id x db = record db { concerts = db.concerts ++ (id, x) ∷ [] }

-- `create`; `id` is the one that the database draws.
unfoldable pub create_concert : ℕ → ℕ → CreateConcertDto → ℕ → Site → Result Site
unfolding schedule_reminder
create_concert now id dto fallback s = do
  guard (not (is_some (find_slug dto.slug s.db.concerts))) conflict
  let x = new_concert dto fallback
  let db = add_concert id x s.db
  ok (
      if sells x.status
      then with_reminder (schedule_reminder now id (db, s.jobs)) (invalidate_cache id s.cache)
      else record s { db = db })

-- `UpdateConcertDto`, less the texts.
pub record UpdateConcertDto : Type 0 where
  pub slug : Option Text
  pub starts_at : Option ℕ
  pub status : Option ConcertStatus

-- `dto.slug && dto.slug !== existing.slug`, and a concert that has it.
abbrev pub slug_conflict : Option Text → Concert → Table Concert → Bool
slug_conflict none x m = false
slug_conflict (some slug) x m =
    (not (is_empty slug) && not (text_eq slug x.slug)) && is_some (find_slug slug m)

abbrev pub updated_concert : UpdateConcertDto → Concert → Concert
updated_concert dto x = record x {
  slug = or_else dto.slug x.slug;
  starts_at = or_else dto.starts_at x.starts_at;
  status = or_else dto.status x.status;
}

-- Does the start or the status change?
abbrev pub reschedules : UpdateConcertDto → Concert → Bool
reschedules dto x =
    not (or_else dto.starts_at x.starts_at == x.starts_at)
    || not (same_concert_status (or_else dto.status x.status) x.status)

abbrev pub put_concert : ℕ → Concert → Db → Db
put_concert id x db = record db { concerts = put id x db.concerts }

-- `update`. Only an organizer's concerts are looked at.
unfoldable pub update_concert :
    ℕ → ℕ → UpdateConcertDto → ℕ → Role → Site → Result (ConcertDetail × Site)
unfolding schedule_reminder
update_concert now id dto user role s = do
  x ← or_fail (find id s.db.concerts) not_found
  guard (not (is_organizer role && not (x.organizer_id == user))) forbidden
  guard (not (slug_conflict dto.slug x s.db.concerts)) conflict
  let y = updated_concert dto x
  let db = put_concert id y s.db
  let cache = invalidate_cache id s.cache
  ok (
    detail_of id y db,
    if reschedules dto x
        then with_reminder (schedule_reminder now id (db, s.jobs)) cache
        else (record { db = db; cache = cache; jobs = s.jobs }),
  )

abbrev pub is_open_order : OrderStatus → Bool
is_open_order OrderStatus.pending_payment = true
is_open_order OrderStatus.paid = true
is_open_order _ = false

-- The orders of a concert that are pending or paid.
unfoldable pub open_orders : ℕ → Table Order → ℕ
open_orders concert_id [] = 0
open_orders concert_id ((id, o) ∷ m) =
    (if o.concert_id == concert_id && is_open_order o.status then 1 else 0)
    + open_orders concert_id m

abbrev pub is_order_of : ℕ → Option Order → Bool
is_order_of concert_id none = false
is_order_of concert_id (some o) = o.concert_id == concert_id

-- A payment that refers to an order of the concert, whose deletion it forbids.
unfoldable pub has_payment : ℕ → Table Order → List Payment → Bool
has_payment concert_id orders [] = false
has_payment concert_id orders (p ∷ ps) =
    is_order_of concert_id (find p.order_id orders) || has_payment concert_id orders ps

-- A ticket type of the concert that a counter refers to, which forbids its deletion. `counted` says
-- to which types a row of UserTicketCounter refers.
unfoldable pub has_counter : (ℕ → Bool) → ℕ → Table TicketType → Bool
has_counter counted concert_id [] = false
has_counter counted concert_id ((t, row) ∷ m) =
    (row.concert_id == concert_id && counted t) || has_counter counted concert_id m

-- The rows that do not belong to a concert.
unfoldable pub keep_rows {ℓ} : {A : Type ℓ} → (A → ℕ) → ℕ → Table A → Table A
keep_rows f concert_id [] = []
keep_rows f concert_id ((id, a) ∷ m) =
    if f a == concert_id then keep_rows f concert_id m else (id, a) ∷ keep_rows f concert_id m

unfoldable pub keep_tickets : ℕ → List Ticket → List Ticket
keep_tickets concert_id [] = []
keep_tickets concert_id (t ∷ ts) =
    if t.concert_id == concert_id
    then keep_tickets concert_id ts
    else t ∷ keep_tickets concert_id ts

-- The transaction. The order items go with their orders, and the database removes the gates.
unfoldable pub delete_rows : ℕ → Db → Db
unfolding keep_rows keep_tickets
delete_rows id db = record db {
  tickets = keep_tickets id db.tickets;
  orders = keep_rows (λ o. o.concert_id) id db.orders;
  ticket_types = keep_rows (λ row. row.concert_id) id db.ticket_types;
  gates = keep_rows (λ g. g.concert_id) id db.gates;
  concerts = remove id db.concerts;
}

-- `remove`. The transaction fails as a whole where a foreign key forbids a deletion.
unfoldable pub remove_concert : (ℕ → Bool) → ℕ → Site → Result Site
unfolding open_orders has_payment has_counter delete_rows
remove_concert counted id s = do
  x ← or_fail (find id s.db.concerts) not_found
  guard (open_orders id s.db.orders == 0) bad_request
  guard (not (has_payment id s.db.orders s.db.payments)) database
  guard (not (has_counter counted id s.db.ticket_types)) database
  ok (record s { db = delete_rows id s.db; cache = invalidate_cache id s.cache })
