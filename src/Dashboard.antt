-- ===== src/Dashboard.antt =====
-- The figures of the administration: `getDashboardStats`, `listUsers` and `getSystemHealth` of
-- backend/src/modules/admin/admin.service.ts. Titles, latencies and uptimes are left out.
pub mod Revenue
use se_ticketbox.Prelude.{
  ℕ, ◌+◌, suc, Bool, true, false, not, ◌&&◌, ◌||◌, Option, none, some, List, [], ◌∷◌, reverse, ◌==◌,
  if◌then◌else◌, length,
}
use se_ticketbox.Prelude.Table.{Table, find}
use se_ticketbox.Prelude.Text.{Text, codes, text_eq}
use se_ticketbox.Store.{Db, Role, Concert, ConcertStatus, Order, Ticket}
use se_ticketbox.Gate.Load.{is_active}
use se_ticketbox.Order.Validate.{sells}
use se_ticketbox.Order.Queries.{is_paid, is_organizer}
use se_ticketbox.Accounts.{User, Users}
use se_ticketbox.Accounts.Search.{contains_opt, matches_role, filter_users, UserList}
use se_ticketbox.Concerts.{page_rows, total_pages}

-- `isOrganizer`, and the condition that a row's concert is the organizer's own.
abbrev pub sees_own_only : Role → Bool
sees_own_only Role.organizer = true
sees_own_only _ = false

abbrev pub sees : Db → ℕ → Role → ℕ → Bool
sees db user role concert_id =
    not (sees_own_only role) || is_organizer user (find concert_id db.concerts)

abbrev pub counts_order : Db → ℕ → Role → Order → Bool
counts_order db user role o = is_paid o.status && sees db user role o.concert_id

-- `aggregate` with `_sum`.
unfoldable pub sum_orders : (Order → Bool) → Table Order → ℕ
sum_orders p [] = 0
sum_orders p ((id, o) ∷ m) = if p o then o.total_amount + sum_orders p m else sum_orders p m

unfoldable pub count_tickets : (Ticket → Bool) → List Ticket → ℕ
count_tickets p [] = 0
count_tickets p (t ∷ ts) = if p t then suc (count_tickets p ts) else count_tickets p ts

unfoldable pub count_concerts : (Concert → Bool) → Table Concert → ℕ
count_concerts p [] = 0
count_concerts p ((id, c) ∷ m) = if p c then suc (count_concerts p m) else count_concerts p m

-- `groupBy` with `_sum`: the sums, by concert.
unfoldable pub add_revenue : ℕ → ℕ → Table ℕ → Table ℕ
add_revenue c n [] = (c, n) ∷ []
add_revenue c n ((j, k) ∷ m) = if j == c then (j, k + n) ∷ m else (j, k) ∷ add_revenue c n m

unfoldable pub group_orders : (Order → Bool) → Table Order → Table ℕ
unfolding add_revenue
group_orders p [] = []
group_orders p ((id, o) ∷ m) =
    if p o then add_revenue o.concert_id o.total_amount (group_orders p m) else group_orders p m

pub record DashboardStats : Type 0 where
  pub total_revenue : ℕ
  pub tickets_sold : ℕ
  pub active_concerts : ℕ
  pub revenue_by_concert : Table ℕ

-- `getDashboardStats`.
unfoldable pub get_dashboard_stats : ℕ → Role → Db → DashboardStats
unfolding sum_orders count_tickets count_concerts group_orders
get_dashboard_stats user role db = record {
  total_revenue = sum_orders (counts_order db user role) db.orders;
  tickets_sold =
      count_tickets (λ t. is_active t.status && sees db user role t.concert_id) db.tickets;
  active_concerts =
      count_concerts (λ c. sells c.status && (not (sees_own_only role) || c.organizer_id == user))
        db.concerts;
  revenue_by_concert = group_orders (counts_order db user role) db.orders;
}

abbrev pub matches_name : (Text → Text → Bool) → (Text → Text) → Option Text → User → Bool
matches_name contains lower none u = true
matches_name contains lower (some []) u = true
matches_name contains lower (some (c ∷ s)) u =
    let search = lower (c ∷ s) in
    contains search u.email || contains_opt contains search u.full_name

abbrev pub or_default : ℕ → Option ℕ → ℕ
or_default n none = n
or_default n (some m) = m

-- `listUsers`, where `toLowerCase` and the database's search are parameters.
unfoldable pub list_users :
    (Text → Text → Bool)
    → (Text → Text)
    → (page limit : Option ℕ) → Option Text
    → Option Role
    → Users
    → UserList
unfolding filter_users
list_users contains lower page limit search role us =
    let rows = filter_users (λ u. matches_name contains lower search u && matches_role role u) us in
    let p = or_default 1 page in
    let l = or_default 20 limit in
    record {
      users = page_rows l p (reverse rows);
      page = p;
      limit = l;
      total = length rows;
      total_pages = total_pages (length rows) l;
    }

pub data Health : Type 0 where
  healthy degraded down : Health

pub record SystemHealth : Type 0 where
  pub status : Health
  pub postgres : Bool
  pub redis : Bool
  pub bullmq : Bool

-- `checkRedisHealth` and `checkBullmqHealth`: the reply of a ping, if there is one.
abbrev pub is_pong : Option Text → Bool
is_pong none = false
is_pong (some reply) = text_eq reply (codes "PONG")

abbrev pub health_of : Bool → Bool → Bool → Health
health_of true true true = healthy
health_of false false false = down
health_of _ _ _ = degraded

-- `getSystemHealth`, given whether the database answers and the replies to the two pings.
unfoldable pub get_system_health : Bool → (ping queue_ping : Option Text) → SystemHealth
get_system_health db_answers ping queue_ping =
    let redis = is_pong ping in
    let bullmq = is_pong queue_ping in
    record {
      status = health_of db_answers redis bullmq;
      postgres = db_answers;
      redis = redis;
      bullmq = bullmq;
    }
