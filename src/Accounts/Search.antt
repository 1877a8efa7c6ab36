-- ===== src/Accounts/Search.antt =====
-- The list of users: backend/src/modules/users/users.service.ts. Whether a text contains another one,
-- whatever their letters' case, is the database's answer and a parameter. The counts of orders and
-- tickets are left out.
use se_ticketbox.Prelude.{
  ℕ, Bool, true, false, ◌&&◌, ◌||◌, Option, none, some, [], ◌∷◌, reverse, if◌then◌else◌, length,
}
use se_ticketbox.Prelude.Text.{Text, is_empty}
use se_ticketbox.Store.{Role}
use se_ticketbox.Accounts.{User, Users}
use se_ticketbox.Concerts.{page_rows, total_pages}

abbrev pub same_role : Role → Role → Bool
same_role Role.customer Role.customer = true
same_role Role.organizer Role.organizer = true
same_role Role.staff Role.staff = true
same_role Role.admin Role.admin = true
same_role _ _ = false

abbrev pub contains_opt : (Text → Text → Bool) → Text → Option Text → Bool
contains_opt contains search none = false
contains_opt contains search (some s) = contains search s

-- The search, which an empty text leaves out.
abbrev pub matches_search : (Text → Text → Bool) → Option Text → User → Bool
matches_search contains none u = true
matches_search contains (some search) u =
    is_empty search
    || (contains search u.email
        || (contains_opt contains search u.full_name || contains_opt contains search u.phone))

abbrev pub matches_role : Option Role → User → Bool
matches_role none u = true
matches_role (some role) u = same_role u.role role

unfoldable pub filter_users : (User → Bool) → Users → Users
filter_users p [] = []
filter_users p ((id, u) ∷ us) = if p u then (id, u) ∷ filter_users p us else filter_users p us

pub record UserList : Type 0 where
  pub users : Users
  pub page : ℕ
  pub limit : ℕ
  pub total : ℕ
  pub total_pages : ℕ

-- `getUsers`, the newest first.
unfoldable pub get_users :
    (Text → Text → Bool) → ℕ → ℕ → Option Text → Option Role → Users → UserList
unfolding filter_users
get_users contains page limit search role us =
    let rows = filter_users (λ u. matches_search contains search u && matches_role role u) us in
    record {
      users = page_rows limit page (reverse rows);
      page = page;
      limit = limit;
      total = length rows;
      total_pages = total_pages (length rows) limit;
    }
