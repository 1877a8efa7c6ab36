-- ===== src/Concerts.antt =====
-- The lists and details of concerts and their cache in Redis: the queries of
-- backend/src/modules/concert/concert.service.ts. Redis answers, so the `catch` branches of the cache
-- are not modelled, and neither are the texts that only pass through.
pub mod Reminder
pub mod Manage
pub mod Paging
pub mod Fresh
pub mod Removal
use se_ticketbox.Prelude.{
  ℕ, zero, suc, ◌+◌, ◌-◌, ◌*◌, ◌/◌, Bool, true, false, not, ◌&&◌, ◌||◌, Option, none, some, List,
  [], ◌∷◌, ltb, leb, ◌==◌, if◌then◌else◌, length, take,
}
use se_ticketbox.Prelude.Table.{Table, find}
use se_ticketbox.Prelude.Text.{Text, text_eq}
use se_ticketbox.Store.{
  Db, Role, Concert, ConcertStatus, TicketType, not_found, forbidden, Result, ok, err, ◌>>=◌, ◌>>◌,
  or_fail, guard,
}
use se_ticketbox.TicketTypes.{or_else}
use se_ticketbox.TicketTypes.Listing.{select_types}

-- `ConcertQueryDto`.
pub record ConcertQuery : Type 0 where
  pub status : Option ConcertStatus
  pub page : Option ℕ
  pub limit : Option ℕ

abbrev pub page_of : ConcertQuery → ℕ
page_of q = or_else q.page 1

abbrev pub limit_of : ConcertQuery → ℕ
limit_of q = or_else q.limit 20

abbrev pub status_of : ConcertQuery → ConcertStatus
status_of q = or_else q.status ConcertStatus.published

abbrev pub same_concert_status : ConcertStatus → ConcertStatus → Bool
same_concert_status ConcertStatus.draft ConcertStatus.draft = true
same_concert_status ConcertStatus.published ConcertStatus.published = true
same_concert_status ConcertStatus.sale_open ConcertStatus.sale_open = true
same_concert_status ConcertStatus.sale_closed ConcertStatus.sale_closed = true
same_concert_status ConcertStatus.cancelled ConcertStatus.cancelled = true
same_concert_status ConcertStatus.completed ConcertStatus.completed = true
same_concert_status _ _ = false

-- `cache:concert:list` and `cache:concert:list:{status}:{page}:{limit}`.
pub data ListKey : Type 0 where
  concert_list : ListKey
  concert_list_query : ConcertStatus → (page limit : ℕ) → ListKey

abbrev pub same_list_key : ListKey → ListKey → Bool
same_list_key concert_list concert_list = true
same_list_key (concert_list_query s p l) (concert_list_query t q m) =
    same_concert_status s t && (p == q && l == m)
same_list_key _ _ = false

-- `listCacheKey`.
unfoldable pub list_cache_key : ConcertQuery → ListKey
list_cache_key q =
    if same_concert_status (status_of q) ConcertStatus.published
      && (page_of q == 1 && limit_of q == 20)
    then concert_list
    else concert_list_query (status_of q) (page_of q) (limit_of q)

-- `ConcertListResponseDto`.
pub record ConcertList : Type 0 where
  pub concerts : Table Concert
  pub total : ℕ
  pub page : ℕ
  pub limit : ℕ
  pub total_pages : ℕ

-- `ConcertResponseDto`: the concert with its ticket types, the dearest first.
pub record ConcertDetail : Type 0 where
  pub id : ℕ
  pub concert : Concert
  pub ticket_types : Table TicketType

-- A cached value, and when Redis drops it.
pub record Entry (A : Type 0) : Type 0 where
  pub value : A
  pub expires_at : ℕ

pub record ConcertCache : Type 0 where
  pub lists : ListKey → Option (Entry ConcertList)
  pub details : ℕ → Option (Entry ConcertDetail)

-- REDIS_TTL_CONCERT_CACHE.
abbrev pub concert_ttl_seconds : ℕ
concert_ttl_seconds = 60

abbrev pub entry : {A : Type 0} → ℕ → A → Entry A
entry now a = record { value = a; expires_at = now + concert_ttl_seconds * 1000 }

-- `cacheGet`.
abbrev pub cache_get : {A : Type 0} → ℕ → Option (Entry A) → Option A
cache_get now none = none
cache_get now (some e) = if ltb now e.expires_at then some e.value else none

-- `cacheSet` of a list and of a concert.
unfoldable pub cache_list : ℕ → ListKey → ConcertList → ConcertCache → ConcertCache
cache_list now k v c = record c {
  lists = λ j. if same_list_key k j then some (entry now v) else c.lists j;
}

unfoldable pub cache_detail : ℕ → ℕ → ConcertDetail → ConcertCache → ConcertCache
cache_detail now id v c = record c {
  details = λ j. if id == j then some (entry now v) else c.details j;
}

-- `invalidateCache` of a concert.
unfoldable pub invalidate_cache : ℕ → ConcertCache → ConcertCache
invalidate_cache id c = record {
  lists = λ k. if same_list_key concert_list k then none else c.lists k;
  details = λ j. if id == j then none else c.details j;
}

-- What the database makes of two rows with the same start, by their ids: whether the first one comes
-- first. It can differ from one query to the next.
abbrev pub Ties : Type 0
Ties = ℕ → ℕ → Bool

-- `orderBy: { startsAt: 'asc' }` and a condition.
unfoldable pub insert_by_start : Ties → ℕ → Concert → Table Concert → Table Concert
insert_by_start ties id x [] = (id, x) ∷ []
insert_by_start ties id x ((j, y) ∷ m) =
    if ltb x.starts_at y.starts_at || (x.starts_at == y.starts_at && ties id j)
    then (id, x) ∷ (j, y) ∷ m
    else (j, y) ∷ insert_by_start ties id x m

unfoldable pub select_concerts : Ties → (Concert → Bool) → Table Concert → Table Concert
unfolding insert_by_start
select_concerts ties p [] = []
select_concerts ties p ((id, x) ∷ m) =
    let rest = select_concerts ties p m in if p x then insert_by_start ties id x rest else rest

abbrev pub drop {ℓ} : {A : Type ℓ} → ℕ → List A → List A
drop zero xs = xs
drop (suc n) [] = []
drop (suc n) (x ∷ xs) = drop n xs

-- `skip` and `take`.
abbrev pub page_rows {ℓ} : {A : Type ℓ} → (limit page : ℕ) → List A → List A
page_rows limit page xs = take limit (drop ((page - 1) * limit) xs)

-- `Math.ceil(total / limit)`.
abbrev pub total_pages : ℕ → ℕ → ℕ
total_pages total limit = (total + limit - 1) / limit

-- The answer of a query without the cache.
abbrev pub list_of : ConcertQuery → Table Concert → ConcertList
list_of q rows = record {
  concerts = page_rows (limit_of q) (page_of q) rows;
  total = length rows;
  page = page_of q;
  limit = limit_of q;
  total_pages = total_pages (length rows) (limit_of q);
}

unfoldable pub query_concerts : Ties → ConcertQuery → Db → ConcertList
unfolding select_concerts
query_concerts ties q db =
    list_of q (select_concerts ties (λ x. same_concert_status x.status (status_of q)) db.concerts)

-- `findAll`.
unfoldable pub find_all_concerts :
    Ties → ℕ → ConcertQuery → Db → ConcertCache → ConcertList × ConcertCache
unfolding cache_list query_concerts list_cache_key
find_all_concerts ties now q db c =
    let k = list_cache_key q in
    let result = query_concerts ties q db in
    elim (cache_get now (c.lists k)) [
      | some cached ↦ (cached, c)
      | none ↦ (result, cache_list now k result c)
    ]

abbrev pub detail_of : ℕ → Concert → Db → ConcertDetail
detail_of id x db = record {
  id = id;
  concert = x;
  ticket_types = select_types (λ row. row.concert_id == id) db.ticket_types;
}

abbrev pub is_draft : ConcertStatus → Bool
is_draft ConcertStatus.draft = true
is_draft _ = false

-- The rows behind `findOne`: drafts are hidden.
unfoldable pub visible_concert : ℕ → Db → Result ConcertDetail
visible_concert id db = do
  x ← or_fail (find id db.concerts) not_found
  guard (not (is_draft x.status)) not_found
  ok (detail_of id x db)

abbrev pub cache_result : ℕ → ℕ → Result ConcertDetail → ConcertCache → ConcertCache
cache_result now id (err e) c = c
cache_result now id (ok v) c = cache_detail now id v c

-- `findOne`.
unfoldable pub find_one_concert : ℕ → ℕ → Db → ConcertCache → Result ConcertDetail × ConcertCache
unfolding visible_concert cache_detail
find_one_concert now id db c =
    let result = visible_concert id db in
    elim (cache_get now (c.details id)) [
      | some cached ↦ (ok cached, c)
      | none ↦ (result, cache_result now id result c)
    ]

-- `findUnique` by the slug.
unfoldable pub find_slug : Text → Table Concert → Option (ℕ × Concert)
find_slug slug [] = none
find_slug slug ((id, x) ∷ m) = if text_eq x.slug slug then some (id, x) else find_slug slug m

abbrev pub shown_detail : Db → ℕ × Concert → Result ConcertDetail
shown_detail db (id, x) = guard (not (is_draft x.status)) not_found >> ok (detail_of id x db)

-- `findBySlug`, which goes past the cache.
unfoldable pub find_by_slug : Text → Db → Result ConcertDetail
unfolding find_slug
find_by_slug slug db = or_fail (find_slug slug db.concerts) not_found >>= shown_detail db

abbrev pub is_organizer : Role → Bool
is_organizer Role.organizer = true
is_organizer _ = false

abbrev pub matches_status : Option ConcertStatus → Concert → Bool
matches_status none x = true
matches_status (some s) x = same_concert_status x.status s

-- `findAdminAll` for a user with a role.
unfoldable pub find_admin_all : Ties → ConcertQuery → ℕ → Role → Db → ConcertList
unfolding select_concerts
find_admin_all ties q user role db = list_of q (
    select_concerts ties
      (λ x.
        matches_status q.status x && (if is_organizer role then x.organizer_id == user else true))
      db.concerts)

-- `findAdminOne`.
unfoldable pub find_admin_one : ℕ → ℕ → Role → Db → Result ConcertDetail
find_admin_one id user role db = do
  x ← or_fail (find id db.concerts) not_found
  guard (not (is_organizer role && not (x.organizer_id == user))) forbidden
  ok (detail_of id x db)
