-- ===== src/Concerts/Fresh.antt =====
-- What readers see after a change of a concert
-- (backend/src/modules/concert/concert.service.ts).
use se_ticketbox.Prelude.{
  ℕ, ◌≡◌, Bool, true, false, not, ◌&&◌, ◌==◌, if◌then◌else◌, arith, Option-cases, inl, inr,
}
use se_ticketbox.Prelude.Table.{find}
use se_ticketbox.Store.{Db, Role, Error, forbidden, conflict, Result, ok, err, guard, ◌>>◌}
use se_ticketbox.TicketTypes.{or_else}
use se_ticketbox.Concerts.{
  Ties, ConcertQuery, concert_list, same_list_key, list_cache_key, ConcertDetail, ConcertCache,
  cache_get, invalidate_cache, query_concerts, find_all_concerts, visible_concert, find_one_concert,
  detail_of, is_organizer,
}
use se_ticketbox.Concerts.Manage.{
  Site, UpdateConcertDto, updated_concert, reschedules, put_concert, update_concert, with_reminder,
  slug_conflict,
}
use se_ticketbox.Concerts.Reminder.{schedule_reminder}

-- What readers get at a time `later`, from a database and the cache after a concert was invalidated
-- in the cache `c`.
abbrev pub Seen : Ties → ℕ → ℕ → ConcertQuery → Db → ConcertCache → ConcertCache → Type 0
Seen ties later id q db c c' =
    let k = list_cache_key q in
    ((find_one_concert later id db c').0 ≡ visible_concert id db)
    × ((find_all_concerts ties later q db c').0 ≡ (
        if same_list_key concert_list k
        then query_concerts ties q db
        else or_else (cache_get later (c.lists k)) (query_concerts ties q db)))

invalidate-Seen :
    (ties : Ties) (later id : ℕ) (q : ConcertQuery) (db : Db) (c : ConcertCache)
    → Seen ties later id q db c (invalidate_cache id c)
unfolding invalidate_cache find_one_concert find_all_concerts
invalidate-Seen ties later id q db c = ground arith

abbrev pub SeenAfter :
    Ties → ℕ → ℕ → ConcertQuery → ConcertCache → Result (ConcertDetail × Site) → Type 0
SeenAfter ties later id q c (err e) = Unit
SeenAfter ties later id q c (ok (r, s)) = Seen ties later id q s.db c s.cache

guard-SeenAfter :
    (ties : Ties) (later id : ℕ) (q : ConcertQuery) (c : ConcertCache) (b : Bool) (e : Error)
    (r : Result (ConcertDetail × Site))
    → SeenAfter ties later id q c r
    → SeenAfter ties later id q c (guard b e >> r)
guard-SeenAfter ties later id q c true e r h = h
guard-SeenAfter ties later id q c false e r h = tt

if-SeenAfter :
    (ties : Ties) (later id : ℕ) (q : ConcertQuery) (c : ConcertCache) (v : ConcertDetail)
    (b : Bool) (s t : Site)
    → Seen ties later id q s.db c s.cache
    → Seen ties later id q t.db c t.cache
    → SeenAfter ties later id q c (ok (v, if b then s else t))
if-SeenAfter ties later id q c v true s t h k = h
if-SeenAfter ties later id q c v false s t h k = k

-- After an update that goes through, readers get the concert as it now is, and the first page of the
-- published concerts as it now is. A list of another status, page or size stays as it was cached,
-- until its entry expires.
pub update_concert-SeenAfter :
    (ties : Ties) (now later id : ℕ) (dto : UpdateConcertDto) (user : ℕ) (role : Role)
    (q : ConcertQuery) (s : Site)
    → SeenAfter ties later id q s.cache (update_concert now id dto user role s)
unfolding update_concert
update_concert-SeenAfter ties now later id dto user role q s =
    elim (Option-cases (find id s.db.concerts)) [
      | inl e ↦ rw (e, update_concert) tt
      | inr (x, e) ↦
          let y = updated_concert dto x in
          let db = put_concert id y s.db in
          let cache = invalidate_cache id s.cache in
          let scheduled = schedule_reminder now id (db, s.jobs) in
          let later_on = with_reminder scheduled cache in
          let at_once : Site = record { db = db; cache = cache; jobs = s.jobs } in
          let allowed = not (is_organizer role && not (x.organizer_id == user)) in
          let free = not (slug_conflict dto.slug x s.db.concerts) in
          let done : Result (ConcertDetail × Site) =
            ok (detail_of id y db, if reschedules dto x then later_on else at_once) in
          let seen =
            if-SeenAfter ties later id q s.cache (detail_of id y db) (reschedules dto x) later_on
              at_once (invalidate-Seen ties later id q scheduled.0 s.cache)
              (invalidate-Seen ties later id q db s.cache) in
          rw (e, update_concert)
            (guard-SeenAfter ties later id q s.cache allowed forbidden (guard free conflict >> done)
              (guard-SeenAfter ties later id q s.cache free conflict done seen))
    ]
