-- ===== src/Redis/Trace.antt =====
-- Every history of the inventory keys: script calls of any clients in any order, payments that
-- delete their reservation, and time that runs (RedisService and PaymentService).
use se_ticketbox.Prelude.{ℕ, ◌+◌, ◌≤◌, ◌<◌, arith}
use se_ticketbox.Prelude.Int.{pos, ◌≤ℤ◌, ◌+ℤ◌, ◌-ℤ◌}
use se_ticketbox.Prelude.Table.{total-put, total-remove, total_mono}
use se_ticketbox.Redis.{
  Redis, Reservation, Hold, reserve_ticket, release_reservation, del_reservation,
}
use se_ticketbox.Redis.Laws.{
  share, share_by, held, held_by, stock_of, counter_of, new_reservation, reserve_ticket_conserves,
  release_reservation_conserves,
}

-- The purchase limit of each ticket type does not change, and a hold lasts for some time.
module _ (limit : ℕ → ℕ) where
  pub data Step : ℕ → Redis → ℕ → Redis → Type 0 where
    reserve :
        (now ttl : ℕ) (h : Hold) (s : Redis)
        → 0 < ttl
        → Step now s now (reserve_ticket now ttl (limit h.ticket_type_id) h s).1
    release : (now : ℕ) (h : Hold) (s : Redis) → Step now s now (release_reservation now h s).1
    paid : (now order_id : ℕ) (s : Redis) → Step now s now (del_reservation order_id s)
    elapse : (now d : ℕ) (s : Redis) → Step now s (now + d) s

  pub data Reach (start : ℕ) (r : Redis) : ℕ → Redis → Type 0 where
    here : Reach start r start r
    next : {m n : ℕ} {s s' : Redis} → Reach start r m s → Step m s n s' → Reach start r n s'

  share_later : (now d t : ℕ) (r : Reservation) → share (now + d) t r ≤ share now t r
  share_later now d t r = ground arith

  share_by_later : (now d u t : ℕ) (r : Reservation) → share_by (now + d) u t r ≤ share_by now u t r
  share_by_later now d u t r = ground arith

  -- No step adds to the free and held tickets of a type.
  pub Step-stock :
      {m n : ℕ} {s s' : Redis} (t : ℕ)
      → Step m s n s'
      → stock_of t s' + held n t s' ≤ stock_of t s + held m t s
  unfolding del_reservation
  Step-stock t (reserve now ttl h s lasts) =
      omega (arith, reserve_ticket_conserves now ttl (limit h.ticket_type_id) t h s lasts)
  Step-stock t (release now h s) = omega (arith, release_reservation_conserves now t h s)
  Step-stock t (paid now order_id s) =
      omega (arith, total-remove (share now t) order_id s.reservations)
  Step-stock t (elapse now d s) =
      omega
        (arith, total_mono (share (now + d) t) (share now t) s.reservations (share_later now d t))

  -- However requests interleave, the live reservations of a type and the stock that is left never
  -- exceed what there was at the start.
  pub Reach-stock :
      {start : ℕ} {r : Redis} {now : ℕ} {s : Redis} (t : ℕ)
      → Reach start r now s
      → stock_of t s + held now t s ≤ stock_of t r + held start t r
  Reach-stock t here = omega arith
  Reach-stock t (next r st) = omega (arith, Reach-stock t r, Step-stock t st)

  -- A user's counter covers what the user holds, and does not exceed the limit.
  pub record UserBound (now u t : ℕ) (s : Redis) : Type 0 where
    pub covered : pos (held_by now u t s) ≤ℤ counter_of u t s
    pub limited : counter_of u t s ≤ℤ pos (limit t)

  reserve-UserBound :
      (now ttl : ℕ) (h : Hold) (s : Redis) (u t : ℕ)
      → UserBound now u t s
      → UserBound now u t (reserve_ticket now ttl (limit h.ticket_type_id) h s).1
  unfolding reserve_ticket ◌+ℤ◌
  reserve-UserBound now ttl h s u t b =
      ground
        (arith, total-put (share_by now u t) h.order_id (new_reservation now ttl h) s.reservations)

  release-UserBound :
      (now : ℕ) (h : Hold) (s : Redis) (u t : ℕ)
      → UserBound now u t s
      → UserBound now u t (release_reservation now h s).1
  unfolding release_reservation ◌-ℤ◌
  release-UserBound now h s u t b =
      ground (arith, total-remove (share_by now u t) h.order_id s.reservations)

  Step-UserBound :
      {m n : ℕ} {s s' : Redis} (u t : ℕ) → Step m s n s' → UserBound m u t s → UserBound n u t s'
  unfolding del_reservation
  Step-UserBound u t (reserve now ttl h s lasts) b = reserve-UserBound now ttl h s u t b
  Step-UserBound u t (release now h s) b = release-UserBound now h s u t b
  Step-UserBound u t (paid now order_id s) b = record {
    covered = omega (arith, b.covered, total-remove (share_by now u t) order_id s.reservations);
    limited = b.limited;
  }
  Step-UserBound u t (elapse now d s) b = record {
    covered = omega (
      arith,
      b.covered,
      total_mono (share_by (now + d) u t) (share_by now u t) s.reservations
          (share_by_later now d u t),
    );
    limited = b.limited;
  }

  Reach-UserBound :
      {start : ℕ} {r : Redis} {now : ℕ} {s : Redis} (u t : ℕ)
      → Reach start r now s
      → UserBound start u t r
      → UserBound now u t s
  Reach-UserBound u t here b = b
  Reach-UserBound u t (next rc st) b = Step-UserBound u t st (Reach-UserBound u t rc b)

  -- However requests interleave, the tickets of a type that one user holds in live reservations
  -- never exceed the limit, from any state in which the user's counter covers the tickets held and
  -- is within the limit.
  pub Reach-limit :
      {start : ℕ} {r : Redis} {now : ℕ} {s : Redis} (u t : ℕ)
      → Reach start r now s
      → UserBound start u t r
      → held_by now u t s ≤ limit t
  Reach-limit u t rc b = let w = Reach-UserBound u t rc b in omega (arith, w.covered, w.limited)
