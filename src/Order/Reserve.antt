-- ===== src/Order/Reserve.antt =====
-- The reservation stage of `createOrder` (backend/src/modules/order/order.service.ts): orders of one
-- and of several ticket types, and what the rollback covers.
use se_ticketbox.Prelude.{
  ℕ, ◌+◌, ◌<◌, ◌≡◌, inl, inr, refl, Bool, true, false, Option, none, some, List, [], ◌∷◌, arith,
}
use se_ticketbox.Prelude.Int.{ℤ, pos, ◌≤ℤ◌}
use se_ticketbox.Prelude.Table.{find-put}
use se_ticketbox.Redis.{
  Redis, Reservation, Hold, LuaReply, LuaError, success, failure, get_reservation, reserve_ticket,
}
use se_ticketbox.Redis.Laws.{stock_of, counter_of, new_reservation, release-reserve}
use se_ticketbox.Store.{Result-cases, Db, Result, ok, err, unprocessable}
use se_ticketbox.World.{World, Action, ◌>>=◌, ◌>>◌, set_redis, release_holds}
use se_ticketbox.Payment.Url.{PaymentUrl}
use se_ticketbox.Order.Validate.{Meta, ItemDto, collect_meta, seed_all}
use se_ticketbox.Order.Create.{
  Sale, ttl_of, meta_hold, reserve_all, failed_index, reserve_stage, persist_stage, sync_stage,
  pay_stage, schedule, create_order,
}

abbrev Refused : LuaReply × Redis → Redis → Type 0
Refused (success n m, s') s = ⊥
Refused (failure e, s') s = s' ≡ s

-- A script call that finds the order's reservation is refused and changes nothing.
reserve_again :
    (now ttl max : ℕ) (h : Hold) (s : Redis) (r : Reservation)
    → get_reservation now h.order_id s ≡ some r
    → Refused (reserve_ticket now ttl max h s) s
unfolding reserve_ticket get_reservation
reserve_again now ttl max h s r there = ground arith

Refused-eq :
    (p : LuaReply × Redis) (s : Redis) → Refused p s → (e : LuaError) × (p ≡ (failure e, s))
Refused-eq (success n m, s') s h = absurd h
Refused-eq (failure e, s') s h = (e, ground arith)

-- With a live reservation of the order every further call is refused, and nothing changes.
reserve_all_again :
    (now ttl u o : ℕ) (ms : List Meta) (s : Redis) (r : Reservation)
    → get_reservation now o s ≡ some r
    → (reserve_all now ttl u o ms s).1 ≡ s
unfolding reserve_all
reserve_all_again now ttl u o [] s r there = refl
reserve_all_again now ttl u o (m ∷ ms) s r there =
    let h = meta_hold u o m in
    let (e, same) = Refused-eq _ s (reserve_again now ttl m.max_per_user h s r there) in
    rw same (reserve_all_again now ttl u o ms s r there)

-- After a successful call the order has a live reservation, if the hold lasts for some time.
reserved_live :
    (now ttl max : ℕ) (h : Hold) (s s' : Redis) {n : ℕ} {m : ℤ}
    → 0 < ttl
    → reserve_ticket now ttl max h s ≡ (success n m, s')
    → get_reservation now h.order_id s' ≡ some (new_reservation now ttl h)
unfolding reserve_ticket get_reservation
reserved_live now ttl max h s s' lasts done =
    ground (arith, find-put h.order_id h.order_id (new_reservation now ttl h) s.reservations)

reserved_stock :
    (now ttl max : ℕ) (h : Hold) (s s' : Redis) {n : ℕ} {m : ℤ}
    → reserve_ticket now ttl max h s ≡ (success n m, s')
    → stock_of h.ticket_type_id s' + h.quantity ≡ stock_of h.ticket_type_id s
unfolding reserve_ticket
reserved_stock now ttl max h s s' done = ground arith

abbrev pub fails {ℓ} : {A : Type ℓ} → Result A → Bool
fails (ok a) = false
fails (err e) = true

abbrev is_some {ℓ} : {A : Type ℓ} → Option A → Bool
is_some none = false
is_some (some a) = true

some_failed :
    (n : ℕ) (m : ℤ) (rs : List LuaReply) (p : LuaReply × Redis) (s : Redis)
    → Refused p s
    → is_some (failed_index (success n m ∷ p.0 ∷ rs)) ≡ true
unfolding failed_index
some_failed n m rs (success n' m', s') s h = absurd h
some_failed n m rs (failure e, s') s h = refl

two_refused_from :
    (now ttl u o : ℕ) (a b : Meta) (ms : List Meta) (s : Redis) (p : LuaReply × Redis)
    → 0 < ttl
    → reserve_ticket now ttl a.max_per_user (meta_hold u o a) s ≡ p
    → let q = reserve_ticket now ttl b.max_per_user (meta_hold u o b) p.1 in
      is_some (failed_index (p.0 ∷ q.0 ∷ (reserve_all now ttl u o ms q.1).0)) ≡ true
unfolding failed_index
two_refused_from now ttl u o a b ms s (failure e, s') lasts done = refl
two_refused_from now ttl u o a b ms s (success n m, s') lasts done = some_failed n m _ _ s' (
    reserve_again now ttl b.max_per_user (meta_hold u o b) s' _
      (reserved_live now ttl a.max_per_user (meta_hold u o a) s s' lasts done))

-- Of the calls for two ticket types of one order at least one is refused.
two_refused :
    (now ttl u o : ℕ) (a b : Meta) (ms : List Meta) (s : Redis)
    → 0 < ttl
    → is_some (failed_index (reserve_all now ttl u o (a ∷ b ∷ ms) s).0) ≡ true
unfolding reserve_all
two_refused now ttl u o a b ms s lasts = two_refused_from now ttl u o a b ms s _ lasts refl

reserve_stage_two :
    (s : Sale) (u : ℕ) (a b : Meta) (ms : List Meta) (w : World)
    → 0 < ttl_of s
    → (reserve_stage s u (a ∷ b ∷ ms) w).0 ≡ err unprocessable
unfolding reserve_stage
reserve_stage_two s u a b ms w lasts =
    ground (arith, two_refused s.now (ttl_of s) u s.order_id a b ms w.redis lasts)

-- The rollback of an order of several ticket types whose first reservation went through: the order
-- is refused, and every stock and counter is what it was, where a hold lasts for some time and the
-- user's counter was not negative.
reserve_stage_rolls_back :
    (s : Sale) (u t v : ℕ) (a b : Meta) (ms : List Meta) (w : World) {n : ℕ} {m : ℤ} {r : Redis}
    → 0 < ttl_of s
    → pos 0 ≤ℤ counter_of u a.ticket_type_id w.redis
    → reserve_ticket s.now (ttl_of s) a.max_per_user (meta_hold u s.order_id a) w.redis
      ≡ (success n m, r)
    → let (result, w') = reserve_stage s u (a ∷ b ∷ ms) w in
      (result ≡ err unprocessable)
      × (stock_of t w'.redis ≡ stock_of t w.redis)
      × (counter_of v t w'.redis ≡ counter_of v t w.redis)
unfolding reserve_stage reserve_all failed_index release_holds
reserve_stage_rolls_back s u t v a b ms w {n} {m} {r} lasts nonneg done =
    let there =
      reserved_live s.now (ttl_of s) a.max_per_user (meta_hold u s.order_id a) w.redis r lasts
        done in
    let (e, same) =
      Refused-eq _ r
        (reserve_again s.now (ttl_of s) b.max_per_user (meta_hold u s.order_id b) r _ there) in
    let rest = reserve_all_again s.now (ttl_of s) u s.order_id ms r _ there in
    let (stock, counter) =
      release-reserve s.now s.now (ttl_of s) a.max_per_user (meta_hold u s.order_id a) w.redis t v
        (omega arith) nonneg done in
    ground (arith, same, rest, stock, counter)

-- The rollback stops at the first failure, but the script has run for all ticket types. Where the
-- first of two is refused and the second is not, the request fails without a write to the database,
-- and the second type's tickets stay taken under a live reservation, where a hold lasts for some time.
reserve_stage_leaks :
    (s : Sale) (u : ℕ) (a b : Meta) (w : World) {e : LuaError} {n : ℕ} {m : ℤ} {r : Redis}
    → 0 < ttl_of s
    → reserve_ticket s.now (ttl_of s) a.max_per_user (meta_hold u s.order_id a) w.redis
      ≡ (failure e, w.redis)
    → reserve_ticket s.now (ttl_of s) b.max_per_user (meta_hold u s.order_id b) w.redis
      ≡ (success n m, r)
    → let (result, w') = reserve_stage s u (a ∷ b ∷ []) w in
      (result ≡ err unprocessable)
      × (w'.db ≡ w.db)
      × (stock_of b.ticket_type_id w'.redis + b.quantity ≡ stock_of b.ticket_type_id w.redis)
      × (get_reservation s.now s.order_id w'.redis
          ≡ some (new_reservation s.now (ttl_of s) (meta_hold u s.order_id b)))
unfolding reserve_stage reserve_all failed_index release_holds
reserve_stage_leaks s u a b w {r = r} lasts refused done =
    let h = meta_hold u s.order_id b in
    let there = reserved_live s.now (ttl_of s) b.max_per_user h w.redis r lasts done in
    let taken = reserved_stock s.now (ttl_of s) b.max_per_user h w.redis r done in
    ground (arith, there, taken)

-- The stages after the checks.
abbrev after_checks : Sale → ℕ → ℕ → List Meta → Action PaymentUrl
after_checks s concert_id u ms = do
  (λ w. (ok tt, set_redis (seed_all u ms w.db w.redis) w))
  reserve_stage s u ms
  persist_stage s u concert_id ms
  sync_stage s u ms
  url ← pay_stage s u ms
  (λ w. (ok url, schedule s w))

after_checks_two :
    (s : Sale) (concert_id u : ℕ) (a b : Meta) (ms : List Meta) (w : World)
    → 0 < ttl_of s
    → (after_checks s concert_id u (a ∷ b ∷ ms) w).0 ≡ err unprocessable
after_checks_two s concert_id u a b ms w lasts =
    ground (
      arith,
      reserve_stage_two s u a b ms (set_redis (seed_all u (a ∷ b ∷ ms) w.db w.redis) w) lasts,
    )

collect_meta_two :
    (now concert_id : ℕ) (i j : ItemDto) (is : List ItemDto) (db : Db) (ms : List Meta)
    → collect_meta now concert_id (i ∷ j ∷ is) db ≡ ok ms
    → (a b : Meta) × (rest : List Meta) × (ms ≡ a ∷ b ∷ rest)
unfolding collect_meta
collect_meta_two now concert_id i j is db [] h = absurd (ground arith)
collect_meta_two now concert_id i j is db (a ∷ []) h = absurd (ground arith)
collect_meta_two now concert_id i j is db (a ∷ b ∷ rest) h = (a, b, rest, refl)

-- An order of two or more items never succeeds, whatever is in stock: the reservation is keyed by the
-- order, so the script refuses the second item (the hold's configured duration is not 0).
pub create_order_several_fails :
    (s : Sale) (concert_id u : ℕ) (i j : ItemDto) (is : List ItemDto) (w : World)
    → 0 < ttl_of s
    → fails (create_order s concert_id (i ∷ j ∷ is) u w).0 ≡ true
unfolding create_order
create_order_several_fails s concert_id u i j is w lasts =
    elim (Result-cases (collect_meta s.now concert_id (i ∷ j ∷ is) w.db)) [
      | inr (e, refused) ↦ ground (arith, refused)
      | inl (ms, checked) ↦
          let (a, b, rest, two) = collect_meta_two s.now concert_id i j is w.db ms checked in
          ground (arith, checked, two, after_checks_two s concert_id u a b rest w lasts)
    ]
