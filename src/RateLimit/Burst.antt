-- ===== src/RateLimit/Burst.antt =====
-- How many requests of one second a bucket of
-- backend/src/modules/rate-limit/scripts/token-bucket.lua lets through.
use se_ticketbox.Prelude.{
  ℕ, ◌+◌, ◌*◌, ◌/◌, ◌≤◌, ◌≡◌, refl, Bool, true, false, ◌&&◌, ◌||◌, Option, none, some, List, [],
  ◌∷◌, arith, ◌==◌, if◌then◌else◌,
}
use se_ticketbox.RateLimit.{
  Limits, Bucket, BucketKey, ip_key, same_key, Buckets, save_bucket, clamp, refill, draw, ip_route,
  token_bucket, key_of_user, check_and_consume,
}

-- A request, by its user and its address.
pub record Call : Type 0 where
  pub user : Option ℕ
  pub ip : ℕ

abbrev pub uses : ℕ → BucketKey → Call → Bool
uses route k c = same_key (key_of_user c.user route) k || same_key (ip_key c.ip route) k

abbrev pub one_if : Bool → ℕ
one_if true = 1
one_if false = 0

-- The requests that are let through, of those that use one bucket.
unfoldable pub let_through : ℕ → ℕ → Limits → BucketKey → List Call → Buckets → ℕ
unfolding check_and_consume
let_through now route l k [] m = 0
let_through now route l k (c ∷ cs) m =
    let (r, m') = check_and_consume now c.user c.ip route l m in
    one_if (r.allowed && uses route k c) + let_through now route l k cs m'

-- What a bucket can still give within the second `now`.
abbrev left : Limits → ℕ → Option Bucket → ℕ
left l now none = l.capacity
left l now (some b) = if b.last_refill == now then clamp b.tokens l.capacity else l.capacity

left_le : (l : Limits) (now : ℕ) (b : Option Bucket) → left l now b ≤ l.capacity
left_le l now none = omega arith
left_le l now (some b) = ground arith

pub draw-left :
    (l : Limits) (now : ℕ) (b : Option Bucket)
    → l.tokens_needed ≤ l.capacity
    → left l now (some (draw l now b).saved)
        + (if (draw l now b).allowed then l.tokens_needed else 0)
      ≤ left l now b
unfolding draw refill
draw-left l now none h = ground arith
draw-left l now (some b) h = ground arith

same_key_eq : (k j : BucketKey) → same_key k j ≡ true → k ≡ j
same_key_eq k j h = ground arith

-- The two keys of one request differ.
keys_differ :
    (user : Option ℕ) (ip route : ℕ) → same_key (key_of_user user route) (ip_key ip route) ≡ false
keys_differ none ip route = refl
keys_differ (some u) ip route = refl

-- Nothing is both of them.
one_key :
    (user : Option ℕ) (ip route : ℕ) (k : BucketKey)
    → same_key (key_of_user user route) k ≡ true
    → same_key (ip_key ip route) k ≡ false
one_key none ip route k h = ground arith
one_key (some u) ip route k h = ground arith

check-left :
    (now : ℕ) (user : Option ℕ) (ip route : ℕ) (l : Limits) (k : BucketKey) (m : Buckets)
    → l.tokens_needed ≤ l.capacity
    → let (r, m') = check_and_consume now user ip route l m in
      left l (now / 1000) (m' k)
        + (if r.allowed && uses route k (record { user = user; ip = ip })
            then l.tokens_needed
            else 0)
      ≤ left l (now / 1000) (m k)
unfolding check_and_consume token_bucket ip_route save_bucket
check-left now user ip route l k m h = ground (
  arith,
  keys_differ user ip route,
  one_key user ip route k,
  same_key_eq (key_of_user user route) k,
  same_key_eq (ip_key ip route) k,
  draw-left l (now / 1000) (m (key_of_user user route)) h,
  draw-left l (now / 1000) (m (ip_key ip route)) h,
)

one_if_mul : (b : Bool) (a n : ℕ) → (one_if b + a) * n ≡ (if b then n else 0) + a * n
one_if_mul true a n = omega arith
one_if_mul false a n = omega arith

let_through-left :
    (now route : ℕ) (l : Limits) (k : BucketKey) (cs : List Call) (m : Buckets)
    → l.tokens_needed ≤ l.capacity
    → let_through now route l k cs m * l.tokens_needed ≤ left l (now / 1000) (m k)
unfolding let_through
let_through-left now route l k [] m h = omega arith
let_through-left now route l k (c ∷ cs) m h =
    let (r, m') = check_and_consume now c.user c.ip route l m in
    let rest = let_through-left now route l k cs m' h in
    let first = check-left now c.user c.ip route l k m h in
    omega (
      arith,
      one_if_mul (r.allowed && uses route k c) (let_through now route l k cs m') l.tokens_needed,
      rest,
      first,
    )

-- Of the requests of one second on one route, in any order and from any users and addresses, those
-- that use one bucket and are let through take no more tokens than the bucket's capacity, whatever
-- the buckets hold before, where one request needs no more than the capacity.
pub let_through-capacity :
    (now route : ℕ) (l : Limits) (k : BucketKey) (cs : List Call) (m : Buckets)
    → l.tokens_needed ≤ l.capacity
    → let_through now route l k cs m * l.tokens_needed ≤ l.capacity
let_through-capacity now route l k cs m h =
    omega (arith, let_through-left now route l k cs m h, left_le l (now / 1000) (m k))
