-- ===== src/RateLimit/Refusal.antt =====
-- Refused requests of backend/src/modules/rate-limit: what they change and what they promise.
use se_ticketbox.Prelude.{
  ℕ, zero, suc, ◌+◌, ◌-◌, ◌*◌, ◌/◌, ◌≤◌, ◌<◌, ◌≡◌, Bool, true, false, Option, none, some, arith,
  leb, if◌then◌else◌,
}
use se_ticketbox.RateLimit.{
  Limits, Bucket, BucketKey, none_key, ip_key, Buckets, save_bucket, refill, draw, ceil_div,
  at_least_1, BucketType, ip_route, token_bucket, key_of_user, check_and_consume, Pass, activated,
  too_many_requests, can_activate,
}

-- So much time brings the missing tokens.
ceil_div_covers : (a b : ℕ) → 0 < b → a ≤ ceil_div a b * b
ceil_div_covers a b h = omega arith

at_least_1_le : (n : ℕ) → n ≤ at_least_1 n
at_least_1_le n = ground arith

mul_mono : (a b n : ℕ) → a ≤ b → a * n ≤ b * n
mul_mono a b n h = grind arith

-- The wait that is answered where `refilled` tokens are there.
abbrev wait : Limits → ℕ → ℕ
wait l refilled = at_least_1 (ceil_div (l.tokens_needed - refilled) l.refill_rate)

wait_covers :
    (l : Limits) (x : ℕ) → 0 < l.refill_rate → l.tokens_needed ≤ x + wait l x * l.refill_rate
wait_covers l x rate =
    let q = ceil_div (l.tokens_needed - x) l.refill_rate in
    let most = ceil_div_covers (l.tokens_needed - x) l.refill_rate rate in
    let more = mul_mono q (wait l x) l.refill_rate (at_least_1_le q) in omega arith

refill_later :
    (l : Limits) (now r x last : ℕ)
    → l.tokens_needed ≤ l.capacity
    → last ≤ now
    → l.tokens_needed ≤ x + r * l.refill_rate
    → leb l.tokens_needed (refill l (now + r) (record { tokens = x; last_refill = last })) ≡ true
unfolding refill
refill_later l now r x last fits past h =
    let more = mul_mono r (now + r - last) l.refill_rate (omega arith) in ground arith

abbrev NotAhead : ℕ → Option Bucket → Type 0
NotAhead now none = Unit
NotAhead now (some b) = b.last_refill ≤ now

-- Where a bucket refuses a request, the same request is let through by it after the `retryAfter`
-- that was answered, if nothing else has used the bucket, its last refill is not in the future, the
-- rate is not 0 and the bucket can hold what the request needs.
pub draw_retry_after :
    (l : Limits) (now : ℕ) (b : Option Bucket)
    → 0 < l.refill_rate
    → l.tokens_needed ≤ l.capacity
    → NotAhead now b
    → (draw l now b).allowed ≡ false
    → (draw l (now + (draw l now b).retry_after) (some (draw l now b).saved)).allowed ≡ true
unfolding draw
draw_retry_after l now none rate fits past refused = ground arith
draw_retry_after l now (some b) rate fits past refused =
    let x = refill l now b in
    ground (arith, refill_later l now (wait l x) x b.last_refill fits past (wait_covers l x rate))

-- Does a bucket refuse so many requests of one second, one after another?
unfoldable pub all_refused : Limits → ℕ → ℕ → Bucket → Bool
unfolding draw
all_refused l now zero b = true
all_refused l now (suc n) b =
    let rest = all_refused l now n (draw l now (some b)).saved in
    if (draw l now (some b)).allowed then false else rest

refusals_add_up :
    (l : Limits) (now n : ℕ) (b : Bucket)
    → l.tokens_needed ≤ l.capacity
    → l.tokens_needed ≤ b.tokens + suc n * ((now - b.last_refill) * l.refill_rate)
    → all_refused l now (suc n) b ≡ false
unfolding all_refused draw refill
refusals_add_up l now zero b fits h = ground arith
refusals_add_up l now (suc n) b fits h =
    let gain = (now - b.last_refill) * l.refill_rate in
    let later =
      refusals_add_up l now n (record { tokens = b.tokens + gain; last_refill = b.last_refill })
        fits (omega arith) in
    ground (arith, later)

-- A refused request saves the refilled tokens under the old time, so the next one counts that time
-- again: of `n` requests of one second a bucket lets one through as soon as `n` times the refill
-- since its last refill reaches what a request needs, where it can hold that much and `n` is not 0.
refused_counts_again :
    (l : Limits) (now n : ℕ) (b : Bucket)
    → l.tokens_needed ≤ l.capacity
    → 0 < n
    → l.tokens_needed ≤ n * ((now - b.last_refill) * l.refill_rate)
    → all_refused l now n b ≡ false
refused_counts_again l now zero b fits some_request h = ground arith
refused_counts_again l now (suc n) b fits some_request h =
    refusals_add_up l now n b fits (omega arith)

-- What the script has drawn from, by the bucket that its reply names.
abbrev Drawn : Limits → ℕ → BucketKey → BucketKey → Buckets → BucketType → Bool → Buckets → Type 0
Drawn l now k i m BucketType.user_bucket allowed m' =
    (allowed ≡ false) × ((draw l now (m k)).allowed ≡ false) × (m' i ≡ m i)
Drawn l now k i m BucketType.ip_bucket allowed m' =
    (allowed ≡ false)
    × ((draw l now (m k)).allowed ≡ true)
    × ((draw l now (m i)).allowed ≡ false)
    × (m' i ≡ some (draw l now (m i)).saved)
Drawn l now k i m BucketType.both_buckets allowed m' =
    (allowed ≡ true)
    × ((draw l now (m k)).allowed ≡ true)
    × ((draw l now (m i)).allowed ≡ true)
    × (m' i ≡ some (draw l now (m i)).saved)

-- The reply names the bucket that refused, or both where the request is let through. The user's
-- bucket is drawn from and saved in every case, also where the address's bucket then refuses; that
-- one stays as it was where the user's refuses.
pub check_and_consume-Drawn :
    (now : ℕ) (user : Option ℕ) (ip route : ℕ) (l : Limits) (m : Buckets)
    → let (r, m') = check_and_consume now user ip route l m in
      let k = key_of_user user route in
      (m' k ≡ some (draw l (now / 1000) (m k)).saved)
      × Drawn l (now / 1000) k (ip_key ip route) m r.bucket_type r.allowed m'
unfolding check_and_consume token_bucket ip_route save_bucket
check_and_consume-Drawn now none ip route l m = ground arith
check_and_consume-Drawn now (some u) ip route l m = ground arith

abbrev pub TooMany : Pass → Type 0
TooMany (activated h) = ⊥
TooMany (too_many_requests n h) = Unit

-- Requests without a user all draw on the bucket `__none__`: while it refuses, each of them gets a
-- 429 on every route with these limits and from every address, and leaves the bucket of its address
-- as it was.
pub anonymous_share :
    (now : ℕ) (l : Limits) (m : Buckets)
    → (draw l (now / 1000) (m none_key)).allowed ≡ false
    → (ip route : ℕ)
    → let (pass, m') = can_activate now false (some (route, l)) none ip m in
      TooMany pass × (m' (ip_key ip route) ≡ m (ip_key ip route))
unfolding can_activate check_and_consume token_bucket ip_route save_bucket
anonymous_share now l m refused ip route = ground arith
