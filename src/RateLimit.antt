-- ===== src/RateLimit.antt =====
-- Token buckets in Redis: backend/src/modules/rate-limit/scripts/token-bucket.lua, the service that
-- calls it (rate-limit.service.ts) and the guard in front of the handlers (rate-limit.guard.ts).
-- Tokens are counted in sixtieths, so that every configured rate is a whole number; the script's
-- floating point is not modelled. A script runs alone, so it is one step. Routes, users and
-- addresses are only compared, so they are numbers.
pub mod Burst
pub mod Refusal
use se_ticketbox.Prelude.{
  ℕ, ◌+◌, ◌-◌, ◌*◌, ◌/◌, Bool, true, false, ◌&&◌, not, Option, none, some, ltb, leb, ◌==◌,
  if◌then◌else◌,
}

-- ARGV[1] to ARGV[3].
pub record Limits : Type 0 where
  pub capacity : ℕ
  pub refill_rate : ℕ  -- per second
  pub tokens_needed : ℕ

-- One token, in sixtieths.
abbrev pub token : ℕ
token = 60

-- The keys of RATE_LIMIT_DEFAULTS.
pub data RateLimitRoute : Type 0 where
  concert_list concert_detail order_reserve auth_login checkin_verify checkin_sync : RateLimitRoute

-- RATE_LIMIT_DEFAULTS. So many tokens a minute are as many sixtieths a second.
abbrev pub rate_limit_defaults : RateLimitRoute → Limits
rate_limit_defaults RateLimitRoute.concert_list = record {
  capacity = 60 * token;
  refill_rate = 60;
  tokens_needed = token;
}
rate_limit_defaults RateLimitRoute.concert_detail = record {
  capacity = 120 * token;
  refill_rate = 120;
  tokens_needed = token;
}
rate_limit_defaults RateLimitRoute.order_reserve = record {
  capacity = 5 * token;
  refill_rate = 5;
  tokens_needed = token;
}
rate_limit_defaults RateLimitRoute.auth_login = record {
  capacity = 10 * token;
  refill_rate = 10;
  tokens_needed = token;
}
rate_limit_defaults RateLimitRoute.checkin_verify = record {
  capacity = 30 * token;
  refill_rate = 30;
  tokens_needed = token;
}
rate_limit_defaults RateLimitRoute.checkin_sync = record {
  capacity = 10 * token;
  refill_rate = 10;
  tokens_needed = token;
}

-- The route in the key of a predefined route.
abbrev pub route_number : RateLimitRoute → ℕ
route_number RateLimitRoute.concert_list = 0
route_number RateLimitRoute.concert_detail = 1
route_number RateLimitRoute.order_reserve = 2
route_number RateLimitRoute.auth_login = 3
route_number RateLimitRoute.checkin_verify = 4
route_number RateLimitRoute.checkin_sync = 5

-- The hash at a bucket's key; `last_refill` is in seconds.
pub record Bucket : Type 0 where
  pub tokens : ℕ
  pub last_refill : ℕ

-- `rate-limit:user:{userId}:{route}`, `__none__` and `rate-limit:ip:{ip}:{route}`.
pub data BucketKey : Type 0 where
  user_key : (user route : ℕ) → BucketKey
  none_key : BucketKey
  ip_key : (ip route : ℕ) → BucketKey

abbrev pub same_key : BucketKey → BucketKey → Bool
same_key (user_key u r) (user_key v s) = u == v && r == s
same_key none_key none_key = true
same_key (ip_key a r) (ip_key b s) = a == b && r == s
same_key _ _ = false

abbrev pub Buckets : Type 0
Buckets = BucketKey → Option Bucket

unfoldable pub save_bucket : BucketKey → Bucket → Buckets → Buckets
save_bucket k b m = λ j. if same_key k j then some b else m j

-- `clamp` from 0 on.
abbrev pub clamp : ℕ → ℕ → ℕ
clamp val max_val = if ltb max_val val then max_val else val

-- A clock that has gone back counts as no time.
unfoldable pub refill : Limits → ℕ → Bucket → ℕ
refill l now b = clamp (b.tokens + (now - b.last_refill) * l.refill_rate) l.capacity

-- What the script keeps of one bucket in its local variables, and what it saves.
pub record Draw : Type 0 where
  pub allowed : Bool
  pub remaining : ℕ
  pub retry_after : ℕ
  pub saved : Bucket

-- The quotient, rounded up.
abbrev pub ceil_div : ℕ → ℕ → ℕ
ceil_div a b = (a + b - 1) / b

abbrev pub at_least_1 : ℕ → ℕ
at_least_1 n = if ltb n 1 then 1 else n

-- One of the script's two routes, on the bucket that it has read. No request needs more tokens
-- than its bucket can hold (`rate_limit_defaults`), so the first subtraction does not stop at 0.
unfoldable pub draw : Limits → ℕ → Option Bucket → Draw
unfolding refill
draw l now none = record {
  allowed = true;
  remaining = l.capacity - l.tokens_needed;
  retry_after = 0;
  saved = record { tokens = l.capacity - l.tokens_needed; last_refill = now };
}
draw l now (some b) =
    let refilled = refill l now b in
    if leb l.tokens_needed refilled
    then (record {
      allowed = true;
      remaining = refilled - l.tokens_needed;
      retry_after = 0;
      saved = record { tokens = refilled - l.tokens_needed; last_refill = now };
    })
    else (record {
      allowed = false;
      remaining = refilled;
      retry_after = at_least_1 (ceil_div (l.tokens_needed - refilled) l.refill_rate);
      saved = record { tokens = refilled; last_refill = b.last_refill };
    })

pub data BucketType : Type 0 where
  user_bucket ip_bucket both_buckets : BucketType

pub record TokenBucketResult : Type 0 where
  pub allowed : Bool
  pub remaining : ℕ
  pub retry_after : ℕ
  pub bucket_type : BucketType
  pub key : BucketKey

abbrev pub denied : ℕ → BucketType → BucketKey → TokenBucketResult
denied retry_after bucket_type key = record {
  allowed = false;
  remaining = 0;
  retry_after = retry_after;
  bucket_type = bucket_type;
  key = key;
}

-- The second route, with what the first one has left in the user's bucket.
unfoldable pub ip_route :
    Limits → ℕ → BucketKey → BucketKey → ℕ → Buckets → TokenBucketResult × Buckets
unfolding draw save_bucket
ip_route l now key ip user_remaining m =
    let d = draw l now (m ip) in
    let m' = save_bucket ip d.saved m in
    if not d.allowed then (denied d.retry_after ip_bucket ip, m') else (
      record {
        allowed = true;
        remaining = user_remaining;
        retry_after = 0;
        bucket_type = both_buckets;
        key = key;
      },
      m',
    )

-- token-bucket.lua.
unfoldable pub token_bucket :
    Limits → ℕ → BucketKey → BucketKey → Buckets → TokenBucketResult × Buckets
unfolding ip_route draw save_bucket
token_bucket l now key ip m =
    let d = draw l now (m key) in
    let m' = save_bucket key d.saved m in
    if not d.allowed
    then (denied d.retry_after user_bucket key, m')
    else ip_route l now key ip d.remaining m'

abbrev pub key_of_user : Option ℕ → ℕ → BucketKey
key_of_user none route = none_key
key_of_user (some user) route = user_key user route

-- `checkAndConsume`. `now` is in milliseconds.
unfoldable pub check_and_consume :
    ℕ → Option ℕ → ℕ → ℕ → Limits → Buckets → TokenBucketResult × Buckets
unfolding token_bucket
check_and_consume now user ip route l m =
    token_bucket l (now / 1000) (key_of_user user route) (ip_key ip route) m

-- `checkRoute`.
unfoldable pub check_route :
    ℕ → Option ℕ → ℕ → RateLimitRoute → Buckets → TokenBucketResult × Buckets
unfolding check_and_consume
check_route now user ip route m =
    check_and_consume now user ip (route_number route) (rate_limit_defaults route) m

-- The rate-limit headers of the response.
pub record Headers : Type 0 where
  pub remaining : ℕ
  pub limit : ℕ
  pub retry_after : Option ℕ

-- `true`, or the exception 429 with its `retryAfter`.
pub data Pass : Type 0 where
  activated : Option Headers → Pass
  too_many_requests : (retry_after : ℕ) → Headers → Pass

abbrev pub headers_of : Limits → TokenBucketResult → Headers
headers_of l r = record {
  remaining = r.remaining;
  limit = l.capacity;
  retry_after = if not r.allowed then some r.retry_after else none;
}

-- `canActivate` on the decorator's route and limits, where the handler has one. `disabled` says
-- whether RATE_LIMIT_DISABLED is set.
unfoldable pub can_activate :
    ℕ → Bool → Option (ℕ × Limits) → Option ℕ → ℕ → Buckets → Pass × Buckets
unfolding check_and_consume
can_activate now disabled none user ip m = (activated none, m)
can_activate now disabled (some (route, l)) user ip m =
    let (r, m') = check_and_consume now user ip route l m in
    if disabled
    then (activated none, m)
    else if not r.allowed
    then (too_many_requests r.retry_after (headers_of l r), m')
    else (activated (some (headers_of l r)), m')
