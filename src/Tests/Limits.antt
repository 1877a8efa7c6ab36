-- ===== src/Tests/Limits.antt =====
-- The theorems on the rate limiter, on the limits of the login.
use se_ticketbox.Prelude.{◌*◌, ◌≤◌, some, none, [], ◌∷◌, arith}
use se_ticketbox.RateLimit.{RateLimitRoute, rate_limit_defaults, Bucket, Buckets, user_key}
use se_ticketbox.RateLimit.Burst.{Call, let_through, let_through-capacity}

abbrev call : Call
call = record { user = some 3; ip = 8 }

abbrev no_buckets : Buckets
no_buckets k = none

let_through-capacity_example :
    let l = rate_limit_defaults RateLimitRoute.auth_login in
    let_through 5000 3 l (user_key 3 3) (call ∷ call ∷ []) no_buckets * l.tokens_needed ≤ l.capacity
let_through-capacity_example =
    let_through-capacity 5000 3 (rate_limit_defaults RateLimitRoute.auth_login) (user_key 3 3)
      (call ∷ call ∷ []) no_buckets (omega arith)

-- An empty bucket one second after its last refill: a request needs 6 seconds' refill.
abbrev bucket : Bucket
bucket = record { tokens = 0; last_refill = 4 }
