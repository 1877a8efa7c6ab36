-- ===== src/Idempotency/Replay.antt =====
-- What a second request with the same key gets (the interceptor and the service for idempotency).
use se_ticketbox.Prelude.{ℕ, ◌+◌, ◌<◌, ◌≡◌, true, false, none, some, ◌==◌, if◌then◌else◌, arith}
use se_ticketbox.Prelude.Table.{put, find-put}
use se_ticketbox.Store.{conflict, Result, ok, err}
use se_ticketbox.Idempotency.{
  Keys, Request, proceed, replay, reject, Progress, get_record, new_record, judge, settle_record,
  process, follow, intercept_key, intercept, start_verdict, register_nx, complete, fail,
}

abbrev pub post : ℕ → ℕ → Request
post key hash = record { key = some key; is_post = true; hash = hash }

-- A first POST whose handler has answered with a body that is not false ends with that answer; sent
-- again with the same key within 15 minutes, it gets that answer where its body's hash is the same,
-- and a conflict where it is another one. Nothing is run then, whatever the handler would do.
pub intercept_again :
    {W : Type 0} (handler other : W → Result ℕ × W) (now done later later' key hash hash' body : ℕ)
    (m : Keys) (w w' : W)
    → get_record now key m ≡ none
    → handler w ≡ (ok body, w')
    → (body == 0) ≡ false
    → later < done + 900000
    → let m' = (intercept handler now done (post key hash) (m, w)).1 in
      (intercept handler now done (post key hash) (m, w) ≡ (ok body, m', w'))
      × (intercept other later later' (post key hash') (m', w')
          ≡ ((if hash == hash' then ok body else err conflict), m', w'))
unfolding intercept intercept_key follow judge process settle_record get_record
intercept_again handler other now done later later' key hash hash' body m w w' free run full fresh =
    ground (
      arith,
      free,
      run,
      full,
      find-put key key (new_record done Progress.completed hash body)
          (put key (new_record now Progress.processing hash 0) m),
    )

-- After `complete` the service replays the body to the same request for 15 minutes, after `fail` it
-- refuses the request, and after either it refuses another request with the same key.
pub start_verdict-complete :
    (now later key hash hash' body : ℕ) (m : Keys)
    → later < now + 900000
    → (start_verdict hash' (get_record later key (complete now key hash body m))
        ≡ (if hash == hash' then replay body else reject conflict))
      × (start_verdict hash' (get_record later key (fail now key hash m)) ≡ reject conflict)
unfolding start_verdict get_record complete fail
start_verdict-complete now later key hash hash' body m fresh = ground (
  arith,
  find-put key key (new_record now Progress.completed hash body) m,
  find-put key key (new_record now Progress.failed hash 0) m,
)

-- Two first requests that both read the key before either writes it both go on, also with different
-- bodies: the second write finds the first one's record and leaves it, and nobody reads that.
start_races :
    (now later key hash hash' : ℕ) (m : Keys)
    → get_record now key m ≡ none
    → get_record later key m ≡ none
    → later < now + 900000
    → (start_verdict hash (get_record now key m) ≡ proceed)
      × (start_verdict hash' (get_record later key m) ≡ proceed)
      × (register_nx later key hash' (register_nx now key hash m) ≡ register_nx now key hash m)
unfolding start_verdict register_nx get_record
start_races now later key hash hash' m free free' fresh =
    ground (arith, free, free', find-put key key (new_record now Progress.processing hash 0) m)
