-- ===== src/WaitingRoom.antt =====
-- The waiting room in front of the sale: frontend/customer-web/lib/mock-waiting-room.ts with its route
-- frontend/customer-web/app/api/concerts/[concertId]/waiting-room/route.ts. Session ids, tokens and
-- the random part of a wait are drawn by the caller.
pub mod Queue
pub mod Abandoned
use se_ticketbox.Prelude.{
  ℕ, zero, suc, ◌+◌, ◌-◌, ◌*◌, ◌/◌, Bool, true, false, not, ◌&&◌, ◌||◌, Option, none, some, List,
  [], ◌∷◌, ◌++◌, ltb, leb, ◌==◌, if◌then◌else◌, length,
}
use se_ticketbox.Prelude.Table.{Table, find, put}
use se_ticketbox.Store.{bad_request, not_found, Result, ok, err}

-- `WaitingSessionRecord`, keyed by its id.
pub record Session : Type 0 where
  pub concert_id : ℕ
  pub created_at : ℕ
  pub admit_at : ℕ
  pub admitted : Bool
  pub waiting_room_required : Bool
  pub token : Option ℕ
  pub token_expires_at : Option ℕ

-- `sessions` and `joinTimestamps`.
pub record Room : Type 0 where
  pub sessions : Table Session
  pub joins : ℕ → List ℕ

-- The environment: `FORCE_WAITING_ROOM`, and the threshold that `getJoinThreshold` reads.
pub record Env : Type 0 where
  pub forced : Bool
  pub join_threshold : ℕ

-- What a request draws: `random_wait` is the part of a wait below `MAX_WAIT_MS - MIN_WAIT_MS`.
pub record Draw : Type 0 where
  pub session_id : ℕ
  pub token : ℕ
  pub random_wait : ℕ

abbrev pub token_ttl : ℕ
token_ttl = 5 * 60 * 1000

abbrev pub min_wait : ℕ
min_wait = 12000

abbrev pub max_wait : ℕ
max_wait = 38000

abbrev pub load_window : ℕ
load_window = 5 * 60 * 1000

unfoldable pub recent : ℕ → List ℕ → List ℕ
recent now [] = []
recent now (t ∷ ts) = if ltb (now - t) load_window then t ∷ recent now ts else recent now ts

abbrev pub set_joins : ℕ → List ℕ → Room → Room
set_joins concert_id ts s = record s { joins = λ c. if c == concert_id then ts else s.joins c }

-- `pruneJoinTimestamps`.
unfoldable pub prune_joins : ℕ → ℕ → Room → Room
unfolding recent
prune_joins now concert_id s = set_joins concert_id (recent now (s.joins concert_id)) s

abbrev pub is_waiting : ℕ → Session → Bool
is_waiting concert_id r = (r.concert_id == concert_id && not r.admitted) && r.waiting_room_required

-- `countActiveWaitingSessions`.
unfoldable pub count_waiting : ℕ → Table Session → ℕ
count_waiting concert_id [] = 0
count_waiting concert_id ((id, r) ∷ m) =
    let n = count_waiting concert_id m in if is_waiting concert_id r then suc n else n

-- `isWaitingRoomRequired`, and the room with the pruned timestamps.
unfoldable pub waiting_room_required : Env → ℕ → ℕ → Room → Bool × Room
unfolding prune_joins count_waiting
waiting_room_required env now concert_id s =
    let s' = prune_joins now concert_id s in
    let load = length (s'.joins concert_id) + count_waiting concert_id s.sessions in
    if env.forced then (true, s) else (leb env.join_threshold load, s')

-- `recordJoin`.
unfoldable pub record_join : ℕ → ℕ → Room → Room
unfolding prune_joins
record_join now concert_id s =
    let s' = prune_joins now concert_id s in
    set_joins concert_id (s'.joins concert_id ++ now ∷ []) s'

abbrev pub is_ahead : Session → Session → Bool
is_ahead r other =
    is_waiting r.concert_id other
    && (ltb other.admit_at r.admit_at
        || (other.admit_at == r.admit_at && ltb other.created_at r.created_at))

unfoldable pub count_ahead : Session → Table Session → ℕ
count_ahead r [] = 0
count_ahead r ((id, other) ∷ m) = let n = count_ahead r m in if is_ahead r other then suc n else n

-- `getQueuePosition`.
unfoldable pub queue_position : Session → Table Session → ℕ
unfolding count_ahead
queue_position r m = suc (count_ahead r m)

-- `WaitingRoomPollResponse`.
pub data PollResponse : Type 0 where
  is_admitted : (required : Bool) (token : ℕ) (expires_at : Option ℕ) → PollResponse
  must_wait : (required : Bool) (position estimated_seconds : Option ℕ) → PollResponse

abbrev pub seconds_left : ℕ → Session → ℕ
seconds_left now r = (r.admit_at - now + 999) / 1000

unfoldable pub waiting_response : ℕ → Session → Table Session → PollResponse
unfolding queue_position
waiting_response now r m =
    if r.waiting_room_required
    then must_wait true (some (queue_position r m)) (some (seconds_left now r))
    else must_wait false none none

abbrev pub response_of : ℕ → Session → Table Session → Option ℕ → PollResponse
response_of now r m none = waiting_response now r m
response_of now r m (some token) =
    if r.admitted
    then is_admitted r.waiting_room_required token r.token_expires_at
    else waiting_response now r m

-- `toPollResponse`.
unfoldable pub to_poll_response : ℕ → Session → Table Session → PollResponse
unfolding waiting_response
to_poll_response now r m = response_of now r m r.token

abbrev pub store_session : ℕ → Session → Room → Room
store_session id r s = record s { sessions = put id r s.sessions }

abbrev pub admit : ℕ → ℕ → Session → Session
admit now token r = record r {
  admitted = true;
  token = some token;
  token_expires_at = some (now + token_ttl);
}

-- The session that a request without one gets.
abbrev pub new_session : ℕ → ℕ → Draw → Bool → Session
new_session now concert_id d required =
    let r : Session = record {
      concert_id = concert_id;
      created_at = now;
      admit_at = if required then now + (min_wait + d.random_wait) else now;
      admitted = false;
      waiting_room_required = required;
      token = none;
      token_expires_at = none;
    } in
    if required then r else admit now d.token r

abbrev pub enter_room : ℕ → ℕ → Draw → Bool × Room → (ℕ × PollResponse) × Room
enter_room now concert_id d (required, s) =
    let r = new_session now concert_id d required in
    let s' = store_session d.session_id r (record_join now concert_id s) in
    ((d.session_id, to_poll_response now r s'.sessions), s')

-- The session of an earlier request, if it is for the concert.
abbrev pub same_concert : ℕ → ℕ → Option Session → Option (ℕ × Session)
same_concert concert_id id none = none
same_concert concert_id id (some r) = if r.concert_id == concert_id then some (id, r) else none

unfoldable pub existing_session : ℕ → Option ℕ → Room → Option (ℕ × Session)
existing_session concert_id none s = none
existing_session concert_id (some id) s = same_concert concert_id id (find id s.sessions)

-- `joinWaitingRoom`.
unfoldable pub join_waiting_room : Env → ℕ → Draw → ℕ → Option ℕ → Room → (ℕ × PollResponse) × Room
unfolding existing_session waiting_room_required record_join to_poll_response
join_waiting_room env now d concert_id id s = elim (existing_session concert_id id s) [
  | some (id', r) ↦ ((id', to_poll_response now r s.sessions), s)
  | none ↦ enter_room now concert_id d (waiting_room_required env now concert_id s)
]

-- The session after a poll.
unfoldable pub polled_session : ℕ → ℕ → Session → Session
polled_session now token r =
    if (not r.admitted && r.waiting_room_required) && leb r.admit_at now
    then admit now token r
    else r

-- `pollWaitingRoom`.
unfoldable pub poll_waiting_room : ℕ → ℕ → ℕ → Room → Option PollResponse × Room
unfolding polled_session to_poll_response
poll_waiting_room now token id s = elim (find id s.sessions) [
  | none ↦ (none, s)
  | some r ↦
      let r' = polled_session now token r in
      let s' = store_session id r' s in (some (to_poll_response now r' s'.sessions), s')
]

-- `GET` of the route.
abbrev pub found_response : Option PollResponse → Result PollResponse
found_response none = err not_found
found_response (some r) = ok r

unfoldable pub get_route : ℕ → ℕ → Option ℕ → Room → Result PollResponse × Room
unfolding poll_waiting_room
get_route now token none s = (err bad_request, s)
get_route now token (some id) s =
    let (r, s') = poll_waiting_room now token id s in (found_response r, s')
