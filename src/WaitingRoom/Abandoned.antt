-- ===== src/WaitingRoom/Abandoned.antt =====
-- Sessions that nobody polls any more (frontend/customer-web/lib/mock-waiting-room.ts).
use se_ticketbox.Prelude.{
  ℕ, ◌≤◌, ◌≡◌, Bool, true, false, ◌&&◌, Option, none, some, List, [], ◌∷◌, arith, Option-cases, inl,
  inr,
}
use se_ticketbox.Prelude.Table.{Table, find, put}
use se_ticketbox.WaitingRoom.{
  Session, Room, Env, join_waiting_room, existing_session, waiting_room_required, prune_joins,
  new_session, count_waiting,
}
use se_ticketbox.WaitingRoom.Queue.{
  Event, joined, polled, step, run, required-sessions, record_join-sessions,
}

abbrev is_missing : Option Session → Bool
is_missing none = true
is_missing (some r) = false

-- A join that draws an id which no session has.
abbrev pub is_fresh_join : Room → Event → Bool
is_fresh_join s (joined now d c o) = is_missing (find d.session_id s.sessions)
is_fresh_join s (polled now token id) = false

unfoldable pub only_fresh_joins : Env → List Event → Room → Bool
unfolding step
only_fresh_joins env [] s = true
only_fresh_joins env (e ∷ es) s = is_fresh_join s e && only_fresh_joins env es (step env e s)

count_waiting-put :
    (c id : ℕ) (r : Session) (m : Table Session)
    → is_missing (find id m) ≡ true
    → count_waiting c m ≤ count_waiting c (put id r m)
unfolding count_waiting put find
count_waiting-put c id r [] h = omega arith
count_waiting-put c id r ((j, w) ∷ m) h = ground (arith, h, count_waiting-put c id r m)

step-count_waiting :
    (env : Env) (e : Event) (s : Room) (c : ℕ)
    → is_fresh_join s e ≡ true
    → count_waiting c s.sessions ≤ count_waiting c (step env e s).sessions
unfolding step join_waiting_room
step-count_waiting env (polled now token id) s c h = ground (arith, h)
step-count_waiting env (joined now d c' o) s c h = elim (Option-cases (existing_session c' o s)) [
  | inr (x, e) ↦ ground (arith, e)
  | inl e ↦
      let q = waiting_room_required env now c' s in
      ground (
        arith,
        e,
        required-sessions env now c' s,
        record_join-sessions now c' q.1,
        count_waiting-put c d.session_id (new_session now c' d q.0) s.sessions h,
      )
]

run-count_waiting :
    (env : Env) (es : List Event) (s : Room) (c : ℕ)
    → only_fresh_joins env es s ≡ true
    → count_waiting c s.sessions ≤ count_waiting c (run env es s).sessions
unfolding run only_fresh_joins
run-count_waiting env [] s c h = omega arith
run-count_waiting env (e ∷ es) s c h =
    ground (arith, h, step-count_waiting env e s c, run-count_waiting env es (step env e s) c)

-- Where a concert has as many waiting sessions as the threshold, the waiting room is required at every
-- later time, however long after, as long as nobody polls, whatever joins there are, since a session
-- leaves the count only by its own poll.
pub abandoned_sessions_count :
    (env : Env) (later c : ℕ) (s : Room) (es : List Event)
    → env.join_threshold ≤ count_waiting c s.sessions
    → only_fresh_joins env es s ≡ true
    → (waiting_room_required env later c (run env es s)).0 ≡ true
unfolding waiting_room_required prune_joins
abandoned_sessions_count env later c s es full h =
    ground (arith, full, run-count_waiting env es s c h)
