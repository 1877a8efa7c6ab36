-- ===== src/WaitingRoom/Queue.antt =====
-- Histories of the waiting room (frontend/customer-web/lib/mock-waiting-room.ts).
use se_ticketbox.Prelude.{
  ℕ, ◌+◌, ◌≤◌, ◌<◌, ◌≡◌, refl, ap, ◌∙◌, Bool, true, false, not, ◌&&◌, Option, none, some, List, [],
  ◌∷◌, leb, ◌==◌, if◌then◌else◌, arith, Option-cases, Bool-cases, inl, inr,
}
use se_ticketbox.Prelude.Table.{Table, find, find-put}
use se_ticketbox.WaitingRoom.{
  Session, Room, Env, Draw, PollResponse, is_admitted, must_wait, join_waiting_room,
  poll_waiting_room, polled_session, to_poll_response, waiting_response, existing_session,
  waiting_room_required, record_join, prune_joins, new_session, admit,
}

-- A request of the waiting room and its time.
pub data Event : Type 0 where
  joined : (now : ℕ) (d : Draw) (concert_id : ℕ) (id : Option ℕ) → Event
  polled : (now token id : ℕ) → Event

unfoldable pub step : Env → Event → Room → Room
step env (joined now d concert_id id) s = (join_waiting_room env now d concert_id id s).1
step env (polled now token id) s = (poll_waiting_room now token id s).1

unfoldable pub run : Env → List Event → Room → Room
unfolding step
run env [] s = s
run env (e ∷ es) s = run env es (step env e s)

-- No join draws the id.
abbrev pub spares : ℕ → Event → Bool
spares id (joined now d concert_id id') = not (d.session_id == id)
spares id (polled now token id') = true

unfoldable pub all_spare : ℕ → List Event → Bool
all_spare id [] = true
all_spare id (e ∷ es) = spares id e && all_spare id es

-- A session is as it was, or it has been admitted meanwhile, not before its time.
pub data Later (r : Session) : Session → Type 0 where
  same : Later r r
  admitted : (now token : ℕ) → r.admitted ≡ false → r.admit_at ≤ now → Later r (admit now token r)

abbrev pub LaterFound : Session → Option Session → Type 0
LaterFound r none = ⊥
LaterFound r (some r') = Later r r'

Later-trans : (r s t : Session) → Later r s → Later s t → Later r t
Later-trans r _ t same l = l
Later-trans r _ _ (admitted n k h i) same = admitted n k h i
Later-trans r _ _ (admitted n k h i) (admitted n' k' h' i') = absurd (ground (arith, h'))

polled_session-Later : (now token : ℕ) (r : Session) → Later r (polled_session now token r)
unfolding polled_session
polled_session-Later now token r =
    elim (Bool-cases ((not r.admitted && r.waiting_room_required) && leb r.admit_at now)) [
      | inl e ↦ rw e (admitted now token (ground (arith, e)) (ground (arith, e)))
      | inr e ↦ rw e same
    ]

pub record_join-sessions : (now c : ℕ) (s : Room) → (record_join now c s).sessions ≡ s.sessions
unfolding record_join prune_joins
record_join-sessions now c s = refl

pub required-sessions :
    (env : Env) (now c : ℕ) (s : Room) → (waiting_room_required env now c s).1.sessions ≡ s.sessions
unfolding waiting_room_required prune_joins
required-sessions env now c s = ground arith

-- A join leaves the sessions, or adds the one that it draws.
join_keeps :
    (env : Env) (now : ℕ) (d : Draw) (c : ℕ) (o : Option ℕ) (s : Room) (id : ℕ)
    → (d.session_id == id) ≡ false
    → find id (join_waiting_room env now d c o s).1.sessions ≡ find id s.sessions
unfolding join_waiting_room
join_keeps env now d c o s id h = elim (Option-cases (existing_session c o s)) [
  | inr (x, e) ↦ ground (arith, e)
  | inl e ↦
      let q = waiting_room_required env now c s in
      ground (
        arith,
        e,
        h,
        required-sessions env now c s,
        record_join-sessions now c q.1,
        find-put d.session_id id (new_session now c d q.0) s.sessions,
      )
]

poll_keeps :
    (now token j : ℕ) (s : Room) (id : ℕ)
    → (j == id) ≡ false
    → find id (poll_waiting_room now token j s).1.sessions ≡ find id s.sessions
unfolding poll_waiting_room
poll_keeps now token j s id h = elim (Option-cases (find j s.sessions)) [
  | inl e ↦ ground (arith, e)
  | inr (r, e) ↦ ground (arith, e, h, find-put j id (polled_session now token r) s.sessions)
]

poll_finds :
    (now token id : ℕ) (s : Room) (r : Session)
    → find id s.sessions ≡ some r
    → find id (poll_waiting_room now token id s).1.sessions ≡ some (polled_session now token r)
unfolding poll_waiting_room
poll_finds now token id s r h =
    ground (arith, h, find-put id id (polled_session now token r) s.sessions)

step-Later :
    (env : Env) (e : Event) (s : Room) (id : ℕ) (r : Session)
    → spares id e ≡ true
    → find id s.sessions ≡ some r
    → LaterFound r (find id (step env e s).sessions)
unfolding step
step-Later env (joined now d c o) s id r h here =
    rw (join_keeps env now d c o s id (ground (arith, h)), here) same
step-Later env (polled now token j) s id r h here = elim (Bool-cases (j == id)) [
  | inl i ↦
      let same_id : j ≡ id = ground (arith, i) in
      rw (same_id, poll_finds now token id s r here) (polled_session-Later now token r)
  | inr i ↦ rw (poll_keeps now token j s id i, here) same
]

LaterFound-some :
    (r : Session) (o : Option Session)
    → LaterFound r o
    → (r' : Session) × (o ≡ some r') × Later r r'
LaterFound-some r none l = absurd l
LaterFound-some r (some r') l = (r', refl, l)

LaterFound-trans :
    (r s : Session) (o : Option Session) → Later r s → LaterFound s o → LaterFound r o
LaterFound-trans r s none l m = m
LaterFound-trans r s (some t) l m = Later-trans r s t l m

run-Later :
    (env : Env) (es : List Event) (s : Room) (id : ℕ) (r : Session)
    → all_spare id es ≡ true
    → find id s.sessions ≡ some r
    → LaterFound r (find id (run env es s).sessions)
unfolding run all_spare
run-Later env [] s id r h here = rw here same
run-Later env (e ∷ es) s id r h here =
    let (r', there, l) =
      LaterFound-some r (find id (step env e s).sessions)
        (step-Later env e s id r (ground (arith, h)) here) in
    LaterFound-trans r r' (find id (run env es (step env e s)).sessions) l
      (run-Later env es (step env e s) id r' (ground (arith, h)) there)

-- The session of an id after a history, where it was there before.
after_run :
    (env : Env) (es : List Event) (s : Room) (id : ℕ) (r : Session)
    → all_spare id es ≡ true
    → find id s.sessions ≡ some r
    → (r' : Session) × (find id (run env es s).sessions ≡ some r') × Later r r'
after_run env es s id r h here =
    LaterFound-some r (find id (run env es s).sessions) (run-Later env es s id r h here)

abbrev is_some : Option ℕ → Bool
is_some none = false
is_some (some n) = true

-- An admitted session has a token, and one that is not is in the queue.
abbrev is_sound : Session → Bool
is_sound r = if r.admitted then is_some r.token else r.waiting_room_required

Later-is_sound : (r s : Session) → Later r s → is_sound r ≡ true → is_sound s ≡ true
Later-is_sound r _ same h = h
Later-is_sound r _ (admitted n k i j) h = refl

abbrev pub IsAdmitted : Option PollResponse → Type 0
IsAdmitted none = ⊥
IsAdmitted (some (is_admitted q k x)) = Unit
IsAdmitted (some (must_wait q p x)) = ⊥

poll-IsAdmitted :
    (now token id : ℕ) (s : Room) (r : Session)
    → find id s.sessions ≡ some r
    → is_sound r ≡ true
    → r.admit_at ≤ now
    → IsAdmitted (poll_waiting_room now token id s).0
unfolding poll_waiting_room polled_session to_poll_response
poll-IsAdmitted now token id s r here h due = elim (Option-cases r.token) [
  | inl e ↦ ground (arith, here, h, e)
  | inr (k, e) ↦ ground (arith, here, h, e)
]

Later-admit_at : (r s : Session) → Later r s → s.admit_at ≡ r.admit_at
Later-admit_at r _ same = refl
Later-admit_at r _ (admitted n k i j) = refl

join_finds :
    (env : Env) (now : ℕ) (d : Draw) (c : ℕ) (s : Room)
    → find d.session_id (join_waiting_room env now d c none s).1.sessions
      ≡ some (new_session now c d (waiting_room_required env now c s).0)
unfolding join_waiting_room existing_session
join_finds env now d c s =
    let q = waiting_room_required env now c s in
    ground (
      arith,
      required-sessions env now c s,
      record_join-sessions now c q.1,
      find-put d.session_id d.session_id (new_session now c d q.0) s.sessions,
    )

-- Who joins is admitted by every poll that comes 38 seconds or more after the join, whatever joins and
-- polls lie between, where no other join draws the same id.
pub join_waiting_room-IsAdmitted :
    (env : Env) (now later token : ℕ) (d : Draw) (c : ℕ) (s : Room) (es : List Event)
    → d.random_wait < 26000
    → all_spare d.session_id es ≡ true
    → now + 38000 ≤ later
    → IsAdmitted
        (poll_waiting_room later token d.session_id
          (run env es (join_waiting_room env now d c none s).1)).0
join_waiting_room-IsAdmitted env now later token d c s es drawn h due =
    let s' = (join_waiting_room env now d c none s).1 in
    let r = new_session now c d (waiting_room_required env now c s).0 in
    let (r', there, l) = after_run env es s' d.session_id r h (join_finds env now d c s) in
    let sound : is_sound r ≡ true = ground arith in
    poll-IsAdmitted later token d.session_id (run env es s') r' there (Later-is_sound r r' l sound)
      (ground (arith, drawn, due, Later-admit_at r r' l))

Later-admitted : (r s : Session) → Later r s → r.admitted ≡ true → s ≡ r
Later-admitted r _ same h = refl
Later-admitted r _ (admitted n k i j) h = absurd (ground (arith, i, h))

abbrev AdmittedAs : Bool → ℕ → Option ℕ → Session → Type 0
AdmittedAs b k x r =
    (r.admitted ≡ true)
    × (r.token ≡ some k)
    × (r.waiting_room_required ≡ b)
    × (r.token_expires_at ≡ x)

response-AdmittedAs :
    (now k : ℕ) (b : Bool) (x : Option ℕ) (r : Session) (m : Table Session)
    → to_poll_response now r m ≡ is_admitted b k x
    → AdmittedAs b k x r
unfolding to_poll_response waiting_response
response-AdmittedAs now k b x r m h = elim (Option-cases r.token) [
  | inl e ↦ ground (arith, h, e)
  | inr (t, e) ↦ ground (arith, h, e)
]

poll-AdmittedAs :
    (now token id k : ℕ) (b : Bool) (x : Option ℕ) (s : Room) (r : Session)
    → find id s.sessions ≡ some r
    → AdmittedAs b k x r
    → (poll_waiting_room now token id s).0 ≡ some (is_admitted b k x)
unfolding poll_waiting_room polled_session to_poll_response
poll-AdmittedAs now token id k b x s r here a = ground (arith, here, a)

poll-found :
    (now token id : ℕ) (s : Room) (a : PollResponse)
    → (poll_waiting_room now token id s).0 ≡ some a
    → (r : Session) × (find id s.sessions ≡ some r)
      × (to_poll_response now
            (polled_session now token r)
            (poll_waiting_room now token id s).1.sessions
          ≡ a)
unfolding poll_waiting_room
poll-found now token id s a h = elim (Option-cases (find id s.sessions)) [
  | inl e ↦ absurd (ground (arith, h, e))
  | inr (r, e) ↦ (r, e, ground (arith, h, e))
]

-- Once a poll has admitted a session, every later poll of it answers with the same token and the same
-- end, whatever requests lie between, where no join draws the id.
pub admitted_stays :
    (env : Env) (now later token token' id k : ℕ) (b : Bool) (x : Option ℕ) (s : Room)
    (es : List Event)
    → (poll_waiting_room now token id s).0 ≡ some (is_admitted b k x)
    → all_spare id es ≡ true
    → (poll_waiting_room later token' id (run env es (poll_waiting_room now token id s).1)).0
      ≡ some (is_admitted b k x)
admitted_stays env now later token token' id k b x s es h spare =
    let s' = (poll_waiting_room now token id s).1 in
    let (r, here, answer) = poll-found now token id s (is_admitted b k x) h in
    let p = polled_session now token r in
    let a = response-AdmittedAs now k b x p s'.sessions answer in
    let (r', there, l) = after_run env es s' id p spare (poll_finds now token id s r here) in
    poll-AdmittedAs later token' id k b x (run env es s') p
      (there ∙ ap some (Later-admitted p r' l a.0)) a
