-- ===== src/Purchase/Page.antt =====
-- The page of the waiting room: frontend/customer-web/hooks/useWaitingRoom.ts. Effects that were
-- cancelled by a change of the concert, and the messages that rotate, are left out.
use se_ticketbox.Prelude.{ℕ, Bool, true, false, Option, none, some, if◌then◌else◌}
use se_ticketbox.Store.{Result, ok, err}
use se_ticketbox.WaitingRoom.{
  Env, Draw, Room, PollResponse, is_admitted, must_wait, join_waiting_room,
}
use se_ticketbox.Scanner.{Delivery, delivered, response_lost, request_lost}
use se_ticketbox.Purchase.{Tab, write_session, store_admitted_token, fetch_poll}

pub data PageStatus : Type 0 where
  loading waiting admitted error : PageStatus

-- The state and the refs of `useWaitingRoom`.
pub record Page : Type 0 where
  pub status : PageStatus
  pub session_id : Option ℕ
  pub was_admitted : Bool
  pub started_at : Option ℕ
  pub position : Option ℕ
  pub estimated_seconds : Option ℕ

-- `handleAdmitted`.
unfoldable pub handle_admitted : ℕ → ℕ → ℕ → Option ℕ → Page × Tab → Page × Tab
unfolding store_admitted_token
handle_admitted now c token x (p, t) =
    if p.was_admitted
    then (p, t)
    else (record p { was_admitted = true; status = admitted }, store_admitted_token now c token x t)

-- Waiting and admitted pages stay so while they join again.
abbrev pub while_joining : PageStatus → PageStatus
while_joining waiting = waiting
while_joining admitted = admitted
while_joining loading = loading
while_joining error = loading

abbrev pub show_wait : Option ℕ → Option ℕ → Page → Page
show_wait position seconds p = record p { position = position; estimated_seconds = seconds }

-- The answer of a join.
abbrev pub take_join : ℕ → ℕ → PollResponse → Page → Tab → Page × Tab
take_join now c (is_admitted required token x) p t =
    handle_admitted now c token x (show_wait none none p, t)
take_join now c (must_wait required position seconds) p t =
    let p' = show_wait position seconds p in
    (record p' { status = if required then waiting else error }, t)

-- The `POST`: the answer if it arrives, and what the server did.
unfoldable pub fetch_join :
    Delivery → Env → ℕ → Draw → ℕ → Option ℕ → Room → Option (ℕ × PollResponse) × Room
fetch_join delivered env now d c id s =
    let (answer, s') = join_waiting_room env now d c id s in (some answer, s')
fetch_join response_lost env now d c id s = (none, (join_waiting_room env now d c id s).1)
fetch_join request_lost env now d c id s = (none, s)

abbrev pub joined_page : ℕ → ℕ → Option (ℕ × PollResponse) × Room → Page → Tab → Page × Tab × Room
joined_page now c (none, s) p t = (record p { status = error }, t, s)
joined_page now c (some (id, answer), s) p t =
    let p' : Page = record p { session_id = some id; started_at = some now } in
    let (p'', t') = take_join now c answer p' (write_session c (some id) t) in (p'', t', s)

-- `joinQueue`.
unfoldable pub join_queue : Delivery → Env → ℕ → Draw → ℕ → Page → Tab → Room → Page × Tab × Room
unfolding fetch_join handle_admitted
join_queue way env now d c p t s =
    let p' : Page = record p { status = while_joining p.status; session_id = t.session c } in
    joined_page now c (fetch_join way env now d c (t.session c) s) p' t

-- The answer of a poll.
abbrev pub take_answer : ℕ → ℕ → Option (Result PollResponse) → Page → Tab → Page × Tab
take_answer now c none p t = (record p { status = error }, t)
take_answer now c (some (err e)) p t = (record p { status = error }, t)
take_answer now c (some (ok (is_admitted required token x))) p t =
    handle_admitted now c token x (p, t)
take_answer now c (some (ok (must_wait required position seconds))) p t =
    (show_wait position seconds p, t)

abbrev pub poll_waiting :
    Delivery → ℕ → ℕ → ℕ → PageStatus → Option ℕ → Page → Tab → Room → Page × Tab × Room
poll_waiting way now token c waiting (some id) p t s =
    let (answer, s') = fetch_poll way now token id s in
    let (p', t') = take_answer now c answer p t in (p', t', s')
poll_waiting way now token c _ _ p t s = (p, t, s)

-- `poll`, which runs only while the page waits.
unfoldable pub poll_page : Delivery → ℕ → ℕ → ℕ → Page → Tab → Room → Page × Tab × Room
unfolding handle_admitted fetch_poll
poll_page way now token c p t s = poll_waiting way now token c p.status p.session_id p t s

-- `retry`.
unfoldable pub retry : Delivery → Env → ℕ → Draw → ℕ → Page → Tab → Room → Page × Tab × Room
unfolding join_queue
retry way env now d c p t s =
    join_queue way env now d c
      (record p {
        was_admitted = false;
        session_id = none;
        started_at = none;
        position = none;
        estimated_seconds = none;
      })
      t s
