-- ===== src/Purchase/Admission.antt =====
-- How long a customer waits, and what an admission is worth
-- (frontend/customer-web/hooks/useWaitingRoom.ts and lib/waiting-room-access.ts).
use se_ticketbox.Prelude.{
  ℕ, ◌+◌, ◌≤◌, ◌<◌, ◌≡◌, ◌⊎◌, Bool, true, false, none, some, List, arith, Option-cases, Bool-cases,
  inl, inr,
}
use se_ticketbox.Store.{ok}
use se_ticketbox.WaitingRoom.{
  Env, Draw, Room, is_admitted, must_wait, join_waiting_room, poll_waiting_room, get_route,
  existing_session, to_poll_response, waiting_response, waiting_room_required,
}
use se_ticketbox.WaitingRoom.Queue.{
  Event, run, all_spare, IsAdmitted, join_waiting_room-IsAdmitted, admitted_stays,
}
use se_ticketbox.Scanner.{delivered}
use se_ticketbox.Purchase.{
  Tab, granted, request_purchase_access, remaining_ms, read_admitted_token, fetch_poll,
  store_admitted_token,
}
use se_ticketbox.Purchase.Page.{
  Page, PageStatus, join_queue, poll_page, fetch_join, handle_admitted,
}

poll_page-admitted :
    (now token c id : ℕ) (p : Page) (t : Tab) (s : Room)
    → p.status ≡ PageStatus.waiting
    → p.session_id ≡ some id
    → p.was_admitted ≡ false
    → IsAdmitted (poll_waiting_room now token id s).0
    → (poll_page delivered now token c p t s).0.status ≡ PageStatus.admitted
unfolding poll_page fetch_poll get_route handle_admitted
poll_page-admitted now token c id p t s w i a h =
    elim (Option-cases (poll_waiting_room now token id s).0) [
      | inl e ↦ ground (arith, h, e)
      | inr (is_admitted q k x, e) ↦ ground (arith, w, i, a, e)
      | inr (must_wait q k x, e) ↦ ground (arith, h, e)
    ]

abbrev Queued : ℕ → Page → Type 0
Queued id p = (p.status ≡ PageStatus.waiting) × (p.session_id ≡ some id) × (p.was_admitted ≡ false)

-- After a join that is answered, the page is admitted or waits with the session that was drawn.
join_queue-Queued :
    (env : Env) (now : ℕ) (d : Draw) (c : ℕ) (p : Page) (t : Tab) (s : Room)
    → t.session c ≡ none
    → p.was_admitted ≡ false
    → let q = join_queue delivered env now d c p t s in
      (q.2 ≡ (join_waiting_room env now d c none s).1)
      × ((q.0.status ≡ PageStatus.admitted) ⊎ Queued d.session_id q.0)
unfolding join_queue fetch_join handle_admitted join_waiting_room existing_session to_poll_response
    waiting_response
join_queue-Queued env now d c p t s new a =
    elim (Bool-cases (waiting_room_required env now c s).0) [
      | inl e ↦ (ground (arith, new, e), inr (ground (arith, new, a, e)))
      | inr e ↦ (ground (arith, new, e), inl (ground (arith, new, a, e)))
    ]

poll_page-stays :
    (now token c : ℕ) (p : Page) (t : Tab) (s : Room)
    → p.status ≡ PageStatus.admitted
    → (poll_page delivered now token c p t s).0.status ≡ PageStatus.admitted
unfolding poll_page
poll_page-stays now token c p t s h = ground (arith, h)

-- A page that joins for the first time in its tab, and whose requests are answered, is admitted by a
-- poll 38 seconds after the join or later, whatever other joins and polls lie between, where no other
-- join draws the same id.
pub page_is_admitted :
    (env : Env) (now later token : ℕ) (d : Draw) (c : ℕ) (p : Page) (t : Tab) (s : Room)
    (es : List Event)
    → t.session c ≡ none
    → p.was_admitted ≡ false
    → d.random_wait < 26000
    → all_spare d.session_id es ≡ true
    → now + 38000 ≤ later
    → let (p', t', s') = join_queue delivered env now d c p t s in
      (poll_page delivered later token c p' t' (run env es s')).0.status ≡ PageStatus.admitted
page_is_admitted env now later token d c p t s es new a drawn spare due =
    let q = join_queue delivered env now d c p t s in
    let (same, state) = join_queue-Queued env now d c p t s new a in
    elim state [
      | inl h ↦ poll_page-stays later token c q.0 q.1 (run env es q.2) h
      | inr h ↦
          poll_page-admitted later token c d.session_id q.0 q.1 (run env es q.2) h.0 h.1 h.2
            (rw same (join_waiting_room-IsAdmitted env now later token d c s es drawn spare due))
    ]

-- A token is worth nothing once it has expired, and the session never gives another one: after a poll
-- that admits the tab's session with the end `x`, a request for access later than `x` is granted with
-- that same token and finds no time left on it right after, whatever requests lie between.
pub expired_token_stays :
    (env : Env) (now later token token' id k c : ℕ) (b : Bool) (x : ℕ) (t : Tab) (s : Room)
    (es : List Event)
    → (poll_waiting_room now token id s).0 ≡ some (is_admitted b k (some x))
    → all_spare id es ≡ true
    → t.session c ≡ some id
    → t.token c ≡ some (record { token = k; expires_at = x })
    → x < later
    → let s' = run env es (poll_waiting_room now token id s).1 in
      let (answer, t', s'') = request_purchase_access delivered later token' c true t s' in
      (answer ≡ ok (granted (some k))) × ((remaining_ms later c t').0 ≡ none)
unfolding request_purchase_access read_admitted_token remaining_ms fetch_poll store_admitted_token
    get_route
expired_token_stays env now later token token' id k c b x t s es h spare mine held over = ground (
  arith,
  mine,
  held,
  over,
  admitted_stays env now later token token' id k b (some x) s es h spare,
)
