-- ===== src/Purchase.antt =====
-- A customer's way through the waiting room: frontend/customer-web/lib/waiting-room-storage.ts,
-- waiting-room-intent.ts, waiting-room-abandon.ts, waiting-room-access.ts and purchase-routes.ts, with
-- the hooks hooks/useWaitingRoom.ts and hooks/usePurchaseAccess.ts, against the waiting room of
-- WaitingRoom. The tab's storage always works.
pub mod Page
pub mod Admission
use se_ticketbox.Prelude.{
  ℕ, ◌+◌, ◌-◌, Bool, true, false, not, ◌&&◌, ◌||◌, Option, none, some, List, [], ◌∷◌, ◌++◌, ltb,
  ◌==◌, if◌then◌else◌,
}
use se_ticketbox.Prelude.Text.{Text, codes, text_eq}
use se_ticketbox.Store.{Error, database, Result, ok, err}
use se_ticketbox.WaitingRoom.{
  Env, Draw, Room, PollResponse, is_admitted, must_wait, join_waiting_room, get_route, token_ttl,
}
use se_ticketbox.Scanner.{Delivery, delivered, response_lost, request_lost}

-- `AdmittedTokenRecord`.
pub record TokenRecord : Type 0 where
  pub token : ℕ
  pub expires_at : ℕ

-- The keys of `sessionStorage`, by concert.
pub record Tab : Type 0 where
  pub session : ℕ → Option ℕ
  pub token : ℕ → Option TokenRecord
  pub intent : ℕ → Option ℕ
  pub pending_order : ℕ → Option ℕ

abbrev pub at {ℓ} : {A : Type ℓ} → ℕ → A → (ℕ → A) → ℕ → A
at c a f k = if k == c then a else f k

-- `writeWaitingSession` and `clearWaitingSession`.
abbrev pub write_session : ℕ → Option ℕ → Tab → Tab
write_session c id t = record t { session = at c id t.session }

abbrev pub write_token : ℕ → Option TokenRecord → Tab → Tab
write_token c r t = record t { token = at c r t.token }

abbrev pub expiry_or : ℕ → Option ℕ → ℕ
expiry_or now none = now + token_ttl
expiry_or now (some x) = x

-- `storeAdmittedToken`.
unfoldable pub store_admitted_token : ℕ → ℕ → ℕ → Option ℕ → Tab → Tab
store_admitted_token now c token x t =
    write_token c (some (record { token = token; expires_at = expiry_or now x })) t

-- `readAdmittedTokenRecord`, which removes a token that has expired.
abbrev pub unexpired_token : ℕ → ℕ → Option TokenRecord → Tab → Option TokenRecord × Tab
unexpired_token now c none t = (none, t)
unexpired_token now c (some r) t =
    if ltb r.expires_at now then (none, write_token c none t) else (some r, t)

unfoldable pub read_admitted_token : ℕ → ℕ → Tab → Option TokenRecord × Tab
read_admitted_token now c t = unexpired_token now c (t.token c) t

-- `getAdmittedTokenRemainingMs`.
abbrev pub time_left : ℕ → Option TokenRecord → Option ℕ
time_left now none = none
time_left now (some r) = some (r.expires_at - now)

unfoldable pub remaining_ms : ℕ → ℕ → Tab → Option ℕ × Tab
unfolding read_admitted_token
remaining_ms now c t = let (r, t') = read_admitted_token now c t in (time_left now r, t')

-- `setPurchaseIntent`, and `clearPurchaseIntent` with none.
abbrev pub write_intent : ℕ → Option ℕ → Tab → Tab
write_intent c now t = record t { intent = at c now t.intent }

-- `abandonPurchaseFlow`.
unfoldable pub abandon_purchase_flow : ℕ → Tab → Tab
abandon_purchase_flow c t = write_token c none (write_session c none (write_intent c none t))

-- `abandonAllPurchaseFlows`.
unfoldable pub abandon_all_purchase_flows : Tab → Tab
abandon_all_purchase_flows t = record t {
  session = λ c. none;
  token = λ c. none;
  intent = λ c. none;
}

-- `isPurchaseFlowPath`, for a concert's id as a text.
unfoldable pub is_purchase_flow_path : (path concert_id : Text) → Bool
is_purchase_flow_path path concert_id =
    let base = codes "/concerts/" ++ concert_id in
    text_eq path (base ++ codes "/waiting")
    || (text_eq path (base ++ codes "/seats") || text_eq path (base ++ codes "/checkout"))

-- A `fetch` of a poll: the answer if it arrives, and what the server did.
unfoldable pub fetch_poll : Delivery → ℕ → ℕ → ℕ → Room → Option (Result PollResponse) × Room
unfolding get_route
fetch_poll delivered now token id s = let (r, s') = get_route now token (some id) s in (some r, s')
fetch_poll response_lost now token id s = (none, (get_route now token (some id) s).1)
fetch_poll request_lost now token id s = (none, s)

-- `PurchaseAccessResult`.
pub data Access : Type 0 where
  granted : (token : Option ℕ) → Access
  to_waiting_room : Access

-- `pollExistingSession`, on the answer of the `fetch`: an error where it is lost, and none where the
-- session does not count.
abbrev pub take_poll : ℕ → ℕ → Option (Result PollResponse) → Tab → Result (Option Access) × Tab
take_poll now c none t = (err database, t)
take_poll now c (some (err e)) t = (ok none, t)
take_poll now c (some (ok (is_admitted required token x))) t =
    (ok (some (granted (some token))), store_admitted_token now c token x t)
take_poll now c (some (ok (must_wait required p x))) t =
    (ok (if required then some to_waiting_room else none), t)

abbrev pub or_waiting_room : ℕ → Result (Option Access) × Tab → Result Access × Tab
or_waiting_room c (err e, t) = (err e, t)
or_waiting_room c (ok none, t) = (ok to_waiting_room, write_session c none t)
or_waiting_room c (ok (some a), t) = (ok a, t)

abbrev pub access_by_session :
    Delivery → ℕ → ℕ → ℕ → Option ℕ → Tab → Room → Result Access × Tab × Room
access_by_session way now token c none t s = (ok to_waiting_room, t, s)
access_by_session way now token c (some id) t s =
    let (answer, s') = fetch_poll way now token id s in
    let (a, t') = or_waiting_room c (take_poll now c answer t) in (a, t', s')

abbrev pub access_by_token :
    Delivery → ℕ → ℕ → ℕ → Bool → Option TokenRecord × Tab → Room → Result Access × Tab × Room
access_by_token way now token c require_token (some r, t) s = (ok (granted (some r.token)), t, s)
access_by_token way now token c require_token (none, t) s =
    if require_token
    then access_by_session way now token c (t.session c) t s
    else (ok (granted none), t, s)

-- `requestPurchaseAccess`.
unfoldable pub request_purchase_access :
    Delivery → ℕ → ℕ → ℕ → Bool → Tab → Room → Result Access × Tab × Room
unfolding fetch_poll read_admitted_token store_admitted_token
request_purchase_access way now token c require_token t s =
    access_by_token way now token c require_token (read_admitted_token now c t) s

-- The state of `usePurchaseAccess`, with whether `onAccessLost` has been called.
pub record Gatekeeper : Type 0 where
  pub access_lost : Bool
  pub access_checked : Bool
  pub access_error : Bool
  pub token_remaining : Option ℕ
  pub redirected : Bool

abbrev pub is_some {ℓ} : {A : Type ℓ} → Option A → Bool
is_some none = false
is_some (some a) = true

-- `redirectToWaiting`.
abbrev pub redirect : Bool → Option ℕ → Gatekeeper → Gatekeeper
redirect on_path order g = record g {
  redirected = (on_path && not (is_some order)) || g.redirected;
}

abbrev pub take_access :
    Bool → ℕ → ℕ → Result Access × Tab × Room → Gatekeeper → Gatekeeper × Tab × Room
take_access on_path now c (err e, t, s) g = (record g { access_error = true }, t, s)
take_access on_path now c (ok to_waiting_room, t, s) g =
    (redirect on_path (t.pending_order c) g, t, s)
take_access on_path now c (ok (granted none), t, s) g =
    (record g { access_checked = true; token_remaining = none }, t, s)
take_access on_path now c (ok (granted (some token)), t, s) g =
    let (left, t') = remaining_ms now c t in
    (record g { access_checked = true; token_remaining = left }, t', s)

-- `verifyAccess`.
unfoldable pub verify_access :
    Delivery → Bool → ℕ → ℕ → ℕ → Bool → Gatekeeper → Tab → Room → Gatekeeper × Tab × Room
unfolding request_purchase_access remaining_ms
verify_access way on_path now token c require_token g t s =
    let g' : Gatekeeper = record g { access_checked = false; access_error = false } in
    if is_some (t.pending_order c)
    then (record g' { access_checked = true; token_remaining = none }, t, s)
    else take_access on_path now c (request_purchase_access way now token c require_token t s) g'

abbrev pub take_remaining : Bool → ℕ → Option ℕ × Tab → Gatekeeper → Gatekeeper × Tab
take_remaining on_path c (none, t) g =
    (redirect on_path (t.pending_order c) (record g { access_lost = true }), t)
take_remaining on_path c (some left, t) g = (record g { token_remaining = some left }, t)

-- `checkToken`, which runs while a token is required and the access is checked.
unfoldable pub check_token : Bool → ℕ → ℕ → Gatekeeper → Tab → Gatekeeper × Tab
unfolding remaining_ms
check_token on_path now c g t =
    if not on_path || is_some (t.pending_order c)
    then (g, t)
    else take_remaining on_path c (remaining_ms now c t) g
