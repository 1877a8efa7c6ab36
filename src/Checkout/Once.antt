-- ===== src/Checkout/Once.antt =====
-- An order is created once (frontend/customer-web/lib/create-order-retry.ts with
-- backend/src/common/interceptors/idempotency.interceptor.ts).
use se_ticketbox.Prelude.{
  ℕ, ◌+◌, ◌<◌, ◌≡◌, refl, Bool, true, false, ◌&&◌, none, List, [], ◌∷◌, take, zero, suc, ltb, ◌==◌,
  if◌then◌else◌, arith,
}
use se_ticketbox.Store.{conflict, Result, ok, err}
use se_ticketbox.Idempotency.{Keys, intercept, get_record}
use se_ticketbox.Idempotency.Replay.{post, intercept_again}
use se_ticketbox.Scanner.{Delivery, delivered, response_lost, request_lost}
use se_ticketbox.Checkout.{Attempt, created, answer_or, send_all, create_order_with_retry}

unfoldable pub all_before : ℕ → List Attempt → Bool
all_before limit [] = true
all_before limit (a ∷ rest) = ltb a.now limit && all_before limit rest

all_before-take :
    (limit n : ℕ) (xs : List Attempt)
    → all_before limit xs ≡ true
    → all_before limit (take n xs) ≡ true
unfolding all_before
all_before-take limit zero xs h = refl
all_before-take limit (suc n) [] h = refl
all_before-take limit (suc n) (x ∷ xs) h = ground (arith, h, all_before-take limit n xs)

-- Another use of the checkout: the hash of its order, and its attempts.
pub record Click : Type 0 where
  pub hash : ℕ
  pub attempts : List Attempt

abbrev pub arrives : Delivery → Bool
arrives delivered = true
arrives response_lost = true
arrives request_lost = false

module _ {W : Type 0} (handler : W → Result ℕ × W) where
  -- What is left after more uses of one key.
  unfoldable pub click_all : ℕ → List Click → Keys × W → Keys × W
  unfolding create_order_with_retry
  click_all key [] s = s
  click_all key (c ∷ cs) s =
      let (answer, m, w) = create_order_with_retry handler (post key c.hash) c.attempts s in
      click_all key cs (m, w)

  unfoldable pub clicks_before : ℕ → List Click → Bool
  unfolding all_before
  clicks_before limit [] = true
  clicks_before limit (c ∷ cs) = all_before limit c.attempts && clicks_before limit cs

  -- A key whose requests are answered without the handler up to a time.
  abbrev Decided : ℕ → ℕ → ℕ → ℕ → Keys × W → Type 0
  Decided limit key hash body (m, w) =
      (now done hash' : ℕ)
      → now < limit
      → intercept handler now done (post key hash') (m, w)
        ≡ ((if hash == hash' then ok body else err conflict), m, w)

  send_all_stays :
      (limit key hash hash' body : ℕ) (xs : List Attempt) (m : Keys) (w : W)
      → Decided limit key hash body (m, w)
      → all_before limit xs ≡ true
      → ((send_all handler (post key hash') xs (m, w)).1 ≡ m)
        × ((send_all handler (post key hash') xs (m, w)).2 ≡ w)
  unfolding send_all all_before
  send_all_stays limit key hash hash' body [] m w d h = (refl, refl)
  send_all_stays limit key hash hash' body (a ∷ rest) m w d h =
      let here = d a.now a.done hash' (ground (arith, h)) in
      let next = send_all_stays limit key hash hash' body rest m w d (ground (arith, h)) in
      by_way a.way here next
    where
      by_way :
          (way : Delivery)
          → intercept handler a.now a.done (post key hash') (m, w)
            ≡ ((if hash == hash' then ok body else err conflict), m, w)
          → ((send_all handler (post key hash') rest (m, w)).1 ≡ m)
            × ((send_all handler (post key hash') rest (m, w)).2 ≡ w)
          → let q =
              answer_or handler way
                (intercept handler a.now a.done (post key hash') (m, w))
                (m, w)
                (send_all handler (post key hash') rest) in
            (q.1 ≡ m) × (q.2 ≡ w)
      by_way delivered here next = ground (arith, here, next)
      by_way response_lost here next = ground (arith, here)
      by_way request_lost here next = (refl, refl)

  click_all_stays :
      (limit key hash body : ℕ) (cs : List Click) (m : Keys) (w : W)
      → Decided limit key hash body (m, w)
      → clicks_before limit cs ≡ true
      → click_all key cs (m, w) ≡ (m, w)
  unfolding click_all clicks_before create_order_with_retry
  click_all_stays limit key hash body [] m w d h = refl
  click_all_stays limit key hash body (c ∷ cs) m w d h =
      let few = take 15 c.attempts in
      let (same_keys, same_state) =
        send_all_stays limit key hash c.hash body few m w d
          (all_before-take limit 15 c.attempts (ground (arith, h))) in
      rw (same_keys, same_state) (click_all_stays limit key hash body cs m w d (ground (arith, h)))

  intercept-Decided :
      (now done key hash body : ℕ) (m : Keys) (w w' : W)
      → get_record now key m ≡ none
      → handler w ≡ (ok body, w')
      → (body == 0) ≡ false
      → Decided
          (done + 900000)
          key
          hash
          body
          ((intercept handler now done (post key hash) (m, w)).1, w')
  intercept-Decided now done key hash body m w w' free run full later later' hash' fresh =
      (intercept_again handler handler now done later later' key hash hash' body m w w' free run
        full fresh).1

  -- An order that the backend has created under a free key is created once: where the first attempt
  -- reaches the backend, whether its answer arrives or not, no further attempt and no further use of
  -- the key, with the same order or another one, changes anything until 15 minutes after its end, and
  -- the same order sent again and answered gets the first answer and changes nothing.
  pub order_created_once :
      (a b : Attempt) (rest rest' : List Attempt) (key hash body : ℕ) (cs : List Click) (m : Keys)
      (w w' : W)
      → get_record a.now key m ≡ none
      → handler w ≡ (ok body, w')
      → (body == 0) ≡ false
      → arrives a.way ≡ true
      → b.way ≡ delivered
      → b.now < a.done + 900000
      → clicks_before (a.done + 900000) cs ≡ true
      → let (answer, m', v) = create_order_with_retry handler (post key hash) (a ∷ rest) (m, w) in
        (v ≡ w')
        × (click_all key cs (m', v) ≡ (m', v))
        × (create_order_with_retry handler (post key hash) (b ∷ rest') (m', v)
            ≡ (created body, m', v))
  unfolding create_order_with_retry send_all
  order_created_once a b rest rest' key hash body cs m w w' free run full arrived answered soon
        before =
      by_way a.way arrived
    where
      m' : Keys
      m' = (intercept handler a.now a.done (post key hash) (m, w)).1

      first : intercept handler a.now a.done (post key hash) (m, w) ≡ (ok body, m', w')
      first =
          (intercept_again handler handler a.now a.done b.now b.done key hash hash body m w w' free
            run full soon).0

      decided : Decided (a.done + 900000) key hash body (m', w')
      decided = intercept-Decided a.now a.done key hash body m w w' free run full

      stays : click_all key cs (m', w') ≡ (m', w')
      stays = click_all_stays (a.done + 900000) key hash body cs m' w' decided before

      again :
          create_order_with_retry handler (post key hash) (b ∷ rest') (m', w')
          ≡ (created body, m', w')
      again = ground (arith, answered, decided b.now b.done hash soon)

      by_way :
          (way : Delivery)
          → arrives way ≡ true
          → let (answer, n, v) =
              answer_or handler way
                (intercept handler a.now a.done (post key hash) (m, w))
                (m, w)
                (send_all handler (post key hash) (take 14 rest)) in
            (v ≡ w')
            × (click_all key cs (n, v) ≡ (n, v))
            × (create_order_with_retry handler (post key hash) (b ∷ rest') (n, v)
                ≡ (created body, n, v))
      by_way delivered h = rw first (refl, stays, again)
      by_way response_lost h = rw first (refl, stays, again)
      by_way request_lost h = absurd (ground (arith, h))
