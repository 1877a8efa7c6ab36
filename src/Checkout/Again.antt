-- ===== src/Checkout/Again.antt =====
-- A checkout whose first answer is lost
-- (frontend/customer-web/components/checkout/CheckoutPage.tsx and lib/idempotency.ts).
use se_ticketbox.Prelude.{
  ℕ, ◌+◌, ◌<◌, ◌≡◌, refl, ap, true, false, none, some, List, [], ◌∷◌, ltb, ◌==◌, arith, inl, inr,
  Option-cases,
}
use se_ticketbox.Store.{ok}
use se_ticketbox.Order.Validate.{ItemDto}
use se_ticketbox.Idempotency.{Keys, get_record}
use se_ticketbox.Idempotency.Replay.{post}
use se_ticketbox.Scanner.{delivered, response_lost}
use se_ticketbox.Purchase.{TokenRecord, read_admitted_token, abandon_purchase_flow}
use se_ticketbox.SeatPicker.{ZoneSelection}
use se_ticketbox.Checkout.{
  ScopedKeys, get_or_create_key, clear_key, Attempt, create_order_with_retry, send_all,
}
use se_ticketbox.Checkout.Once.{arrives, order_created_once, clicks_before}
use se_ticketbox.Checkout.Page.{
  CheckoutPage, CheckoutStep, Shop, Meets, TypeAvailability, payment_page, map_selection,
  after_sent, handle_checkout,
}

-- A key stays until it is cleared, whatever could be drawn later.
get_or_create_key_again :
    (c drawn later : ℕ) (k : ScopedKeys)
    → get_or_create_key c later (get_or_create_key c drawn k).1 ≡ get_or_create_key c drawn k
unfolding get_or_create_key
get_or_create_key_again c drawn later k = elim (Option-cases (k.memory c)) [
  | inl e ↦ elim (Option-cases (k.storage c)) [
    | inl f ↦ ground (arith, e, f)
    | inr (key, f) ↦ ground (arith, e, f)
  ]
  | inr (key, e) ↦ ground (arith, e)
]

module _ {W : Type 0} (shop : Shop W) where
  -- The page while its order is sent.
  abbrev sending : ℕ → ℕ → CheckoutPage → CheckoutPage
  sending c drawn p = record p {
    locked = true;
    keys = (get_or_create_key c drawn p.keys).1;
    step = CheckoutStep.processing;
  }

  handle_checkout-create_order_with_retry :
      (c : ℕ) (k : Meets) (p : CheckoutPage) (choice : ZoneSelection) (r : TokenRecord)
      (types : List TypeAvailability) (item : ItemDto) (m : Keys) (w : W)
      → p.selection ≡ some choice
      → p.locked ≡ false
      → p.tab.token c ≡ some r
      → ltb r.expires_at k.now ≡ false
      → k.types ≡ some types
      → map_selection shop.lower choice p.type_name types ≡ some item
      → let key = (get_or_create_key c k.drawn p.keys).0 in
        let (sent, m', w') =
          create_order_with_retry
            (shop.handler item)
            (post key (shop.hash item))
            k.attempts
            (m, w) in
        handle_checkout shop k c p (m, w)
        ≡ (after_sent shop k.on_path c sent (sending c k.drawn p), m', w')
  unfolding handle_checkout read_admitted_token
  handle_checkout-create_order_with_retry c k p choice r types item m w selected unlocked kept valid
        offered fits =
      ground (arith, selected, unlocked, kept, valid, offered, fits)

  -- Where the backend has created the order of a click but the answer is lost, the page shows an error,
  -- and a second click within 15 minutes of the order's creation, whose request is answered, leads to
  -- the payment of that same order: no second one is created, the order is kept as pending and the key
  -- is cleared. The ticket types still fit and the token of the waiting room is valid at both clicks.
  pub lost_checkout_completes :
      (c : ℕ) (k k' : Meets) (p : CheckoutPage) (choice : ZoneSelection) (r : TokenRecord)
      (types : List TypeAvailability) (item : ItemDto) (a b : Attempt) (rest rest' : List Attempt)
      (body url : ℕ) (m : Keys) (w w' : W)
      → p.selection ≡ some choice
      → p.locked ≡ false
      → p.tab.token c ≡ some r
      → ltb r.expires_at k.now ≡ false
      → ltb r.expires_at k'.now ≡ false
      → k.types ≡ some types
      → k'.types ≡ some types
      → map_selection shop.lower choice p.type_name types ≡ some item
      → k.attempts ≡ a ∷ rest
      → k'.attempts ≡ b ∷ rest'
      → a.way ≡ response_lost
      → b.way ≡ delivered
      → get_record a.now (get_or_create_key c k.drawn p.keys).0 m ≡ none
      → shop.handler item w ≡ (ok body, w')
      → (body == 0) ≡ false
      → shop.payment_url body ≡ some url
      → b.now < a.done + 900000
      → let (q, n, v) = handle_checkout shop k c p (m, w) in
        let (q', n', v') = handle_checkout shop k' c q (n, v) in
        (q.step ≡ CheckoutStep.error)
        × (v' ≡ w')
        × (q'.place ≡ payment_page (shop.order_id body) url)
        × (q'.tab.pending_order c ≡ some (shop.order_id body))
        × (q'.keys.memory c ≡ none)
        × (q'.keys.storage c ≡ none)
  unfolding create_order_with_retry send_all abandon_purchase_flow clear_key clicks_before
  lost_checkout_completes c k k' p choice r types item a b rest rest' body url m w w' selected
        unlocked kept valid valid' offered offered' fits sends sends' lost answered free run full
        paid soon =
      let key = (get_or_create_key c k.drawn p.keys).0 in
      let hash = shop.hash item in
      let (same, nothing, again) =
        order_created_once (shop.handler item) a b rest rest' key hash body [] m w w' free run full
          (ap arrives lost) answered soon refl in
      let q : CheckoutPage = record (sending c k.drawn p) {
        locked = false;
        step = CheckoutStep.error;
      } in
      let n = (create_order_with_retry (shop.handler item) (post key hash) (a ∷ rest) (m, w)).1 in
      let first =
        handle_checkout-create_order_with_retry c k p choice r types item m w selected unlocked kept
          valid offered fits in
      let second =
        handle_checkout-create_order_with_retry c k' q choice r types item n w' selected refl kept
          valid' offered' fits in
      ground (
        arith,
        first,
        sends,
        lost,
        second,
        sends',
        same,
        again,
        paid,
        get_or_create_key_again c k.drawn k'.drawn p.keys,
      )
