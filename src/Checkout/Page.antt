-- ===== src/Checkout/Page.antt =====
-- The page that confirms an order: frontend/customer-web/components/checkout/CheckoutPage.tsx, with
-- lib/concert-backend-mapping.ts. What the backend answers, the hash of a body and the fields of an
-- answer are parameters; the page's user is logged in.
use se_ticketbox.Prelude.{
  ℕ, Bool, true, false, Option, none, some, List, [], ◌∷◌, ◌==◌, if◌then◌else◌,
}
use se_ticketbox.Prelude.Text.{Text, text_eq}
use se_ticketbox.Store.{Error, Result}
use se_ticketbox.Order.Validate.{ItemDto}
use se_ticketbox.Idempotency.{Keys}
use se_ticketbox.Idempotency.Replay.{post}
use se_ticketbox.Purchase.{
  Tab, TokenRecord, Gatekeeper, redirect, at, read_admitted_token, abandon_purchase_flow,
}
use se_ticketbox.SeatPicker.{ZoneSelection}
use se_ticketbox.Checkout.{
  ScopedKeys, get_or_create_key, clear_key, Attempt, Sent, created, refused, not_reached,
  still_processing, create_order_with_retry,
}

-- The id and the name of `TicketTypeAvailability`.
pub record TypeAvailability : Type 0 where
  pub id : ℕ
  pub name : Text

abbrev or_else {ℓ} : {A : Type ℓ} → Option A → Option A → Option A
or_else (some a) b = some a
or_else none b = b

-- `byId` and `byName`: of two types with one key, a `Map` keeps the last.
unfoldable pub by_id : List TypeAvailability → ℕ → Option TypeAvailability
by_id [] id = none
by_id (t ∷ ts) id = or_else (by_id ts id) (if t.id == id then some t else none)

unfoldable pub by_name : (Text → Text) → List TypeAvailability → Text → Option TypeAvailability
by_name lower [] name = none
by_name lower (t ∷ ts) name =
    or_else (by_name lower ts name) (if text_eq (lower t.name) name then some t else none)

abbrev pub item_of : ℕ → Option TypeAvailability → Option ItemDto
item_of quantity none = none
item_of quantity (some t) = some (record { ticket_type_id = t.id; quantity = quantity })

-- `mapZoneSelectionToOrderItems`, with the type's name of the selection; it throws where no type fits.
unfoldable pub map_selection :
    (Text → Text) → ZoneSelection → Text → List TypeAvailability → Option ItemDto
map_selection lower c name types =
    or_else (item_of c.quantity (by_id types c.ticket_type_id))
      (item_of c.quantity (by_name lower types (lower name)))

pub data CheckoutStep : Type 0 where
  review processing error : CheckoutStep

-- Where the page has gone.
pub data Place : Type 0 where
  stays : Place
  payment_page : (order url : ℕ) → Place

-- The state of the page of a concert, and what its tab keeps.
pub record CheckoutPage : Type 0 where
  pub step : CheckoutStep
  pub locked : Bool
  pub selection : Option ZoneSelection
  pub type_name : Text
  pub order : Option ℕ
  pub place : Place
  pub gate : Gatekeeper
  pub tab : Tab
  pub keys : ScopedKeys
  pub saved_selection : Option ZoneSelection
  pub seats_saved : Bool

-- `toLowerCase`, the backend's handler of an order, the hash of its body, the errors whose message is about the
-- waiting room, and the order's id and payment address in an answer.
pub record Shop (W : Type 0) : Type 1 where
  pub lower : Text → Text
  pub handler : ItemDto → W → Result ℕ × W
  pub hash : ItemDto → ℕ
  pub is_waiting_room_error : Error → Bool
  pub order_id : ℕ → ℕ
  pub payment_url : ℕ → Option ℕ

-- What a click meets: its time, a key that can be drawn, the ticket types if they come, the attempts,
-- and whether the user is still on a purchase page when it fails.
pub record Meets : Type 0 where
  pub now : ℕ
  pub drawn : ℕ
  pub types : Option (List TypeAvailability)
  pub attempts : List Attempt
  pub on_path : Bool

abbrev pub to_waiting : Bool → ℕ → CheckoutPage → CheckoutPage
to_waiting on_path c p = record p { gate = redirect on_path (p.tab.pending_order c) p.gate }

-- The `catch` with an error that is shown.
abbrev pub show_error : CheckoutPage → CheckoutPage
show_error p = record p { locked = false; step = error }

-- After an order with an address.
abbrev pub leave : ℕ → (order url : ℕ) → CheckoutPage → CheckoutPage
leave c order url p =
    let t = abandon_purchase_flow c p.tab in
    record p {
      keys = clear_key c p.keys;
      saved_selection = none;
      seats_saved = false;
      tab = record t { pending_order = at c (some order) t.pending_order };
      order = some order;
      place = payment_page order url;
    }

abbrev pub after_answer : ℕ → ℕ → Option ℕ → CheckoutPage → CheckoutPage
after_answer c order none p = show_error p
after_answer c order (some url) p = leave c order url p

module _ {W : Type 0} (shop : Shop W) where
  abbrev pub after_sent : Bool → ℕ → Sent → CheckoutPage → CheckoutPage
  after_sent on_path c (created body) p =
      after_answer c (shop.order_id body) (shop.payment_url body) p
  after_sent on_path c (refused e) p =
      if shop.is_waiting_room_error e
      then to_waiting on_path c (record p { locked = false; tab = abandon_purchase_flow c p.tab })
      else show_error p
  after_sent on_path c not_reached p = show_error p
  after_sent on_path c still_processing p = show_error p

  -- The `try` up to the answer.
  abbrev pub send_item :
      Meets → ℕ → ℕ → Option ItemDto → CheckoutPage → Keys × W → CheckoutPage × Keys × W
  send_item k c key none p (m, w) = (show_error p, m, w)
  send_item k c key (some item) p s =
      let (sent, m, w) =
        create_order_with_retry (shop.handler item) (post key (shop.hash item)) k.attempts s in
      (after_sent k.on_path c sent p, m, w)

  abbrev pub item_from : ZoneSelection → Text → Option (List TypeAvailability) → Option ItemDto
  item_from choice name none = none
  item_from choice name (some types) = map_selection shop.lower choice name types

  abbrev pub with_token :
      Meets
      → ℕ
      → ZoneSelection
      → Option TokenRecord × Tab
      → CheckoutPage
      → Keys × W
      → CheckoutPage × Keys × W
  with_token k c choice (none, t) p (m, w) = (to_waiting k.on_path c (record p { tab = t }), m, w)
  with_token k c choice (some r, t) p s =
      let (key, keys) = get_or_create_key c k.drawn p.keys in
      let p' : CheckoutPage = record p { tab = t; locked = true; keys = keys; step = processing } in
      send_item k c key (item_from choice p.type_name k.types) p' s

  abbrev pub checkout_of :
      Meets → ℕ → Option ZoneSelection → CheckoutPage → Keys × W → CheckoutPage × Keys × W
  checkout_of k c none p (m, w) = (p, m, w)
  checkout_of k c (some choice) p (m, w) =
      if p.locked
      then (p, m, w)
      else with_token k c choice (read_admitted_token k.now c p.tab) p (m, w)

  -- `handleCheckout`.
  unfoldable pub handle_checkout : Meets → ℕ → CheckoutPage → Keys × W → CheckoutPage × Keys × W
  unfolding create_order_with_retry get_or_create_key read_admitted_token abandon_purchase_flow
  handle_checkout k c p s = checkout_of k c p.selection p s
