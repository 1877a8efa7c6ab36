-- ===== src/Tests/Requests.antt =====
-- The theorems on requests that are sent twice, on an empty store.
use se_ticketbox.Prelude.{ℕ, false, true, ◌≡◌, ◌+◌, refl, arith, none, some, [], ◌∷◌}
use se_ticketbox.Prelude.Table.{find}
use se_ticketbox.Store.{Result, ok}
use se_ticketbox.Prelude.Text.{codes, text_eq}
use se_ticketbox.Idempotency.Body.{
  null, number, Fields, no_fields, field, SameFields, swapped, null_dropped, behind, chained,
  normalize_fields, normalize_fields-SameFields,
}
use se_ticketbox.Idempotency.{get_record}
use se_ticketbox.Idempotency.Replay.{post}
use se_ticketbox.Scanner.{delivered, response_lost}
use se_ticketbox.Order.Validate.{ItemDto}
use se_ticketbox.Purchase.{Tab, TokenRecord}
use se_ticketbox.SeatPicker.{ZoneSelection}
use se_ticketbox.Checkout.{Attempt, created, create_order_with_retry, get_or_create_key}
use se_ticketbox.Checkout.Page.{
  CheckoutPage, Shop, Meets, TypeAvailability, review, error, stays, payment_page, map_selection,
  by_id, handle_checkout,
}
use se_ticketbox.Checkout.Again.{lost_checkout_completes}
use se_ticketbox.Checkout.Once.{Click, all_before, click_all, clicks_before, order_created_once}

-- A handler that counts its runs and answers 7.
abbrev counting : ℕ → Result ℕ × ℕ
counting n = (ok 7, n + 1)

none_yet : get_record 0 1 [] ≡ none
unfolding get_record find
none_yet = refl

abbrev body : Fields
body =
    field (codes "b") (number 1) (field (codes "a") (number 2) (field (codes "c") null no_fields))

abbrev reordered : Fields
reordered = field (codes "a") (number 2) (field (codes "b") (number 1) no_fields)

b_not_a : text_eq (codes "b") (codes "a") ≡ false
unfolding text_eq
b_not_a = refl

body-SameFields : SameFields body reordered
body-SameFields =
    let last = field (codes "c") null no_fields in
    let tail = field (codes "b") (number 1) last in
    let tail' = field (codes "b") (number 1) no_fields in
    chained body (field (codes "a") (number 2) tail) reordered
      (swapped (codes "b") (codes "a") (number 1) (number 2) last b_not_a)
      (behind (codes "a") (number 2) tail tail'
        (behind (codes "b") (number 1) last no_fields (null_dropped (codes "c") no_fields)))

normalize_fields-SameFields_example : normalize_fields body ≡ normalize_fields reordered
normalize_fields-SameFields_example = normalize_fields-SameFields body reordered body-SameFields

-- The first attempt, whose answer is lost, and one that is answered, half a second later.
abbrev lost : Attempt
lost = record { now = 0; done = 100; way = response_lost }

abbrev answered : Attempt
answered = record { now = 500; done = 600; way = delivered }

-- Another order under the same key.
abbrev other_order : Click
other_order = record { hash = 6; attempts = answered ∷ answered ∷ [] }

soon : clicks_before counting 900100 (other_order ∷ []) ≡ true
unfolding clicks_before all_before
soon = refl

order_created_once_example :
    let (answer, m, v) = create_order_with_retry counting (post 1 5) (lost ∷ []) ([], 0) in
    (v ≡ 1)
    × (click_all counting 1 (other_order ∷ []) (m, v) ≡ (m, v))
    × (create_order_with_retry counting (post 1 5) (answered ∷ []) (m, v) ≡ (created 7, m, v))
order_created_once_example =
    order_created_once counting lost answered [] [] 1 5 7 (other_order ∷ []) [] 0 1 none_yet refl
      refl refl refl (omega arith) soon

-- A shop whose orders have their number as their answer, and a tab with a token and a chosen zone.
abbrev shop : Shop ℕ
shop = record {
  lower = λ s. s;
  handler = λ item n. (ok 7, n + 1);
  hash = λ item. 5;
  is_waiting_room_error = λ e. false;
  order_id = λ body. body;
  payment_url = λ body. some 9;
}

abbrev token : TokenRecord
token = record { token = 3; expires_at = 300000 }

abbrev tab : Tab
tab = record {
  session = λ c. some 2;
  token = λ c. some token;
  intent = λ c. none;
  pending_order = λ c. none;
}

abbrev choice : ZoneSelection
choice = record { ticket_type_id = 1; zone_id = 1; quantity = 2; unit_price = 100 }

abbrev offer : TypeAvailability
offer = record { id = 1; name = codes "VIP" }

abbrev page : CheckoutPage
page = record {
  step = review;
  locked = false;
  selection = some choice;
  type_name = codes "VIP";
  order = none;
  place = stays;
  gate = record {
    access_lost = false;
    access_checked = true;
    access_error = false;
    token_remaining = some 300000;
    redirected = false;
  };
  tab = tab;
  keys = record { memory = λ c. none; storage = λ c. none };
  saved_selection = some choice;
  seats_saved = true;
}

-- A click that can draw the key 1, and a later one that could draw another.
abbrev click : Meets
click = record {
  now = 0;
  drawn = 1;
  types = some (offer ∷ []);
  attempts = lost ∷ [];
  on_path = true;
}

abbrev click_again : Meets
click_again = record click { now = 400; drawn = 2; attempts = answered ∷ [] }

abbrev item : ItemDto
item = record { ticket_type_id = 1; quantity = 2 }

fits : map_selection (λ s. s) choice (codes "VIP") (offer ∷ []) ≡ some item
unfolding map_selection by_id
fits = refl

drawn_key : get_record 0 (get_or_create_key 4 1 page.keys).0 [] ≡ none
unfolding get_or_create_key get_record find
drawn_key = refl

lost_checkout_completes_example :
    let (q, n, v) = handle_checkout shop click 4 page ([], 0) in
    let (q', n', v') = handle_checkout shop click_again 4 q (n, v) in
    (q.step ≡ error)
    × (v' ≡ 1)
    × (q'.place ≡ payment_page 7 9)
    × (q'.tab.pending_order 4 ≡ some 7)
    × (q'.keys.memory 4 ≡ none)
    × (q'.keys.storage 4 ≡ none)
lost_checkout_completes_example =
    lost_checkout_completes shop 4 click click_again page choice token (offer ∷ []) item lost
      answered [] [] 7 9 [] 0 1 refl refl refl refl refl refl refl fits refl refl refl refl
      drawn_key refl refl refl (omega arith)
