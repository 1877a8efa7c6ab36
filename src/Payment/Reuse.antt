-- ===== src/Payment/Reuse.antt =====
-- A payment address is handed out again (`createPaymentUrl` of
-- backend/src/modules/payment/payment.service.ts).
use se_ticketbox.Prelude.{
  ℕ, ◌≡◌, refl, ◌∙◌, subst, ap, Bool, true, not, ◌&&◌, Option, none, some, List, [], ◌∷◌, ◌++◌,
  arith, ◌==◌, inl, inr, Option-cases, Bool-cases, ==_iff,
}
use se_ticketbox.Prelude.Table.{find}
use se_ticketbox.Prelude.Text.{Text, is_empty}
use se_ticketbox.Store.{
  Db, Order, OrderStatus, Payment, PaymentStatus, Error, Result, ok, err, guard, bad_request,
}
use se_ticketbox.Store
use se_ticketbox.Payment.Url.{
  Gateway, PaymentUrl, create_payment_url, existing_initiated, set_payment_url, store_url, execute,
  mock_payment_url, reusable, is_stale_mock_payment_url, is_pending, new_payment, fresh_or_reused,
}

abbrev HasUrl : Text → Option Payment → Type 0
HasUrl url none = ⊥
HasUrl url (some p) = p.payment_url ≡ some url

set_payment_url-existing :
    (o : ℕ) (url : Text) (p : Payment) (ps : List Payment)
    → existing_initiated o ps ≡ some p
    → HasUrl url (existing_initiated o (set_payment_url o url ps))
unfolding set_payment_url existing_initiated
set_payment_url-existing o url p [] e = absurd (ground arith)
set_payment_url-existing o url p (q ∷ ps) e = ground (arith, e, set_payment_url-existing o url p ps)

append-existing :
    (o : ℕ) (order : Order) (url : Text) (ps : List Payment)
    → existing_initiated o ps ≡ none
    → HasUrl url (existing_initiated o (ps ++ new_payment o order url ∷ []))
unfolding existing_initiated
append-existing o order url [] e = ground arith
append-existing o order url (q ∷ ps) e = ground (arith, e, append-existing o order url ps)

store_url-existing :
    (o : ℕ) (order : Order) (url : Text) (db : Db)
    → HasUrl url (existing_initiated o (store_url o order url db).payments)
unfolding store_url
store_url-existing o order url db = elim (Option-cases (existing_initiated o db.payments)) [
  | inl e ↦ rw (e, store_url) (append-existing o order url db.payments e)
  | inr (p, e) ↦ rw (e, store_url) (set_payment_url-existing o url p db.payments e)
]

store_url-orders :
    (o : ℕ) (order : Order) (url : Text) (db : Db) → (store_url o order url db).orders ≡ db.orders
unfolding store_url
store_url-orders o order url db = ground arith

-- A usable address.
abbrev pub usable : Text → Bool
usable url = not (is_empty url) && not (is_stale_mock_payment_url url)

reusable_url :
    (url : Text) (m : Option Payment) → HasUrl url m → usable url ≡ true → reusable m ≡ some url
unfolding reusable
reusable_url url none h y = absurd h
reusable_url url (some p) h y = ground (arith, h, y)

reusable-usable :
    (url : Text) (m : Option Payment) → reusable m ≡ some url → HasUrl url m × (usable url ≡ true)
unfolding reusable
reusable-usable url m h = ground arith

-- What an answer means: the order is there, pending and the caller's, and the address stands in an
-- INITIATED payment of the order.
pub record Offered (o u : ℕ) (url : Text) (db : Db) : Type 0 where
  pub order : Order
  pub found : find o db.orders ≡ some order
  pub own : order.user_id ≡ u
  pub pending : order.status ≡ OrderStatus.pending_payment
  pub offered : HasUrl url (existing_initiated o db.payments)

abbrev pub Offer : ℕ → ℕ → Db → Result (PaymentUrl × Db) → Type 0
Offer o u db (err e) = Unit
Offer o u db (ok (url, db')) = Offered o u url.payment_url db' × (db'.orders ≡ db.orders)

fresh_or_reused-Offer :
    (g : Gateway) (o u : ℕ) (order : Order) (db : Db) (m : Option Text)
    → find o db.orders ≡ some order
    → order.user_id ≡ u
    → order.status ≡ OrderStatus.pending_payment
    → reusable (existing_initiated o db.payments) ≡ m
    → Offer o u db (fresh_or_reused g o order db m)
unfolding fresh_or_reused execute mock_payment_url
fresh_or_reused-Offer g o u order db (some url) e own st r = (
  record {
    order = order;
    found = e;
    own = own;
    pending = st;
    offered = (reusable-usable url _ r).0;
  },
  refl,
)
fresh_or_reused-Offer g o u order db none e own st r = elim (Bool-cases g.admits) [
  | inr n ↦ rw (n, execute) tt
  | inl y ↦
      let url = mock_payment_url g o order.total_amount in
      let same = store_url-orders o order url db in
      rw (y, execute)
        (
          record {
            order = order;
            found = ap (find o) same ∙ e;
            own = own;
            pending = st;
            offered = store_url-existing o order url db;
          },
          same,
        )
]

-- `createPaymentUrl` answers only for a pending order of the caller, and then with an address that
-- stands in an INITIATED payment of that order. It changes no order.
pub create_payment_url-Offer :
    (g : Gateway) (o u : ℕ) (db : Db) → Offer o u db (create_payment_url g o u db)
unfolding create_payment_url
create_payment_url-Offer g o u db = elim (Option-cases (find o db.orders)) [
  | inl e ↦ rw (e, create_payment_url) tt
  | inr (order, e) ↦ elim (Bool-cases (order.user_id == u)) [
    | inr n ↦ rw (e, create_payment_url) (rw n tt)
    | inl own ↦
        rw (e, create_payment_url)
          (rw own (by_status order e ((==_iff _ _).0 own) order.status refl))
  ]
]
  where
    by_status :
        (order : Order)
        → find o db.orders ≡ some order
        → order.user_id ≡ u
        → (s : OrderStatus) → order.status ≡ s
        → Offer o u db (
            Store.◌>>◌
              (guard (is_pending s) bad_request)
              (fresh_or_reused g o order db (reusable (existing_initiated o db.payments))))
    by_status order e own OrderStatus.pending_payment st =
        fresh_or_reused-Offer g o u order db _ e own st refl
    by_status order e own OrderStatus.paid st = tt
    by_status order e own OrderStatus.expired st = tt
    by_status order e own OrderStatus.cancelled st = tt
    by_status order e own OrderStatus.payment_failed st = tt
    by_status order e own OrderStatus.refunded st = tt

create_payment_url-Offered :
    (g : Gateway) (o u : ℕ) (url : Text) (db : Db)
    → Offered o u url db
    → usable url ≡ true
    → create_payment_url g o u db ≡ ok (record { payment_url = url; reused = true }, db)
unfolding create_payment_url fresh_or_reused
create_payment_url-Offered g o u url db f y = ground (
  arith,
  f.found,
  f.own,
  f.pending,
  y,
  reusable_url url (existing_initiated o db.payments) f.offered y,
)

-- A second request for the payment address, with any gateway or none, gets the same address and
-- changes nothing, where the address is not empty and not stale.
pub create_payment_url_twice :
    (g again : Gateway) (o u : ℕ) (db db' : Db) (url : PaymentUrl)
    → create_payment_url g o u db ≡ ok (url, db')
    → usable url.payment_url ≡ true
    → create_payment_url again o u db'
      ≡ ok (record { payment_url = url.payment_url; reused = true }, db')
create_payment_url_twice g again o u db db' url done y =
    create_payment_url-Offered again o u url.payment_url db'
      (subst (Offer o u db) done (create_payment_url-Offer g o u db)).0 y
