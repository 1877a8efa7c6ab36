-- ===== src/Store.antt =====
-- The rows of backend/prisma/schema.prisma that the sale works on, and the tables that hold them.
-- Times are milliseconds since the epoch, amounts are in dong. A quantity that the program
-- decrements without a test is an integer.
pub mod Updates
use se_ticketbox.Prelude.{
  ℕ, ◌≡◌, refl, ◌⊎◌, inl, inr, ◌+◌, Bool, true, false, ◌&&◌, Option, none, some, List, [], ◌∷◌,
  ◌++◌, arith, ◌==◌, if◌then◌else◌,
}
use se_ticketbox.Prelude.Int.{ℤ, pos, ◌+ℤ◌, ◌-ℤ◌}
use se_ticketbox.Prelude.Table.{Table, find, put, adjust}
use se_ticketbox.Prelude.Text.{Text}

pub data Role : Type 0 where
  customer organizer staff admin : Role

pub data ConcertStatus : Type 0 where
  draft published sale_open sale_closed cancelled completed : ConcertStatus

pub data TicketTypeStatus : Type 0 where
  active inactive sold_out : TicketTypeStatus

pub data OrderStatus : Type 0 where
  pending_payment paid expired cancelled payment_failed refunded : OrderStatus

pub data PaymentStatus : Type 0 where
  initiated success failed timeout cancelled : PaymentStatus

pub data TicketStatus : Type 0 where
  issued checked_in cancelled refunded : TicketStatus

pub record Concert : Type 0 where
  pub organizer_id : ℕ
  pub slug : Text
  pub starts_at : ℕ
  pub reminder_job_id : Option ℕ
  pub status : ConcertStatus

pub record TicketType : Type 0 where
  pub concert_id : ℕ
  pub name : Text
  pub price : ℕ
  pub total_qty : ℕ
  pub sold_qty : ℕ
  pub reserved_qty : ℤ
  pub max_per_user : ℕ
  pub sale_starts_at : ℕ
  pub sale_ends_at : Option ℕ
  pub status : TicketTypeStatus

pub record OrderItem : Type 0 where
  pub id : ℕ
  pub ticket_type_id : ℕ
  pub quantity : ℕ
  pub unit_price : ℕ
  pub subtotal : ℕ

pub data ReleaseReason : Type 0 where
  cancelled payment_timeout payment_failed : ReleaseReason
  cron_verify_payment_failed payment_verify_timeout : ReleaseReason

pub record Order : Type 0 where
  pub user_id : ℕ
  pub concert_id : ℕ
  pub status : OrderStatus
  pub total_amount : ℕ
  pub expires_at : Option ℕ
  pub paid_at : Option ℕ
  pub cancelled_at : Option ℕ
  pub inventory_released_at : Option ℕ
  pub release_reason : Option ReleaseReason
  pub items : List OrderItem

pub record Payment : Type 0 where
  pub order_id : ℕ
  pub status : PaymentStatus
  pub amount : ℕ
  pub provider_transaction_id : Option Text
  pub payment_url : Option Text
  pub received_at : Option ℕ

pub record Counter : Type 0 where
  pub paid_qty : ℕ
  pub reserved_qty : ℤ

-- `gate_id` is the name of a gate. The tokens are texts, since they are hashed and signed.
pub record Ticket : Type 0 where
  pub id : Text
  pub order_id : ℕ
  pub order_item_id : ℕ
  pub concert_id : ℕ
  pub ticket_type_id : ℕ
  pub user_id : ℕ
  pub gate_id : Option Text
  pub qr_raw_token : Text
  pub qr_token_hash : Text
  pub qr_signature : Text
  pub status : TicketStatus

pub record Gate : Type 0 where
  pub concert_id : ℕ
  pub name : Text

pub record Db : Type 0 where
  pub concerts : Table Concert
  pub ticket_types : Table TicketType
  pub orders : Table Order
  pub payments : List Payment
  pub counters : ℕ → ℕ → Option Counter
  pub tickets : List Ticket
  pub gates : Table Gate

-- A failed `await` is an error value. `database` is an error that Prisma throws.
pub data Error : Type 0 where
  not_found bad_request unauthorized forbidden conflict unprocessable : Error
  service_unavailable internal_server_error database : Error

pub data Result {ℓ} (A : Type ℓ) : Type ℓ where
  ok : A → Result A
  err : Error → Result A

pub Result-cases {ℓ} :
    {A : Type ℓ} (r : Result A) → ((a : A) × (r ≡ ok a)) ⊎ ((e : Error) × (r ≡ err e))
Result-cases (ok a) = inl (a, refl)
Result-cases (err e) = inr (e, refl)

infixl 5 ◌>>=◌
abbrev pub ◌>>=◌ {ℓ κ} : {A : Type ℓ} {B : Type κ} → Result A → (A → Result B) → Result B
err e >>= k = err e
ok a >>= k = k a

-- A row that must be there.
abbrev pub or_fail {ℓ} : {A : Type ℓ} → Option A → Error → Result A
or_fail none e = err e
or_fail (some a) e = ok a

infixl 5 ◌>>◌
abbrev pub ◌>>◌ {ℓ} : {B : Type ℓ} → Result (Unit {0}) → Result B → Result B
r >> s = r >>= λ u. s

-- `if (!b) throw e`.
abbrev pub guard : Bool → Error → Result (Unit {0})
guard true e = ok tt
guard false e = err e

-- `userTicketCounter` rows are keyed by user and ticket type.
abbrev pub set_counter : ℕ → ℕ → Counter → Db → Db
set_counter u t c db = record db {
  counters = λ v j. if u == v then if t == j then some c else db.counters v j else db.counters v j;
}

-- `reservedQty: { decrement }` on a row that is found by its key; Prisma throws where it is missing.
unfoldable pub decrement_type : ℕ → ℕ → Db → Db × Bool
decrement_type t q db = elim (find t db.ticket_types) [
  | none ↦ (db, false)
  | some row ↦ (
    record db {
      ticket_types =
          put t (record row { reserved_qty = row.reserved_qty -ℤ pos q }) db.ticket_types;
    },
    true,
  )
]

unfoldable pub decrement_counter : ℕ → ℕ → ℕ → Db → Db × Bool
decrement_counter u t q db = elim (db.counters u t) [
  | none ↦ (db, false)
  | some c ↦ (set_counter u t (record c { reserved_qty = c.reserved_qty -ℤ pos q }) db, true)
]

-- Updates that are started together: each takes effect, and the whole fails if one does.
unfoldable pub update_types : List OrderItem → Db → Db × Bool
update_types [] db = (db, true)
update_types (i ∷ is) db =
    let (db', done) = decrement_type i.ticket_type_id i.quantity db in
    let (db'', rest) = update_types is db' in (db'', done && rest)

unfoldable pub update_counters : ℕ → List OrderItem → Db → Db × Bool
update_counters u [] db = (db, true)
update_counters u (i ∷ is) db =
    let (db', done) = decrement_counter u i.ticket_type_id i.quantity db in
    let (db'', rest) = update_counters u is db' in (db'', done && rest)
