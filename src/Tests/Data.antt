-- ===== src/Tests/Data.antt =====
-- Concrete data for the tests: a hash, a sale of one ticket type, an order and its tickets.
use se_ticketbox.Prelude.{ℕ, true, false, none, some, List, [], ◌∷◌, ◌++◌, ◌==◌, if◌then◌else◌}
use se_ticketbox.Prelude.Int.{pos}
use se_ticketbox.Prelude.Text.{Text, codes}
use se_ticketbox.Redis.{Redis, Hold}
use se_ticketbox.Store.{
  Db, Concert, ConcertStatus, TicketType, TicketTypeStatus, Order, OrderItem, OrderStatus, Ticket,
  TicketStatus,
}
use se_ticketbox.World.{World}
use se_ticketbox.Ticket.Token.{Crypto}
use se_ticketbox.Payment.Url.{Gateway}
use se_ticketbox.Payment.Settle.{Webhook, MockPaymentResult}
use se_ticketbox.Payment.Webhook.{Signing}
use se_ticketbox.Order.Validate.{Meta}
use se_ticketbox.Order.Create.{Sale}
use se_ticketbox.Checkin.Desk.{Desk}
use se_ticketbox.Checkin.Verify.{VerifyTicketDto}
use se_ticketbox.Checkin.Sync.{SyncRecord}

-- A toy hash: the text with a mark, and the key in front of it.
abbrev pub crypto : Crypto
crypto = record {
  sha256 = λ s. s ++ 1 ∷ [];
  hmac_sha256 = λ k s. k ++ s;
  qr_secret = 7 ∷ [];
  ticket_uuid = λ n. 100 ∷ n ∷ [];
  token_uuid = λ n. 200 ∷ n ∷ [];
}

abbrev pub signing : Signing
signing = record { secret = 9 ∷ []; show = λ n. n ∷ [] }

abbrev pub open_gateway : Gateway
open_gateway = record { base_url = codes "https://pay"; show = λ n. n ∷ []; admits = true }

abbrev pub closed_gateway : Gateway
closed_gateway = record open_gateway { admits = false }

-- Ticket type 1 has 5 tickets in stock, type 2 has none.
abbrev pub stocked : Redis
stocked = record {
  stock = λ t. if t == 1 then some 5 else none;
  user_limit = λ u t. none;
  reservations = [];
}

abbrev pub hold : Hold
hold = record { ticket_type_id = 1; user_id = 3; order_id = 8; quantity = 2 }

abbrev pub concert : Concert
concert = record {
  organizer_id = 1;
  slug = codes "live";
  starts_at = 200000000;
  reminder_job_id = none;
  status = ConcertStatus.sale_open;
}

abbrev pub ticket_type : TicketType
ticket_type = record {
  concert_id = 4;
  name = codes "VIP";
  price = 100;
  total_qty = 5;
  sold_qty = 0;
  reserved_qty = pos 2;
  max_per_user = 4;
  sale_starts_at = 0;
  sale_ends_at = none;
  status = TicketTypeStatus.active;
}

abbrev pub item : OrderItem
item = record { id = 20; ticket_type_id = 1; quantity = 2; unit_price = 100; subtotal = 200 }

abbrev pub pending_order : Order
pending_order = record {
  user_id = 3;
  concert_id = 4;
  status = OrderStatus.pending_payment;
  total_amount = 200;
  expires_at = some 900000;
  paid_at = none;
  cancelled_at = none;
  inventory_released_at = none;
  release_reason = none;
  items = item ∷ [];
}

abbrev pub paid_order : Order
paid_order = record pending_order { status = OrderStatus.paid; paid_at = some 5 }

abbrev pub with_orders : List (ℕ × Order) → Db
with_orders orders = record {
  concerts = (4, concert) ∷ [];
  ticket_types = (1, ticket_type) ∷ [];
  orders = orders;
  payments = [];
  counters = λ u t. if u == 3 then some (record { paid_qty = 0; reserved_qty = pos 2 }) else none;
  tickets = [];
  gates =
      (1, record { concert_id = 4; name = codes "A" })
      ∷ (2, record { concert_id = 4; name = codes "B" })
      ∷ [];
}

abbrev pub world_of : Redis → Db → World
world_of redis db = record {
  redis = redis;
  db = db;
  expire_queue = [];
  issue_queue = [];
  mail_queue = [];
}

-- Order 8 waits for its payment.
abbrev pub waiting : World
waiting = world_of stocked (with_orders ((8, pending_order) ∷ []))

abbrev pub settled : World
settled = world_of stocked (with_orders ((8, paid_order) ∷ []))

-- A signed webhook that pays order 8.
abbrev pub webhook : Webhook
webhook = record {
  order_id = 8;
  provider_transaction_id = codes "tx";
  result = MockPaymentResult.success;
  amount = 200;
  signature = 9 ∷ 8 ∷ b':' ∷ (codes "tx" ++ (b':' ∷ (codes "SUCCESS" ++ (b':' ∷ 200 ∷ []))));
}

abbrev pub sale_with : Gateway → Sale
sale_with gateway = record {
  now = 0;
  configured_ttl = none;
  order_id = 8;
  item_ids = 20;
  persists = true;
  syncs = true;
  gateway = gateway;
}

abbrev pub meta_of : ℕ → Meta
meta_of t = record { ticket_type_id = t; quantity = 2; max_per_user = 4; unit_price = 100 }

abbrev pub ticket : Ticket
ticket = record {
  id = codes "t";
  order_id = 8;
  order_item_id = 20;
  concert_id = 4;
  ticket_type_id = 1;
  user_id = 3;
  gate_id = some (codes "A");
  qr_raw_token = codes "k";
  qr_token_hash = codes "k" ++ 1 ∷ [];
  qr_signature = 7 ∷ (codes "t" ++ (b':' ∷ (codes "k" ++ (1 ∷ b':' ∷ codes "A"))));
  status = TicketStatus.issued;
}

-- A desk with one ticket, and scans that it sees.
abbrev pub desk : Desk
desk = record { tickets = ticket ∷ []; logs = [] }

abbrev pub scan_of : Text → VerifyTicketDto
scan_of id = record { ticket_id = id; token = codes "k"; device_id = 1; gate_id = some (codes "A") }

abbrev pub record_of : Text → ℕ → SyncRecord
record_of id event = record {
  ticket_id = id;
  token = codes "k";
  device_id = 1;
  offline_event_id = event;
  gate_id = none;
}
