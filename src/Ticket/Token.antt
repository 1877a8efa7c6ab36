-- ===== src/Ticket/Token.antt =====
-- QR tokens: `generateQrToken` and the ticket plans of `handlePaymentSuccess` in
-- backend/src/modules/payment/payment.service.ts, and `recomputeSignature` in
-- backend/src/modules/checkin/checkin.service.ts.
use se_ticketbox.Prelude.{ℕ, zero, suc, ◌+◌, Option, none, some, List, [], ◌∷◌, ◌++◌}
use se_ticketbox.Prelude.Text.{Text, codes}
use se_ticketbox.Store.{OrderItem, Order, Ticket, Gate, TicketStatus}

-- Node's crypto module: SHA-256, HMAC-SHA-256 with the configured secret, and the n-th ticket id
-- and token that `randomUUID` gives.
pub record Crypto : Type 0 where
  pub sha256 : Text → Text
  pub hmac_sha256 : Text → Text → Text
  pub qr_secret : Text
  pub ticket_uuid : ℕ → Text
  pub token_uuid : ℕ → Text

-- `{ticketId}:{qrTokenHash}:{gateId}`, signed.
unfoldable pub recompute_signature : Crypto → Text → Text → Text → Text
recompute_signature c ticket_id qr_token_hash gate_id =
    c.hmac_sha256 c.qr_secret
      (ticket_id ++ (codes ":" ++ (qr_token_hash ++ (codes ":" ++ gate_id))))

pub record QrToken : Type 0 where
  pub raw_token : Text
  pub qr_token_hash : Text
  pub qr_signature : Text

unfoldable pub generate_qr_token : Crypto → ℕ → Text → Text → QrToken
unfolding recompute_signature
generate_qr_token c n ticket_id gate_id =
    let raw_token = c.token_uuid n in
    let qr_token_hash = c.sha256 raw_token in
    record {
      raw_token = raw_token;
      qr_token_hash = qr_token_hash;
      qr_signature = recompute_signature c ticket_id qr_token_hash gate_id;
    }

-- `gateName || null`.
abbrev pub or_null : Text → Option Text
or_null [] = none
or_null (c ∷ s) = some (c ∷ s)

abbrev pub gate_name : Option Gate → Text
gate_name none = []
gate_name (some g) = g.name

-- One ticket of an order's item, by the n-th pair of random values.
unfoldable pub new_ticket : Crypto → ℕ → ℕ → Order → OrderItem → Text → Ticket
unfolding generate_qr_token
new_ticket c n order_id order item name =
    let ticket_id = c.ticket_uuid n in
    let token = generate_qr_token c n ticket_id name in
    record {
      id = ticket_id;
      order_id = order_id;
      order_item_id = item.id;
      concert_id = order.concert_id;
      ticket_type_id = item.ticket_type_id;
      user_id = order.user_id;
      gate_id = or_null name;
      qr_raw_token = token.raw_token;
      qr_token_hash = token.qr_token_hash;
      qr_signature = token.qr_signature;
      status = TicketStatus.issued;
    }

-- The inner loop: `quantity` tickets of one item.
unfoldable pub item_tickets : Crypto → ℕ → ℕ → Order → OrderItem → Text → ℕ → List Ticket
item_tickets c n order_id order item name zero = []
item_tickets c n order_id order item name (suc k) =
    new_ticket c n order_id order item name ∷ item_tickets c (suc n) order_id order item name k

-- The outer loop, over the items. All tickets of the order go to the gate that was chosen.
unfoldable pub order_tickets : Crypto → ℕ → ℕ → Order → Text → List OrderItem → List Ticket
order_tickets c n order_id order name [] = []
order_tickets c n order_id order name (i ∷ is) =
    item_tickets c n order_id order i name i.quantity
    ++ order_tickets c (n + i.quantity) order_id order name is
