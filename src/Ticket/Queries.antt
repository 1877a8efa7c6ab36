-- ===== src/Ticket/Queries.antt =====
-- A customer's tickets: backend/src/modules/ticket/ticket.service.ts. The table of tickets is in the
-- order in which they were made.
use se_ticketbox.Prelude.{
  ℕ, Bool, ◌&&◌, Option, none, some, List, [], ◌∷◌, map, reverse, ◌==◌, if◌then◌else◌, length,
}
use se_ticketbox.Prelude.Table.{find}
use se_ticketbox.Prelude.Text.{Text}
use se_ticketbox.Store.{
  Db, Ticket, TicketType, not_found, forbidden, Result, ok, ◌>>=◌, ◌>>◌, or_fail, guard,
}
use se_ticketbox.Ticket.Qr.{build_qr_payload}
use se_ticketbox.Checkin.Desk.{find_ticket, is_issued, or_empty}
use se_ticketbox.Concerts.{page_rows, total_pages}

-- `TicketResponseDto`: the row with its type's name, its QR payload and its gate's name.
pub record TicketResponse : Type 0 where
  pub ticket : Ticket
  pub ticket_type_name : Text
  pub qr_payload : Text
  pub gate_id : Text

abbrev pub name_or_empty : Option TicketType → Text
name_or_empty none = []
name_or_empty (some row) = row.name

abbrev pub payload_of : Ticket → Text
payload_of t = build_qr_payload t.id t.qr_raw_token (or_empty t.gate_id)

-- `toTicketResponse`. The type of a ticket is there, by a foreign key.
abbrev pub to_ticket_response : Db → Ticket → TicketResponse
to_ticket_response db t = record {
  ticket = t;
  ticket_type_name = name_or_empty (find t.ticket_type_id db.ticket_types);
  qr_payload = payload_of t;
  gate_id = or_empty t.gate_id;
}

unfoldable pub filter_tickets : (Ticket → Bool) → List Ticket → List Ticket
filter_tickets p [] = []
filter_tickets p (t ∷ ts) = if p t then t ∷ filter_tickets p ts else filter_tickets p ts

-- `TicketListResponseDto`.
pub record TicketList : Type 0 where
  pub tickets : List TicketResponse
  pub total : ℕ
  pub page : ℕ
  pub limit : ℕ
  pub total_pages : ℕ

-- `getMyTickets`: the newest first.
unfoldable pub get_my_tickets : ℕ → ℕ → ℕ → Db → TicketList
unfolding filter_tickets
get_my_tickets user page limit db =
    let mine = filter_tickets (λ t. t.user_id == user) db.tickets in
    record {
      tickets = map (to_ticket_response db) (page_rows limit page (reverse mine));
      total = length mine;
      page = page;
      limit = limit;
      total_pages = total_pages (length mine) limit;
    }

-- `getMyTicketsForConcert`.
unfoldable pub get_my_tickets_for_concert : ℕ → ℕ → Db → List TicketResponse
unfolding filter_tickets
get_my_tickets_for_concert user concert_id db =
    map (to_ticket_response db)
      (filter_tickets (λ t. t.user_id == user && t.concert_id == concert_id) db.tickets)

-- `getTicket`.
unfoldable pub get_ticket : Text → ℕ → Db → Result TicketResponse
get_ticket id user db = do
  t ← or_fail (find_ticket id db.tickets) not_found
  guard (t.user_id == user) forbidden
  ok (to_ticket_response db t)

-- `getTicketQrData`.
unfoldable pub get_ticket_qr_data : Text → ℕ → Db → Result Text
get_ticket_qr_data id user db = do
  t ← or_fail (find_ticket id db.tickets) not_found
  guard (t.user_id == user) forbidden
  guard (is_issued t.status) forbidden
  ok (payload_of t)
