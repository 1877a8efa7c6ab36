-- ===== src/Ticket.antt =====
-- Tickets: their QR tokens, and how an order's tickets are made.
pub mod Token
pub mod Issue
pub mod Admission
pub mod Qr
pub mod Queries
