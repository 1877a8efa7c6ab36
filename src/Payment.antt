-- ===== src/Payment.antt =====
-- Payments (backend/src/modules/payment): the payment address, the settling of an order, the
-- gateway's webhook and the cron job that closes stuck orders.
pub mod Url
pub mod Settle
pub mod Webhook
pub mod Cron
pub mod Effects
pub mod Presence
pub mod Kept
pub mod Rows
pub mod Answers
pub mod Outcome
pub mod Reuse
pub mod Request
