-- ===== src/Order.antt =====
-- Orders (backend/src/modules/order/order.service.ts): the checks before a sale, the creation of an
-- order with its rollbacks, and the ways in which an order ends without a payment.
pub mod Validate
pub mod Create
pub mod Close
pub mod Reserve
pub mod Ending
pub mod Queries
pub mod Views
pub mod Race
