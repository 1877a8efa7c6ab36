-- ===== src/Gate.antt =====
-- Gates of a concert (backend/src/modules/gate, and the assignment of tickets to gates).
pub mod Load
pub mod Least
pub mod Manage
pub mod Signed
pub mod Rebalance
pub mod Shares
