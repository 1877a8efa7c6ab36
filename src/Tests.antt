-- ===== src/Tests.antt =====
-- Tests: each theorem about the program applied to concrete data.
pub mod Data
mod Inventory
mod Selling
mod Scanning
mod Requests
mod Offline
mod Limits
mod Shows
mod Customers
mod Visitors
mod Backoffice
