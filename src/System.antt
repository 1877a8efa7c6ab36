-- ===== src/System.antt =====
-- The handlers together: what holds however they follow one another.
pub mod Capacity
pub mod Step
pub mod Rows
pub mod Leaves
pub mod Final
