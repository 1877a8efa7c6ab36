-- ===== src/Checkin.antt =====
-- Check-in at the gates (backend/src/modules/checkin).
pub mod Desk
pub mod Verify
pub mod Sync
pub mod Once
pub mod Effect
pub mod Spec
pub mod History
pub mod Upload
pub mod Answers
