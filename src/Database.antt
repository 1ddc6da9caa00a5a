-- ===== src/Database.antt =====
-- The writes and reads of src/db.
pub mod Coverage
pub mod Upserts
pub mod Metadata
