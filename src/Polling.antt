-- ===== src/Polling.antt =====
-- source_polling.py
pub mod Types
pub mod Validate
pub mod Freshness
