-- ===== src/QueryServer.antt =====
-- The read-only query server: what it lets through to SQLite, and what it returns.
pub mod Comments
pub mod Statements
pub mod Validate
pub mod Run
pub mod Hidden
