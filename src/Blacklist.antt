-- ===== src/Blacklist.antt =====
-- Forbidden texts with exceptions, per thread (internal/modules/blacklist).
pub mod Match
pub mod Scope
pub mod Handlers
mod Tests
