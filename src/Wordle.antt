-- ===== src/Wordle.antt =====
-- The Wordle game (internal/modules/wordle): scoring, guess validation, the stored state and the
-- command handlers.
pub mod Compare
pub mod Lookup
pub mod State
pub mod Handlers
mod Tests
