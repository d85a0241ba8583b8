-- ===== src/Loldle.antt =====
-- The champion guessing game (internal/modules/loldle).
pub mod Compare
pub mod Lookup
pub mod State
pub mod Handlers
mod Tests
use miti99bot.Base.{List, Text}

-- `Champion`
pub record Champion : Type 0 where
  pub champion_name : Text
  pub gender : Text
  pub positions : List Text
  pub species : List Text
  pub resource : Text
  pub range_type : List Text
  pub regions : List Text
  pub release_date : Text
