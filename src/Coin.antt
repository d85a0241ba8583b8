-- ===== src/Coin.antt =====
-- Paper trading of coins (internal/modules/coin). As for stocks, a `float64` is a value of a
-- parameter `F`.
pub mod Account
pub mod Handlers
mod Tests
use miti99bot.Base.{map, Dict, ℤ}

-- `AssetPosition`
pub record AssetPosition (F : Type 0) : Type 0 where
  pub quantity : F
  pub base : F

-- `PortfolioMeta`
pub record PortfolioMeta (F : Type 0) : Type 0 where
  pub invested : F
  pub created_at : ℤ

-- `Portfolio`; a nil map is an empty one.
pub record Portfolio (F : Type 0) : Type 0 where
  pub usd : F
  pub assets : Dict (AssetPosition F)
  pub meta : PortfolioMeta F
