-- ===== src/Stock.antt =====
-- Paper trading of stocks (internal/modules/stock). A `float64` is a value of a parameter `F`,
-- with the operations of Go on it as parameters too: no rounding is assumed.
pub mod Amounts
pub mod Pending
pub mod Account
pub mod Callback
pub mod Handlers
pub mod Integers
mod Tests
use miti99bot.Base.{Bool, Option, none, map, Text, Dict, ℤ}

-- The operations of Go on `float64`; `less` is `<`, and `is_exact_sum x n y` is the comparison of
-- the sum of x and n with y as `big.Rat`.
pub record Floats (F : Type 0) : Type 0 where
  pub add : F → F → F
  pub sub : F → F → F
  pub mul : F → F → F
  pub div : F → F → F
  pub max : F → F → F
  pub of_int : ℤ → F
  pub less : F → F → Bool
  pub is_nan : F → Bool
  pub is_inf : F → Bool
  pub is_exact_sum : F → ℤ → F → Bool
  pub parse_float : Text → Option F

-- `AssetPosition`
pub record AssetPosition (F : Type 0) : Type 0 where
  pub quantity : ℤ
  pub base : F
  pub opened_at : ℤ

-- `DividendKind`
pub data DividendKind : Type 0 where
  dividend_kind_cash dividend_kind_shares : DividendKind
  other_dividend_kind : Text → DividendKind

-- `DividendRecord`
pub record DividendRecord : Type 0 where
  pub kind : DividendKind
  pub published_at : ℤ
  pub ex_date : ℤ
  pub record_date : ℤ
  pub payment_date : ℤ
  pub vnd_per_share : ℤ
  pub owned_shares : ℤ
  pub new_shares : ℤ
  pub title : Text
  pub source_url : Text
  pub processed : Bool

-- `PortfolioMeta`
pub record PortfolioMeta (F : Type 0) : Type 0 where
  pub invested : F
  pub created_at : ℤ

-- `Portfolio`; a nil map of positions or of tickers is an empty one, a nil map of events is none.
pub record Portfolio (F : Type 0) : Type 0 where
  pub vnd : F
  pub assets : Dict (AssetPosition F)
  pub dividends : Dict (Option (Dict DividendRecord))
  pub meta : PortfolioMeta F
