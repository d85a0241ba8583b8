-- ===== src/Stock/Amounts.antt =====
-- The arithmetic of dividends (internal/modules/stock/dividends.go) on 64-bit integers. An error
-- is none.
pub mod Bounds
use miti99bot.Base.{
  ℕ, suc, ◌+◌, ◌-◌, ◌*◌, ◌/◌, not, ◌||◌, Option, none, some, ltb, ◌==◌, if◌then◌else◌, take, drop,
  here, Text, ℤ, pos, negsuc, digits_value, negative, int_lt, int_add, int_sub, digits_value,
}
use miti99bot.Chat.{index_byte}
use miti99bot.Storage.Keys.{contains_byte}
use miti99bot.Stock.{Floats}

abbrev pub max_int64 : ℕ
max_int64 = 9223372036854775807

abbrev pub max_exact_float_integer : ℕ
max_exact_float_integer = 9007199254740992

-- `shareRatio`. A ratio that is not positive is refused wherever one is used, and stands here as
-- one of zeros.
pub record ShareRatio : Type 0 where
  pub owned : ℕ
  pub new : ℕ
  pub raw : Text

-- `parsePositiveWhole`
unfoldable pub parse_positive_whole : Text → Option ℕ
unfolding digits_value
parse_positive_whole raw = elim (digits_value raw none) [
  | none ↦ none
  | some n ↦ if n == 0 || ltb max_int64 n then none else some n
]

-- `strings.Cut` at a byte
unfoldable pub cut : Text → ℕ → Option (Text × Text)
unfolding index_byte
cut s c = elim (index_byte s c) [ none ↦ none | some i ↦ some (take i s, drop (suc i) s) ]

-- `parseShareRatio`
unfoldable pub parse_share_ratio : Text → Option ShareRatio
unfolding parse_positive_whole cut contains_byte
parse_share_ratio raw = elim (cut raw b':') [
  | none ↦ none
  | some (left, right) ↦
      if contains_byte b':' right then none else elim (parse_positive_whole left) [
        | none ↦ none
        | some owned ↦ elim (parse_positive_whole right) [
          | none ↦ none
          | some new ↦ some (record { owned = owned; new = new; raw = raw })
        ]
      ]
]

-- `shareDividendEntitlement`
unfoldable pub share_dividend_entitlement : ℤ → ShareRatio → Option ℕ
share_dividend_entitlement (negsuc h) ratio = none
share_dividend_entitlement (pos held) ratio =
    let result = held * ratio.new / ratio.owned in
    if held == 0 || ratio.owned == 0 || ratio.new == 0 || ltb max_int64 result
    then none
    else some result

-- `minimumHoldingForShare` of a ratio that was parsed, which is positive
unfoldable pub minimum_holding_for_share : ShareRatio → ℕ
minimum_holding_for_share ratio = (ratio.owned - 1) / ratio.new + 1

-- `checkedHoldingAfterDividend` of an entitlement, which is never negative
unfoldable pub checked_holding_after_dividend : ℤ → ℕ → Option ℤ
checked_holding_after_dividend held new_shares =
    if int_lt (int_sub (pos max_int64) (pos new_shares)) held
    then none
    else some (int_add held (pos new_shares))

-- `cashDividendTotal`
unfoldable pub cash_dividend_total : ℤ → ℤ → Option ℕ
cash_dividend_total (negsuc h) vnd_per_share = none
cash_dividend_total (pos held) (negsuc v) = none
cash_dividend_total (pos held) (pos vnd_per_share) =
    let total = held * vnd_per_share in
    if held == 0 || vnd_per_share == 0 || ltb (max_int64 / vnd_per_share) held
    then none
    else if ltb max_exact_float_integer total
    then none
    else some total

module _ {F : Type 0} (fl : Floats F) where
  -- `checkedVNDBalance` of a total, which is never negative
  unfoldable pub checked_vnd_balance : F → ℕ → Option F
  checked_vnd_balance balance credit =
      let result = fl.add balance (fl.of_int (pos credit)) in
      if credit == 0 || fl.is_nan balance || fl.is_inf balance
      then none
      else if fl.is_nan result
          || fl.is_inf result
          || fl.less (fl.of_int (pos max_exact_float_integer)) result
      then none
      else if not (fl.is_exact_sum balance (pos credit) result)
      then none
      else some result
