-- ===== src/Coin/Account.antt =====
-- The account of a user (internal/modules/coin/portfolio.go, symbols.go). `math.Abs` and the
-- constant `coinDustEpsilon` are parameters beside the operations on floating-point numbers.
pub mod Updates
use miti99bot.Base.{
  ℕ, zero, suc, ◌⊎◌, inl, inr, Bool, true, false, not, ◌&&◌, ◌||◌, Option, none, some, [], ◌∷◌,
  ◌++◌, leb, ◌==◌, if◌then◌else◌, length, there, Text, codes, text_eq, Dict, lookup, insert, erase,
  ℤ, pos, format_int, int_eq,
}
use miti99bot.Chat.{trim_space}
use miti99bot.Storage.Contract.{Failure, not_found, conflict, Result, ok, err, DocStore}
use miti99bot.Stock.{Floats}
use miti99bot.Coin.{AssetPosition, PortfolioMeta, Portfolio}

abbrev pub portfolio_update_attempts : ℕ
portfolio_update_attempts = 5

abbrev max_coin_symbol_length : ℕ
max_coin_symbol_length = 20

is_ascii_letter : ℕ → Bool
is_ascii_letter c = (leb 65 c && leb c 90) || (leb 97 c && leb c 122)

all_symbol_chars : Text → Bool
unfolding is_ascii_letter
all_symbol_chars [] = true
all_symbol_chars (c ∷ s) = (is_ascii_letter c || (leb 48 c && leb c 57)) && all_symbol_chars s

any_letter : Text → Bool
unfolding is_ascii_letter
any_letter [] = false
any_letter (c ∷ s) = is_ascii_letter c || any_letter s

-- `validCoinSymbol`
unfoldable pub valid_coin_symbol : Text → Bool
unfolding all_symbol_chars any_letter text_eq
valid_coin_symbol symbol =
    not (text_eq symbol [])
    && leb (length symbol) max_coin_symbol_length
    && all_symbol_chars symbol
    && any_letter symbol

-- `ResolveCoinSymbol`, the ticker of it; `strings.ToUpper` is a parameter.
unfoldable pub resolve_coin_symbol : (Text → Text) → Text → Option Text
unfolding valid_coin_symbol
resolve_coin_symbol to_upper input =
    let symbol = to_upper (trim_space input) in
    if valid_coin_symbol symbol then some symbol else none

-- `portfolioKey`
unfoldable pub portfolio_key : ℤ → Text
portfolio_key user_id = codes "user:" ++ format_int user_id

-- What `SellTicker` returns: the quantity held if ok is false, an error, with which ok is false
-- too, or the basis sold with the portfolio
pub data Sale (F : Type 0) : Type 0 where
  refused : F → Sale F
  failed : Sale F
  sold : F → Portfolio F → Sale F

-- What `UpdatePortfolio` returns: the portfolio that was written, the error of the change, or
-- another error
pub data Update (F E : Type 0) : Type 0 where
  updated : Portfolio F → Update F E
  rejected : E → Update F E
  cannot_load invalid cannot_save conflicted : Update F E

-- `errors.Is(err, storage.ErrConflict)`
abbrev pub is_conflict : Failure → Bool
is_conflict conflict = true
is_conflict e = false

module _ {F : Type 0} (fl : Floats F) (abs : F → F) (dust : F) (to_upper : Text → Text) where
  unfoldable pub zero_float : F
  zero_float = fl.of_int (pos 0)

  unfoldable pub is_positive_finite : F → Bool
  unfolding zero_float
  is_positive_finite n = fl.less zero_float n && not (fl.is_nan n) && not (fl.is_inf n)

  -- `normalizeAmount`
  unfoldable pub normalize_amount : F → F
  unfolding zero_float
  normalize_amount n = if fl.is_nan n || fl.is_inf n || fl.less (abs n) dust then zero_float else n

  -- `Portfolio.normalize`
  unfoldable pub normalize : Portfolio F → Portfolio F
  unfolding normalize_amount
  normalize p = record p {
    usd = normalize_amount p.usd;
    meta = record p.meta { invested = normalize_amount p.meta.invested };
  }

  abbrev is_canonical : Text → Bool
  is_canonical symbol = elim (resolve_coin_symbol to_upper symbol) [
    | none ↦ false
    | some s ↦ text_eq s symbol
  ]

  -- The loop of `Validate`
  valid_assets : Dict (AssetPosition F) → Bool
  unfolding is_positive_finite
  valid_assets [] = true
  valid_assets ((symbol, position) ∷ assets) =
      is_canonical symbol
      && is_positive_finite position.quantity
      && is_positive_finite position.base
      && valid_assets assets

  -- `Portfolio.Validate`
  unfoldable pub is_valid : Portfolio F → Bool
  unfolding valid_assets zero_float
  is_valid p =
      not (fl.is_nan p.usd)
      && not (fl.is_inf p.usd)
      && not (fl.less p.usd zero_float)
      && valid_assets p.assets

  -- `NewPortfolio`
  unfoldable pub new_portfolio : ℤ → Portfolio F
  unfolding zero_float
  new_portfolio now = record {
    usd = zero_float;
    assets = [];
    meta = record { invested = zero_float; created_at = now };
  }

  unfoldable pub with_created_at : ℤ → Portfolio F → Portfolio F
  with_created_at now p =
      let meta : PortfolioMeta F =
        if int_eq p.meta.created_at (pos 0) then record p.meta { created_at = now } else p.meta in
      record p { meta = meta }

  -- What a stored portfolio, if there is one, is loaded as
  unfoldable pub loaded : ℤ → Option (Portfolio F) → Option (Portfolio F)
  unfolding is_valid with_created_at new_portfolio
  loaded now none = some (new_portfolio now)
  loaded now (some p) =
      if is_valid (with_created_at now p) then some (with_created_at now p) else none

  -- `Portfolio.AddUSD` and `Portfolio.DeductUSD`
  unfoldable pub add_usd : F → Portfolio F → Portfolio F
  unfolding normalize
  add_usd amount p = normalize (record p { usd = fl.add p.usd amount })

  unfoldable pub deduct_usd : F → Portfolio F → Bool × Portfolio F
  unfolding normalize
  deduct_usd amount p =
      let q = normalize p in
      if fl.less (fl.add q.usd dust) amount
      then (false, q)
      else (true, record q { usd = normalize_amount (fl.sub q.usd amount) })

  -- `Portfolio.BuyTicker`; none is an error.
  unfoldable pub buy_ticker : Text → F → F → Portfolio F → Option (Portfolio F)
  unfolding is_positive_finite lookup insert zero_float
  buy_ticker symbol quantity base p =
      let old : AssetPosition F = elim (lookup symbol p.assets) [
        | some position ↦ position
        | none ↦ record { quantity = zero_float; base = zero_float }
      ] in
      let new : AssetPosition F = record {
        quantity = fl.add old.quantity quantity;
        base = fl.add old.base base;
      } in
      if not (is_positive_finite quantity) || not (is_positive_finite base)
      then none
      else if not (is_positive_finite new.quantity) || not (is_positive_finite new.base)
      then none
      else some (record p { assets = insert symbol new p.assets })

  -- `remaining == 0`
  abbrev is_zero : F → Bool
  is_zero x = not (fl.less x zero_float) && not (fl.less zero_float x) && not (fl.is_nan x)

  -- `Portfolio.SellTicker`
  unfoldable pub sell_ticker : Text → F → Portfolio F → Sale F
  unfolding is_positive_finite normalize_amount lookup insert erase zero_float
  sell_ticker symbol quantity p = elim (lookup symbol p.assets) [
    | none ↦ refused zero_float
    | some position ↦
        let remaining = normalize_amount (fl.sub position.quantity quantity) in
        let sold_base = fl.mul position.base (fl.div quantity position.quantity) in
        let left = fl.sub position.base sold_base in
        let new : AssetPosition F = record { quantity = remaining; base = left } in
        if not (is_positive_finite quantity) || fl.less (fl.add position.quantity dust) quantity
        then refused position.quantity
        else if is_zero remaining
        then sold position.base (record p { assets = erase symbol p.assets })
        else if not (is_positive_finite sold_base) || not (is_positive_finite left)
        then failed
        else sold sold_base (record p { assets = insert symbol new p.assets })
  ]

  module _ {S : Type 0} (store : DocStore S (Portfolio F)) where
    -- `loadPortfolioForUpdate`
    unfoldable pub load_for_update : Text → ℤ → S → Option (Portfolio F × ℕ)
    unfolding loaded
    load_for_update key now s = elim (store.get key s) [
      | ok (p, version) ↦ elim (loaded now (some p)) [ none ↦ none | some q ↦ some (q, version) ]
      | err not_found ↦ some (new_portfolio now, 0)
      | err e ↦ none
    ]

    module _ {E : Type 0} (mutate : Portfolio F → E ⊎ Portfolio F) (others : ℕ → S → S) where
      -- The loop of `UpdatePortfolio`, with the attempts that are left. What other writers do to
      -- the store between the read and the write of an attempt is `others`.
      unfoldable pub attempt_from : ℕ → Text → ℤ → S → Update F E × S
      unfolding load_for_update normalize is_valid
      attempt_from zero key now s = (conflicted, s)
      attempt_from (suc left) key now s = elim (load_for_update key now s) [
        | none ↦ (cannot_load, s)
        | some (p, version) ↦ elim (mutate p) [
          | inl e ↦ (rejected e, s)
          | inr p' ↦
              let q = normalize p' in
              let (r, s') = store.put_versioned key version q (others left s) in
              elim (is_valid q) [
                | false ↦ (invalid, s)
                | true ↦ elim r [
                  | ok u ↦ (updated q, s')
                  | err e ↦ elim (is_conflict e) [
                    | true ↦ attempt_from left key now s'
                    | false ↦ (cannot_save, s')
                  ]
                ]
              ]
        ]
      ]

      -- `UpdatePortfolio`
      unfoldable pub update_portfolio : ℤ → ℤ → S → Update F E × S
      unfolding attempt_from
      update_portfolio user_id now s =
          attempt_from portfolio_update_attempts (portfolio_key user_id) now s
