-- ===== src/Stock/Account.antt =====
-- The account of a user (internal/modules/stock/portfolio.go, symbols.go, dividend_history.go).
-- An error is told from its absence only: none, or false. Money is of the type `F`; what Go does
-- with it is in `Floats`.
use miti99bot.Base.{
  ℕ, ◌+◌, ◌/◌, Bool, true, false, not, ◌&&◌, ◌||◌, Option, none, some, [], ◌∷◌, ◌++◌, ltb, leb,
  ◌==◌, if◌then◌else◌, length, Text, codes, text_eq, Dict, lookup, insert, erase, ℤ, pos, negsuc,
  format_int, int_eq, int_lt, int_add, int_sub,
}
use miti99bot.Chat.{trim_space}
use miti99bot.Storage.Contract.{ok, err, DocStore, found_or_none}
use miti99bot.Stock.{
  Floats, AssetPosition, dividend_kind_cash, dividend_kind_shares, other_dividend_kind,
  DividendRecord, Portfolio, PortfolioMeta,
}
use miti99bot.Stock.Amounts.{max_int64}
use miti99bot.Stock.Pending.{is_provider_id}

all_ticker_chars : Text → Bool
all_ticker_chars [] = true
all_ticker_chars (c ∷ s) = ((leb 65 c && leb c 90) || (leb 48 c && leb c 57)) && all_ticker_chars s

-- `normalizeStockSymbol`; `strings.ToUpper` is a parameter.
unfoldable pub normalize_stock_symbol : (Text → Text) → Text → Option Text
unfolding all_ticker_chars
normalize_stock_symbol to_upper ticker =
    let symbol = to_upper (trim_space ticker) in
    if leb 1 (length symbol) && leb (length symbol) 16 && all_ticker_chars symbol
    then some symbol
    else none

-- `DividendRecord.valid`
unfoldable pub is_valid_record : DividendRecord → Bool
is_valid_record r =
    let dated =
      int_lt (pos 0) r.published_at
      && not (int_lt r.ex_date (pos 0))
      && not (int_lt r.record_date (pos 0))
      && not (int_lt r.payment_date (pos 0)) in
    dated && elim r.kind [
      | dividend_kind_cash ↦
          int_lt (pos 0) r.vnd_per_share
          && int_eq r.owned_shares (pos 0)
          && int_eq r.new_shares (pos 0)
      | dividend_kind_shares ↦
          int_eq r.vnd_per_share (pos 0)
          && int_lt (pos 0) r.owned_shares
          && int_lt (pos 0) r.new_shares
      | other_dividend_kind k ↦ false
    ]

-- The day in Asia/Saigon, seven hours before UTC, of a time after 1970 in Unix milliseconds
abbrev pub saigon_day : ℕ → ℕ
saigon_day millis = (millis + 25200000) / 86400000

-- `dividendRecordDue`
unfoldable pub dividend_record_due : DividendRecord → ℕ → Bool
dividend_record_due event now = elim event.record_date [
  | negsuc n ↦ false
  | pos at ↦ not (at == 0) && not (ltb (saigon_day now) (saigon_day at))
]

abbrev events_of : Option (Option (Dict DividendRecord)) → Dict DividendRecord
events_of none = []
events_of (some none) = []
events_of (some (some events)) = events

-- `portfolioKey`
unfoldable pub portfolio_key : ℤ → Text
portfolio_key user_id = codes "user:" ++ format_int user_id

module _ {F : Type 0} where
  -- `positionOpenedByRecordDate`
  unfoldable pub position_opened_by_record_date : AssetPosition F → DividendRecord → Bool
  position_opened_by_record_date position event = elim event.record_date [
    | negsuc n ↦ false
    | pos at ↦ elim position.opened_at [
      | negsuc n ↦ false
      | pos opened ↦ not (at == 0) && (opened == 0 || not (ltb (saigon_day at) (saigon_day opened)))
    ]
  ]

  -- `Portfolio.dividendRecord`
  unfoldable pub dividend_record : Portfolio F → Text → Text → Option DividendRecord
  unfolding lookup
  dividend_record p symbol event_id = lookup event_id (events_of (lookup symbol p.dividends))

  -- `Portfolio.setDividendRecord`
  unfoldable pub set_dividend_record : Text → Text → DividendRecord → Portfolio F → Portfolio F
  unfolding lookup insert
  set_dividend_record symbol event_id r p = record p {
    dividends =
        insert symbol (some (insert event_id r (events_of (lookup symbol p.dividends))))
          p.dividends;
  }

-- What `SellTicker` returns: the quantity held if ok is false, an error, or the quantity left
-- with the basis sold and the portfolio
pub data Sale (F : Type 0) : Type 0 where
  refused : ℤ → Sale F
  failed : Sale F
  sold : ℤ → F → Portfolio F → Sale F

module _ {F : Type 0} (fl : Floats F) (to_upper : Text → Text) where
  unfoldable pub zero_float : F
  zero_float = fl.of_int (pos 0)

  -- `isPositiveFiniteCost` and `isNonNegativeFiniteCost`; `value >= 0` fails for a NaN, like the
  -- tests after it.
  unfoldable pub is_positive_finite_cost : F → Bool
  unfolding zero_float
  is_positive_finite_cost value =
      fl.less zero_float value && not (fl.is_nan value) && not (fl.is_inf value)

  unfoldable pub is_non_negative_finite_cost : F → Bool
  unfolding zero_float
  is_non_negative_finite_cost value =
      not (fl.less value zero_float) && not (fl.is_nan value) && not (fl.is_inf value)

  abbrev is_canonical : Text → Bool
  is_canonical symbol = elim (normalize_stock_symbol to_upper symbol) [
    | none ↦ false
    | some s ↦ text_eq s symbol
  ]

  -- The two loops of `Validate`
  valid_assets : Dict (AssetPosition F) → Bool
  unfolding is_non_negative_finite_cost
  valid_assets [] = true
  valid_assets ((symbol, position) ∷ assets) =
      is_canonical symbol
      && int_lt (pos 0) position.quantity
      && is_non_negative_finite_cost position.base
      && not (int_lt position.opened_at (pos 0))
      && valid_assets assets

  valid_events : Dict DividendRecord → Bool
  unfolding is_valid_record
  valid_events [] = true
  valid_events ((event_id, event) ∷ events) =
      is_provider_id event_id && is_valid_record event && valid_events events

  valid_dividends : Dict (Option (Dict DividendRecord)) → Bool
  unfolding valid_events
  valid_dividends [] = true
  valid_dividends ((symbol, events) ∷ dividends) =
      is_canonical symbol
      && elim events [ none ↦ false | some es ↦ valid_events es ]
      && valid_dividends dividends

  -- `Portfolio.Validate`
  unfoldable pub is_valid : Portfolio F → Bool
  unfolding valid_assets valid_dividends
  is_valid p =
      not (fl.is_nan p.vnd)
      && not (fl.is_inf p.vnd)
      && not (fl.less p.vnd zero_float)
      && valid_assets p.assets
      && valid_dividends p.dividends

  -- `NewPortfolio`
  unfoldable pub new_portfolio : ℤ → Portfolio F
  unfolding zero_float
  new_portfolio now = record {
    vnd = zero_float;
    assets = [];
    dividends = [];
    meta = record { invested = zero_float; created_at = now };
  }

  -- What `LoadPortfolio` fills in
  unfoldable pub with_created_at : ℤ → Portfolio F → Portfolio F
  with_created_at now p =
      let meta : PortfolioMeta F =
        if int_eq p.meta.created_at (pos 0) then record p.meta { created_at = now } else p.meta in
      record p { meta = meta }

  module _ {S : Type 0} (store : DocStore S (Portfolio F)) where
    -- `LoadPortfolio`
    unfoldable pub load_portfolio : ℤ → ℤ → S → Option (Portfolio F)
    unfolding with_created_at
    load_portfolio user_id now s = elim (found_or_none (store.get (portfolio_key user_id) s)) [
      | err e ↦ none
      | ok found ↦ elim found [
        | none ↦ some (new_portfolio now)
        | some p ↦ if is_valid (with_created_at now p) then some (with_created_at now p) else none
      ]
    ]

    -- `SavePortfolio`; false is an error.
    unfoldable pub save_portfolio : ℤ → Portfolio F → S → Bool × S
    save_portfolio user_id p s =
        let (r, s') = store.put (portfolio_key user_id) p s in
        let written : Bool = elim r [ ok u ↦ true | err e ↦ false ] in
        if is_valid p then (written, s') else (false, s)

  -- `Portfolio.AddVND` and `Portfolio.DeductVND`
  unfoldable pub add_vnd : F → Portfolio F → Portfolio F
  add_vnd amount p = record p { vnd = fl.add p.vnd amount }

  unfoldable pub deduct_vnd : F → Portfolio F → Bool × Portfolio F
  deduct_vnd amount p =
      if fl.less p.vnd amount then (false, p) else (true, record p { vnd = fl.sub p.vnd amount })

  abbrev pub position_at : Text → Portfolio F → AssetPosition F
  position_at symbol p = elim (lookup symbol p.assets) [
    | some position ↦ position
    | none ↦ record { quantity = pos 0; base = zero_float; opened_at = pos 0 }
  ]

  abbrev set_position : Text → AssetPosition F → Portfolio F → Portfolio F
  set_position symbol position p = record p { assets = insert symbol position p.assets }

  -- `Portfolio.BuyTicker`; none is an error, at which the caller drops the portfolio.
  unfoldable pub buy_ticker : Text → ℤ → F → ℤ → Portfolio F → Option (Portfolio F)
  unfolding is_positive_finite_cost insert lookup zero_float
  buy_ticker symbol quantity base now p =
      let old = position_at symbol p in
      let opened_at : ℤ = if int_eq old.quantity (pos 0) then now else old.opened_at in
      let new_base = fl.add old.base base in
      if not (int_lt (pos 0) quantity)
        || not (is_positive_finite_cost base)
        || not (int_lt (pos 0) now)
      then none
      else if int_lt (int_sub (pos max_int64) quantity) old.quantity
      then none
      else if not (is_positive_finite_cost new_base)
      then none
      else some (
          set_position symbol
            (record {
              quantity = int_add old.quantity quantity;
              base = new_base;
              opened_at = opened_at;
            })
            p)

  -- `Portfolio.SellTicker`
  unfoldable pub sell_ticker : Text → ℤ → Portfolio F → Sale F
  unfolding is_non_negative_finite_cost insert lookup erase
  sell_ticker symbol quantity p = elim (lookup symbol p.assets) [
    | none ↦ refused (pos 0)
    | some position ↦
        let sold_base =
          fl.mul position.base (fl.div (fl.of_int quantity) (fl.of_int position.quantity)) in
        let remaining = int_sub position.quantity quantity in
        let left = fl.sub position.base sold_base in
        if int_lt position.quantity quantity || not (int_lt (pos 0) quantity)
        then refused position.quantity
        else if int_eq quantity position.quantity
        then sold (pos 0) position.base (record p { assets = erase symbol p.assets })
        else if not (is_non_negative_finite_cost sold_base)
            || not (is_non_negative_finite_cost left)
        then failed
        else sold remaining sold_base
            (set_position symbol (record position { quantity = remaining; base = left }) p)
  ]

  -- `Portfolio.ApplyCashDividend`
  unfoldable pub apply_cash_dividend : Text → ℤ → F → ℤ → Portfolio F → Option (Portfolio F)
  unfolding is_non_negative_finite_cost insert lookup zero_float
  apply_cash_dividend symbol total balance now p = elim (lookup symbol p.assets) [
    | none ↦ none
    | some position ↦
        let base = fl.max zero_float (fl.sub position.base (fl.of_int total)) in
        if not (int_lt (pos 0) position.quantity)
        then none
        else if not (int_lt (pos 0) total)
            || not (is_non_negative_finite_cost position.base)
            || not (int_lt (pos 0) now)
        then none
        else some
            (record (set_position symbol (record position { base = base }) p) { vnd = balance })
  ]

  -- `Portfolio.ApplyShareDividend`
  unfoldable pub apply_share_dividend : Text → ℤ → ℤ → Portfolio F → Option (Portfolio F)
  unfolding is_non_negative_finite_cost insert lookup
  apply_share_dividend symbol quantity now p = elim (lookup symbol p.assets) [
    | none ↦ none
    | some position ↦
        if not (int_lt (pos 0) position.quantity)
        then none
        else if int_lt quantity position.quantity
            || not (is_non_negative_finite_cost position.base)
            || not (int_lt (pos 0) now)
        then none
        else some (set_position symbol (record position { quantity = quantity }) p)
  ]
