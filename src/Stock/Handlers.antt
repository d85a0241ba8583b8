-- ===== src/Stock/Handlers.antt =====
-- The commands that change an account (internal/modules/stock/handlers.go), and the price. A
-- reply is its kind with what it shows; its wording is left out. The lock of the user is held
-- from the read of the account on. The prices come from outside and are a parameter, so is the
-- clock.
pub mod Branches
pub mod Accounts
use miti99bot.Base.{
  ℕ, not, ◌||◌, Option, none, some, List, [], ◌∷◌, ◌==◌, if◌then◌else◌, drop, Text, ℤ, pos, int_eq,
  parse_integer, int_lt,
}
use miti99bot.Chat.{Message}
use miti99bot.Storage.Contract.{DocStore}
use miti99bot.Blacklist.Handlers.{fields}
use miti99bot.Stock.{Floats, Portfolio}
use miti99bot.Stock.Amounts.{
  max_int64, ShareRatio, parse_positive_whole, parse_share_ratio, share_dividend_entitlement,
  minimum_holding_for_share, checked_holding_after_dividend, cash_dividend_total,
  checked_vnd_balance,
}
use miti99bot.Stock.Account.{
  normalize_stock_symbol, Sale, refused, failed, sold, zero_float, load_portfolio, save_portfolio,
  add_vnd, deduct_vnd, position_at, buy_ticker, sell_ticker, apply_cash_dividend,
  apply_share_dividend,
}

-- The answer of the price sources
pub data Price (F : Type 0) : Type 0 where
  no_price fetch_failed : Price F
  price_of : F → Price F

-- One constructor for each text that a handler replies with
pub data Reply (F : Type 0) : Type 0 where
  cannot_identify price_usage topup_usage buy_usage sell_usage cash_usage share_usage : Reply F
  bad_amount bad_quantity bad_payout bad_ratio cannot_load cannot_save cannot_buy : Reply F
  basis_unavailable dividend_too_large cannot_apply : Reply F
  unknown_ticker unpriced cannot_fetch not_held : Text → Reply F
  price_reply : Text → F → Reply F
  topped_up : F → F → Reply F
  insufficient_vnd : F → F → Reply F
  insufficient_stock : Text → ℤ → Reply F
  bought : ℤ → Text → F → F → F → Reply F
  sold_stock : ℤ → Text → F → F → F → F → Reply F
  cash_applied : Text → ℕ → ℤ → ℕ → F → Reply F
  rounds_to_zero : Text → ℤ → Text → ℕ → Reply F
  shares_applied : Text → ℕ → Text → ℤ → ℤ → Reply F

-- `senderInfo`
unfoldable pub sender_info : Message → Option ℤ
sender_info msg = elim msg.sender [
  | none ↦ none
  | some id ↦ if int_eq id (pos 0) then none else some id
]

-- `argsAfterCommand`
unfoldable pub args_after_command : Text → List Text
args_after_command text = drop 1 (fields text)

-- `strconv.ParseInt(s, 10, 64)` of a quantity that must be positive
unfoldable pub parse_quantity : Text → Option ℤ
parse_quantity s = elim (parse_integer s) [
  | none ↦ none
  | some n ↦ if int_lt (pos max_int64) n || not (int_lt (pos 0) n) then none else some n
]

abbrev pub one_of : {A : Type 0} → List Text → A → (Text → A) → A
one_of [] usage next = usage
one_of (x ∷ []) usage next = next x
one_of (x ∷ y ∷ zs) usage next = usage

abbrev pub two_of : {A : Type 0} → List Text → A → (Text → Text → A) → A
two_of [] usage next = usage
two_of (x ∷ []) usage next = usage
two_of (x ∷ y ∷ []) usage next = next x y
two_of (x ∷ y ∷ z ∷ zs) usage next = usage

module _ {F S : Type 0} (fl : Floats F) (to_upper : Text → Text) (store : DocStore S (Portfolio F))
    (fetch_price : Text → Price F) (now : ℕ) where
  -- `parsePositiveFinite`
  unfoldable pub parse_positive_finite : Text → Option F
  unfolding zero_float
  parse_positive_finite raw = elim (fl.parse_float raw) [
    | none ↦ none
    | some n ↦
        if not (fl.less (zero_float fl to_upper) n) || fl.is_nan n || fl.is_inf n
        then none
        else some n
  ]

  -- The symbol of an argument, or the reply without one
  abbrev pub with_symbol : Text → S → (Text → Reply F × S) → Reply F × S
  with_symbol raw s next = elim (normalize_stock_symbol to_upper raw) [
    | none ↦ (unknown_ticker (to_upper raw), s)
    | some symbol ↦ next symbol
  ]

  abbrev pub with_price : Text → S → (F → Reply F × S) → Reply F × S
  with_price symbol s next = elim (fetch_price symbol) [
    | no_price ↦ (unpriced symbol, s)
    | fetch_failed ↦ (cannot_fetch symbol, s)
    | price_of price ↦ next price
  ]

  abbrev pub with_account : ℤ → S → (Portfolio F → Reply F × S) → Reply F × S
  with_account user_id s next = elim (load_portfolio fl to_upper store user_id (pos now) s) [
    | none ↦ (cannot_load, s)
    | some p ↦ next p
  ]

  -- The end of each command
  unfoldable pub saving : ℤ → Portfolio F → Reply F → S → Reply F × S
  unfolding save_portfolio
  saving user_id p reply s =
      let (saved, s') = save_portfolio fl to_upper store user_id p s in
      if saved then (reply, s') else (cannot_save, s')

  -- `handlePrice`
  unfoldable pub handle_price : Message → S → Reply F × S
  unfolding args_after_command
  handle_price msg s =
      one_of (args_after_command msg.text) (price_usage, s)
        (λ raw.
          with_symbol raw s
            (λ symbol. with_price symbol s (λ price. (price_reply symbol price, s))))

  -- `handleTopup` from its look-up on
  unfoldable pub top_up : ℤ → F → S → Reply F × S
  unfolding saving add_vnd
  top_up user_id amount s = with_account user_id s (λ p.
      let p' = add_vnd fl to_upper amount p in
      let p'' : Portfolio F = record p' {
        meta = record p'.meta { invested = fl.add p'.meta.invested amount };
      } in
      saving user_id p'' (topped_up amount p''.vnd) s)

  -- `handleTopup`
  unfoldable pub handle_topup : Message → S → Reply F × S
  unfolding top_up parse_positive_finite args_after_command
  handle_topup msg s = elim (sender_info msg) [
    | none ↦ (cannot_identify, s)
    | some user_id ↦
        one_of (args_after_command msg.text) (topup_usage, s)
          (λ raw. elim (parse_positive_finite raw) [
            | none ↦ (bad_amount, s)
            | some amount ↦ top_up user_id amount s
          ])
  ]

  -- `handleBuy` from its look-up on
  unfoldable pub buy : ℤ → ℤ → Text → F → S → Reply F × S
  unfolding saving deduct_vnd buy_ticker
  buy user_id qty symbol price s =
      let cost = fl.mul (fl.of_int qty) price in
      with_account user_id s (λ p.
        let (covered, paid) = deduct_vnd fl to_upper cost p in
        let next : Reply F × S = elim (buy_ticker fl to_upper symbol qty cost (pos now) paid) [
          | none ↦ (cannot_buy, s)
          | some p' ↦ saving user_id p' (bought qty symbol price cost p'.vnd) s
        ] in
        if covered then next else (insufficient_vnd cost paid.vnd, s))

  -- `handleBuy`
  unfoldable pub handle_buy : Message → S → Reply F × S
  unfolding buy parse_quantity args_after_command
  handle_buy msg s = elim (sender_info msg) [
    | none ↦ (cannot_identify, s)
    | some user_id ↦
        two_of (args_after_command msg.text) (buy_usage, s)
          (λ raw ticker. elim (parse_quantity raw) [
            | none ↦ (bad_quantity, s)
            | some qty ↦
                with_symbol ticker s
                  (λ symbol. with_price symbol s (λ price. buy user_id qty symbol price s))
          ])
  ]

  -- `handleSell` from its look-up on. A failed `SellTicker` is not ok, so it is answered as a
  -- lack of stock.
  unfoldable pub sell : ℤ → ℤ → Text → F → S → Reply F × S
  unfolding saving sell_ticker add_vnd
  sell user_id qty symbol price s = with_account user_id s (λ p.
      let revenue = fl.mul (fl.of_int qty) price in
      elim (sell_ticker fl to_upper symbol qty p) [
        | refused held ↦ (insufficient_stock symbol held, s)
        | failed ↦ (insufficient_stock symbol (pos 0), s)
        | sold remaining basis p' ↦
            let p'' = add_vnd fl to_upper revenue p' in
            saving user_id p'' (sold_stock qty symbol price revenue basis p''.vnd) s
      ])

  -- `handleSell`
  unfoldable pub handle_sell : Message → S → Reply F × S
  unfolding sell parse_quantity args_after_command
  handle_sell msg s = elim (sender_info msg) [
    | none ↦ (cannot_identify, s)
    | some user_id ↦
        two_of (args_after_command msg.text) (sell_usage, s)
          (λ raw ticker. elim (parse_quantity raw) [
            | none ↦ (bad_quantity, s)
            | some qty ↦
                with_symbol ticker s
                  (λ symbol. with_price symbol s (λ price. sell user_id qty symbol price s))
          ])
  ]

  -- `handleCashDividend` from its look-up on
  unfoldable pub cash_dividend : ℤ → ℕ → Text → S → Reply F × S
  unfolding saving apply_cash_dividend
  cash_dividend user_id per_share symbol s = with_account user_id s (λ p.
      let held = (position_at fl to_upper symbol p).quantity in
      let next : Reply F × S = elim (cash_dividend_total held (pos per_share)) [
        | none ↦ (dividend_too_large, s)
        | some total ↦ elim (checked_vnd_balance fl p.vnd total) [
          | none ↦ (dividend_too_large, s)
          | some balance ↦
              elim (apply_cash_dividend fl to_upper symbol (pos total) balance (pos now) p) [
                | none ↦ (cannot_apply, s)
                | some p' ↦ saving user_id p' (cash_applied symbol per_share held total balance) s
              ]
        ]
      ] in
      if int_lt (pos 0) held then next else (not_held symbol, s))

  -- `handleCashDividend`
  unfoldable pub handle_cash_dividend : Message → S → Reply F × S
  unfolding cash_dividend parse_positive_whole args_after_command
  handle_cash_dividend msg s = elim (sender_info msg) [
    | none ↦ (cannot_identify, s)
    | some user_id ↦
        two_of (args_after_command msg.text) (cash_usage, s)
          (λ raw ticker. elim (parse_positive_whole raw) [
            | none ↦ (bad_payout, s)
            | some per_share ↦
                with_symbol ticker s (λ symbol. cash_dividend user_id per_share symbol s)
          ])
  ]

  -- `handleShareDividend` from its look-up on
  unfoldable pub share_dividend : ℤ → ShareRatio → Text → S → Reply F × S
  unfolding saving apply_share_dividend
  share_dividend user_id ratio symbol s = with_account user_id s (λ p.
      let held = (position_at fl to_upper symbol p).quantity in
      let next : Reply F × S = elim (share_dividend_entitlement held ratio) [
        | none ↦ (dividend_too_large, s)
        | some new_shares ↦
            let grown : Reply F × S = elim (checked_holding_after_dividend held new_shares) [
              | none ↦ (dividend_too_large, s)
              | some final_holding ↦
                  elim (apply_share_dividend fl to_upper symbol final_holding (pos now) p) [
                    | none ↦ (cannot_apply, s)
                    | some p' ↦
                        saving user_id p'
                          (shares_applied ratio.raw new_shares symbol held final_holding) s
                  ]
            ] in
            if new_shares == 0
            then (rounds_to_zero ratio.raw held symbol (minimum_holding_for_share ratio), s)
            else grown
      ] in
      if int_lt (pos 0) held then next else (not_held symbol, s))

  -- `handleShareDividend`
  unfoldable pub handle_share_dividend : Message → S → Reply F × S
  unfolding share_dividend parse_share_ratio args_after_command
  handle_share_dividend msg s = elim (sender_info msg) [
    | none ↦ (cannot_identify, s)
    | some user_id ↦
        two_of (args_after_command msg.text) (share_usage, s)
          (λ raw ticker. elim (parse_share_ratio raw) [
            | none ↦ (bad_ratio, s)
            | some ratio ↦ with_symbol ticker s (λ symbol. share_dividend user_id ratio symbol s)
          ])
  ]
