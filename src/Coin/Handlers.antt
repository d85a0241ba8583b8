-- ===== src/Coin/Handlers.antt =====
-- The commands that change an account (internal/modules/coin/handlers.go, trade_args.go,
-- helpers.go). A reply is its kind with what it shows; its wording is left out, and so is the
-- realized profit of a sale. The prices come from outside and are a parameter, so are the clock
-- and what others write to the store meanwhile.
pub mod Purchase
use miti99bot.Base.{
  ℕ, ◌≡◌, ◌↔◌, ◌⊎◌, inl, inr, Bool, not, ◌&&◌, ◌||◌, Option, none, some, arith, if◌then◌else◌,
  Option-cases, there, Text, lookup, ℤ, pos,
}
use miti99bot.Chat.{Message}
use miti99bot.Storage.Contract.{DocStore}
use miti99bot.Stock.{Floats}
use miti99bot.Stock.Amounts.{max_int64}
use miti99bot.Stock.Handlers.{sender_info, args_after_command, one_of, two_of}
use miti99bot.Coin.{Portfolio}
use miti99bot.Coin.Account.{
  resolve_coin_symbol, Sale, refused, failed, sold, Update, updated, rejected, zero_float,
  is_positive_finite, normalize_amount, add_usd, deduct_usd, buy_ticker, sell_ticker,
  update_portfolio,
}

-- What `replyPriceError` tells apart
pub data PriceError : Type 0 where
  unsupported_coin no_coin_price fetch_failed : PriceError

-- One constructor for each text that a handler replies with
pub data Reply (F : Type 0) : Type 0 where
  cannot_identify price_usage topup_usage buy_usage sell_usage bad_amount too_small not_saved :
      Reply F
  price_error : PriceError → Reply F
  price_reply : Text → F → Reply F
  topped_up : F → F → Reply F
  insufficient_usd : F → F → Reply F
  insufficient_coin : Text → F → F → F → Reply F
  bought : F → Text → F → F → F → Reply F
  sold_coin : F → Text → F → F → F → Reply F

-- What `parseCoinValueArgs` returns: its two errors, or the coin with the value
pub data CoinValueArgs (F : Type 0) : Type 0 where
  invalid_value unsupported : CoinValueArgs F
  coin_value : Text → F → CoinValueArgs F

-- The errors that the changes of `handleBuy` and `handleSell` return: the balance or the quantity
-- that is too small, or the error of `BuyTicker`
pub data TradeError (F : Type 0) : Type 0 where
  insufficient : F → TradeError F
  cannot_buy : TradeError F

module _ {F S : Type 0} (fl : Floats F) (abs : F → F) (dust : F) (to_upper : Text → Text)
    (store : DocStore S (Portfolio F)) (fetch_usd : Text → PriceError ⊎ F) (now : ℕ)
    (others : ℕ → S → S) where
  -- `parsePositiveFinite`
  unfoldable pub parse_positive_finite : Text → Option F
  unfolding is_positive_finite
  parse_positive_finite raw = elim (fl.parse_float raw) [
    | none ↦ none
    | some n ↦ if is_positive_finite fl abs dust to_upper n then some n else none
  ]

  -- `isSafeUSD`
  unfoldable pub is_safe_usd : F → Bool
  unfolding is_positive_finite
  is_safe_usd n =
      is_positive_finite fl abs dust to_upper n && not (fl.less (fl.of_int (pos max_int64)) n)

  -- `parsePositiveFinite` and the test of `validValue`, with which both are called
  unfoldable pub safe_usd : Text → Option F
  unfolding parse_positive_finite is_safe_usd
  safe_usd raw = elim (parse_positive_finite raw) [
    | none ↦ none
    | some n ↦ if is_safe_usd n then some n else none
  ]

  -- `parseCoinValueArgs` of two arguments
  unfoldable pub parse_coin_value_args : Text → Text → CoinValueArgs F
  unfolding resolve_coin_symbol safe_usd parse_positive_finite
  parse_coin_value_args first second = elim (resolve_coin_symbol to_upper first) [
    | some coin ↦ elim (safe_usd second) [
      | none ↦ invalid_value
      | some value ↦ coin_value coin value
    ]
    | none ↦ elim (safe_usd first) [
      | none ↦ elim (parse_positive_finite second) [ none ↦ invalid_value | some n ↦ unsupported ]
      | some value ↦ elim (resolve_coin_symbol to_upper second) [
        | none ↦ unsupported
        | some coin ↦ coin_value coin value
      ]
    ]
  ]

  -- `handlePrice`
  unfoldable pub handle_price : Message → S → Reply F × S
  unfolding args_after_command resolve_coin_symbol
  handle_price msg s =
      one_of (args_after_command msg.text) (price_usage, s)
        (λ raw. elim (resolve_coin_symbol to_upper raw) [
          | none ↦ (price_error unsupported_coin, s)
          | some coin ↦ elim (fetch_usd coin) [
            | inl e ↦ (price_error e, s)
            | inr price ↦ (price_reply coin price, s)
          ]
        ])

  -- The change of `handleTopup`, which returns no error
  unfoldable pub top_up : F → Portfolio F → TradeError F ⊎ Portfolio F
  unfolding add_usd
  top_up amount p =
      let p' = add_usd fl abs dust to_upper amount p in
      inr (record p' { meta = record p'.meta { invested = fl.add p'.meta.invested amount } })

  -- The change of `handleBuy`
  unfoldable pub buy : Text → F → F → Portfolio F → TradeError F ⊎ Portfolio F
  unfolding deduct_usd buy_ticker
  buy coin quantity amount p =
      let (paid, p') = deduct_usd fl abs dust to_upper amount p in
      if not paid
      then inl (insufficient p'.usd)
      else elim (buy_ticker fl abs dust to_upper coin quantity amount p') [
        | none ↦ inl cannot_buy
        | some q ↦ inr q
      ]

  -- The quantity held of a coin, 0 if there is none
  unfoldable pub held_of : Text → Portfolio F → F
  unfolding lookup zero_float
  held_of coin p = elim (lookup coin p.assets) [
    | none ↦ zero_float fl abs dust to_upper
    | some position ↦ position.quantity
  ]

  -- The change of `handleSell`
  unfoldable pub sell : Text → F → F → Portfolio F → TradeError F ⊎ Portfolio F
  unfolding sell_ticker add_usd held_of
  sell coin quantity amount p = elim (sell_ticker fl abs dust to_upper coin quantity p) [
    | refused held ↦ inl (insufficient (held_of coin p))
    | failed ↦ inl (insufficient (held_of coin p))
    | sold basis q ↦ inr (add_usd fl abs dust to_upper amount q)
  ]

  -- `handleTopup`
  unfoldable pub handle_topup : Message → S → Reply F × S
  unfolding sender_info args_after_command safe_usd top_up update_portfolio
  handle_topup msg s = elim (sender_info msg) [
    | none ↦ (cannot_identify, s)
    | some user_id ↦
        one_of (args_after_command msg.text) (topup_usage, s)
          (λ raw. elim (safe_usd raw) [
            | none ↦ (bad_amount, s)
            | some amount ↦
                let (u, s') =
                  update_portfolio fl abs dust to_upper store (top_up amount) others user_id
                    (pos now) s in
                elim u [ updated p ↦ (topped_up amount p.usd, s') | e ↦ (not_saved, s') ]
          ])
  ]

  -- The quantity of a coin for an amount of money
  abbrev pub with_quantity : Text → F → S → (F → F → Reply F × S) → Reply F × S
  with_quantity coin amount s next = elim (fetch_usd coin) [
    | inl e ↦ (price_error e, s)
    | inr price ↦
        let quantity = fl.div amount price in
        if not (is_positive_finite fl abs dust to_upper price)
        then (price_error no_coin_price, s)
        else if not (is_positive_finite fl abs dust to_upper quantity) || fl.less quantity dust
        then (too_small, s)
        else next price quantity
  ]

  -- What `handleBuy` and `handleSell` do before they lock the user: the sender, the arguments and
  -- the price
  abbrev pub with_trade : Reply F → Message → S → (ℤ → Text → F → F → F → Reply F × S) → Reply F × S
  with_trade usage msg s next = elim (sender_info msg) [
    | none ↦ (cannot_identify, s)
    | some user_id ↦
        two_of (args_after_command msg.text) (usage, s)
          (λ first second. elim (parse_coin_value_args first second) [
            | invalid_value ↦ (bad_amount, s)
            | unsupported ↦ (price_error unsupported_coin, s)
            | coin_value coin amount ↦ with_quantity coin amount s (next user_id coin amount)
          ])
  ]

  -- `handleBuy`
  unfoldable pub handle_buy : Message → S → Reply F × S
  unfolding sender_info args_after_command parse_coin_value_args is_positive_finite buy
      update_portfolio
  handle_buy msg s = with_trade buy_usage msg s (λ user_id coin amount price quantity.
      let (u, s') =
        update_portfolio fl abs dust to_upper store (buy coin quantity amount) others user_id
          (pos now) s in
      elim u [
        | updated p ↦ (bought quantity coin price amount p.usd, s')
        | rejected (insufficient balance) ↦ (insufficient_usd amount balance, s')
        | e ↦ (not_saved, s')
      ])

  -- `handleSell`
  unfoldable pub handle_sell : Message → S → Reply F × S
  unfolding sender_info args_after_command parse_coin_value_args is_positive_finite normalize_amount
      sell update_portfolio
  handle_sell msg s = with_trade sell_usage msg s (λ user_id coin amount price quantity.
      let (u, s') =
        update_portfolio fl abs dust to_upper store (sell coin quantity amount) others user_id
          (pos now) s in
      elim u [
        | updated p ↦ (sold_coin quantity coin price amount p.usd, s')
        | rejected (insufficient held) ↦
            (insufficient_coin coin amount (normalize_amount fl abs dust to_upper held) price, s')
        | e ↦ (not_saved, s')
      ])

  -- `parseCoinValueArgs` reads a coin and an amount exactly if the first argument is a coin and
  -- the second an amount in range, or the first is no coin but such an amount and the second is a
  -- coin.
  pub parse_coin_value_args_lem :
      (first second coin : Text) (amount : F)
      → (parse_coin_value_args first second ≡ coin_value coin amount) ↔ (
          ((resolve_coin_symbol to_upper first ≡ some coin) × (safe_usd second ≡ some amount))
          ⊎ ((resolve_coin_symbol to_upper first ≡ none)
              × (safe_usd first ≡ some amount)
              × (resolve_coin_symbol to_upper second ≡ some coin)))
  unfolding parse_coin_value_args
  parse_coin_value_args_lem first second coin amount =
      elim (Option-cases (resolve_coin_symbol to_upper first)) [
        | inr (x, e) ↦ elim (Option-cases (safe_usd second)) [
          | inl f ↦ ground (arith, e, f)
          | inr (y, f) ↦ ground (arith, e, f)
        ]
        | inl e ↦ elim (Option-cases (safe_usd first)) [
          | inl f ↦ elim (Option-cases (parse_positive_finite second)) [
            | inl g ↦ ground (arith, e, f, g)
            | inr (y, g) ↦ ground (arith, e, f, g)
          ]
          | inr (y, f) ↦ elim (Option-cases (resolve_coin_symbol to_upper second)) [
            | inl g ↦ ground (arith, e, f, g)
            | inr (z, g) ↦ ground (arith, e, f, g)
          ]
        ]
      ]
