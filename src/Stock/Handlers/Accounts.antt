-- ===== src/Stock/Handlers/Accounts.antt =====
-- The commands store valid accounts only.
use miti99bot.Base.{
  ℕ, ◌≡◌, inl, inr, true, Option, none, some, arith, ◌==◌, Bool-cases, Text, text_eq, ℤ, pos,
  int_lt,
}
use miti99bot.Chat.{Message}
use miti99bot.Storage.Contract.{DocStore, IsDocStore}
use miti99bot.Storage.Program.{Result-cases}
use miti99bot.Stock.{Floats, Portfolio}
use miti99bot.Stock.Amounts.{
  ShareRatio, parse_positive_whole, parse_share_ratio, share_dividend_entitlement,
  checked_holding_after_dividend, cash_dividend_total, checked_vnd_balance,
}
use miti99bot.Stock.Account.{
  normalize_stock_symbol, is_valid, portfolio_key, load_portfolio, save_portfolio, position_at,
  buy_ticker, sell_ticker, apply_cash_dividend, apply_share_dividend, deduct_vnd,
}
use miti99bot.Stock.Handlers.Branches.{
  Good-option, Good-if, Good-price, Good-sale, Good-one_of, Good-two_of,
}
use miti99bot.Stock.Handlers.{
  Price, Reply, cannot_identify, bad_quantity, sender_info, args_after_command, parse_quantity,
  two_of, parse_positive_finite, with_symbol, with_price, saving, top_up, handle_topup, buy,
  handle_buy, sell, handle_sell, cash_dividend, handle_cash_dividend, share_dividend,
  handle_share_dividend,
}

module _ {F S : Type 0} (fl : Floats F) (to_upper : Text → Text) (store : DocStore S (Portfolio F))
    (sv : S → Text → Option (Portfolio F)) (sn : S → Text → ℕ) (laws : IsDocStore store sv sn)
    (fetch_price : Text → Price F) (now : ℕ) where
  -- Every portfolio that a state holds passes `Validate`.
  abbrev pub AllValid : S → Type 0
  AllValid s = (j : Text) (p : Portfolio F) → sv s j ≡ some p → is_valid fl to_upper p ≡ true

  abbrev Good : Reply F × S → Type 0
  Good result = AllValid result.1

  save_portfolio-Good :
      (user : ℤ) (p : Portfolio F) (s : S)
      → AllValid s
      → AllValid (save_portfolio fl to_upper store user p s).1
  unfolding save_portfolio
  save_portfolio-Good user p s h j q e = elim (Bool-cases (is_valid fl to_upper p)) [
    | inr odd ↦ h j q (ground (arith, e, odd))
    | inl fine ↦ elim (Result-cases (store.put (portfolio_key user) p s).0) [
      | inr (x, w) ↦ h j q (ground (arith, e, fine, laws.put_err (portfolio_key user) p s x w))
      | inl (u, w) ↦ elim (Bool-cases (text_eq (portfolio_key user) j)) [
        | inl same ↦ ground (arith, e, fine, same, laws.put_ok (portfolio_key user) j p s w)
        | inr other ↦
            h j q (ground (arith, e, fine, other, laws.put_ok (portfolio_key user) j p s w))
      ]
    ]
  ]

  saving-Good :
      (user : ℤ) (p : Portfolio F) (reply : Reply F) (s : S)
      → AllValid s
      → Good (saving fl to_upper store fetch_price now user p reply s)
  unfolding saving
  saving-Good user p reply s h =
      let after = save_portfolio-Good user p s h in
      Good-if Good (save_portfolio fl to_upper store user p s).0 _ _ after after

  top_up-Good :
      (user : ℤ) (amount : F) (s : S)
      → AllValid s
      → Good (top_up fl to_upper store fetch_price now user amount s)
  unfolding top_up
  top_up-Good user amount s h =
      Good-option Good (load_portfolio fl to_upper store user (pos now) s) _ _ h
        (λ p. saving-Good user _ _ s h)

  handle_topup-Good :
      (msg : Message) (s : S)
      → AllValid s
      → Good (handle_topup fl to_upper store fetch_price now msg s)
  unfolding handle_topup
  handle_topup-Good msg s h = Good-option Good (sender_info msg) _ _ h (λ user.
      Good-one_of Good (args_after_command msg.text) _ _ h (λ raw.
        Good-option Good (parse_positive_finite fl to_upper store fetch_price now raw) _ _ h
          (λ amount. top_up-Good user amount s h)))

  buy-Good :
      (user qty : ℤ) (symbol : Text) (price : F) (s : S)
      → AllValid s
      → Good (buy fl to_upper store fetch_price now user qty symbol price s)
  unfolding buy
  buy-Good user qty symbol price s h =
      Good-option Good (load_portfolio fl to_upper store user (pos now) s) _ _ h (λ p.
        let paid = deduct_vnd fl to_upper (fl.mul (fl.of_int qty) price) p in
        Good-if Good paid.0 _ _
          (Good-option Good
            (buy_ticker fl to_upper symbol qty (fl.mul (fl.of_int qty) price) (pos now) paid.1) _ _
            h (λ p'. saving-Good user _ _ s h))
          h)

  sell-Good :
      (user qty : ℤ) (symbol : Text) (price : F) (s : S)
      → AllValid s
      → Good (sell fl to_upper store fetch_price now user qty symbol price s)
  unfolding sell
  sell-Good user qty symbol price s h =
      Good-option Good (load_portfolio fl to_upper store user (pos now) s) _ _ h (λ p.
        Good-sale Good (sell_ticker fl to_upper symbol qty p) _ _ _ (λ held. h) h
          (λ left basis p'. saving-Good user _ _ s h))

  -- What the two trades share
  trade-Good :
      (msg : Message) (usage : Reply F) (trade : ℤ → ℤ → Text → F → Reply F × S) (s : S)
      → AllValid s
      → ((user qty : ℤ) (symbol : Text) (price : F) → Good (trade user qty symbol price))
      → Good (elim (sender_info msg) [
        | none ↦ (cannot_identify, s)
        | some user ↦
            two_of
              (args_after_command msg.text)
              (usage, s)
              (λ raw ticker. elim (parse_quantity raw) [
                | none ↦ (bad_quantity, s)
                | some qty ↦ with_symbol fl to_upper store fetch_price now ticker s (λ symbol.
                    with_price fl to_upper store fetch_price now symbol s
                      (λ price. trade user qty symbol price))
              ])
      ])
  trade-Good msg usage trade s h k = Good-option Good (sender_info msg) _ _ h (λ user.
      Good-two_of Good (args_after_command msg.text) _ _ h (λ raw ticker.
        Good-option Good (parse_quantity raw) _ _ h (λ qty.
          Good-option Good (normalize_stock_symbol to_upper ticker) _ _ h (λ symbol.
            Good-price Good (fetch_price symbol) _ _ _ h h (λ price. k user qty symbol price)))))

  handle_buy-Good :
      (msg : Message) (s : S)
      → AllValid s
      → Good (handle_buy fl to_upper store fetch_price now msg s)
  unfolding handle_buy
  handle_buy-Good msg s h =
      trade-Good msg _ _ s h (λ user qty symbol price. buy-Good user qty symbol price s h)

  handle_sell-Good :
      (msg : Message) (s : S)
      → AllValid s
      → Good (handle_sell fl to_upper store fetch_price now msg s)
  unfolding handle_sell
  handle_sell-Good msg s h =
      trade-Good msg _ _ s h (λ user qty symbol price. sell-Good user qty symbol price s h)

  cash_dividend-Good :
      (user : ℤ) (per_share : ℕ) (symbol : Text) (s : S)
      → AllValid s
      → Good (cash_dividend fl to_upper store fetch_price now user per_share symbol s)
  unfolding cash_dividend
  cash_dividend-Good user per_share symbol s h =
      Good-option Good (load_portfolio fl to_upper store user (pos now) s) _ _ h (λ p.
        let held = (position_at fl to_upper symbol p).quantity in
        Good-if Good (int_lt (pos 0) held) _ _
          (Good-option Good (cash_dividend_total held (pos per_share)) _ _ h (λ total.
            Good-option Good (checked_vnd_balance fl p.vnd total) _ _ h (λ balance.
              Good-option Good
                (apply_cash_dividend fl to_upper symbol (pos total) balance (pos now) p) _ _ h
                (λ p'. saving-Good user _ _ s h))))
          h)

  handle_cash_dividend-Good :
      (msg : Message) (s : S)
      → AllValid s
      → Good (handle_cash_dividend fl to_upper store fetch_price now msg s)
  unfolding handle_cash_dividend
  handle_cash_dividend-Good msg s h = Good-option Good (sender_info msg) _ _ h (λ user.
      Good-two_of Good (args_after_command msg.text) _ _ h (λ raw ticker.
        Good-option Good (parse_positive_whole raw) _ _ h (λ per_share.
          Good-option Good (normalize_stock_symbol to_upper ticker) _ _ h
            (λ symbol. cash_dividend-Good user per_share symbol s h))))

  share_dividend-Good :
      (user : ℤ) (ratio : ShareRatio) (symbol : Text) (s : S)
      → AllValid s
      → Good (share_dividend fl to_upper store fetch_price now user ratio symbol s)
  unfolding share_dividend
  share_dividend-Good user ratio symbol s h =
      Good-option Good (load_portfolio fl to_upper store user (pos now) s) _ _ h (λ p.
        let held = (position_at fl to_upper symbol p).quantity in
        Good-if Good (int_lt (pos 0) held) _ _
          (Good-option Good (share_dividend_entitlement held ratio) _ _ h (λ new_shares.
            Good-if Good (new_shares == 0) _ _ h (
              Good-option Good (checked_holding_after_dividend held new_shares) _ _ h
                (λ final_holding.
                  Good-option Good
                    (apply_share_dividend fl to_upper symbol final_holding (pos now) p) _ _ h
                    (λ p'. saving-Good user _ _ s h)))))
          h)

  handle_share_dividend-Good :
      (msg : Message) (s : S)
      → AllValid s
      → Good (handle_share_dividend fl to_upper store fetch_price now msg s)
  unfolding handle_share_dividend
  handle_share_dividend-Good msg s h = Good-option Good (sender_info msg) _ _ h (λ user.
      Good-two_of Good (args_after_command msg.text) _ _ h (λ raw ticker.
        Good-option Good (parse_share_ratio raw) _ _ h (λ ratio.
          Good-option Good (normalize_stock_symbol to_upper ticker) _ _ h
            (λ symbol. share_dividend-Good user ratio symbol s h))))

  -- For a store that keeps the contract: if every stored portfolio passes `Validate`, then every
  -- one does after a top-up, a purchase, a sale and either manual dividend, whatever the message,
  -- the prices and the floating-point operations are, and whichever reads and writes fail.
  pub handle_topup-valid :
      (msg : Message) (s : S)
      → AllValid s
      → AllValid (handle_topup fl to_upper store fetch_price now msg s).1
        × AllValid (handle_buy fl to_upper store fetch_price now msg s).1
        × AllValid (handle_sell fl to_upper store fetch_price now msg s).1
        × AllValid (handle_cash_dividend fl to_upper store fetch_price now msg s).1
        × AllValid (handle_share_dividend fl to_upper store fetch_price now msg s).1
  handle_topup-valid msg s h = (
    handle_topup-Good msg s h,
    handle_buy-Good msg s h,
    handle_sell-Good msg s h,
    handle_cash_dividend-Good msg s h,
    handle_share_dividend-Good msg s h,
  )
