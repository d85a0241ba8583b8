-- ===== src/Coin/Tests.antt =====
-- A purchase while another writer changes the account, with whole numbers for money, and the
-- theorem at it.
use miti99bot.Base.{
  ℕ, ◌≡◌, refl, ◌⊎◌, inl, inr, Option, some, [], ◌∷◌, arith, ◌==◌, if◌then◌else◌, Bool-cases, Text,
  codes, text_eq, has_prefix, text_eq→eq, lookup, insert, erase, ℤ, pos, format_int, parse_integer,
}
use miti99bot.Chat.{Message, private_chat, trim_space, leading_space}
use miti99bot.Storage.Contract.{DocStore, IsDocStore}
use miti99bot.Storage.Table.{
  Table, table_store, table_view, table_version, table_put, table_store-IsDocStore,
}
use miti99bot.Stock.Integers.{whole}
use miti99bot.Stock.Handlers.{sender_info, args_after_command}
use miti99bot.Coin.{Portfolio}
use miti99bot.Blacklist.Handlers.{fields, fields_from}
use miti99bot.Coin.Account.{
  update_portfolio, attempt_from, load_for_update, loaded, with_created_at, new_portfolio, is_valid,
  normalize, normalize_amount, is_positive_finite, zero_float, add_usd, deduct_usd, buy_ticker,
  resolve_coin_symbol, valid_coin_symbol, failed, portfolio_key, sell_ticker,
}
use miti99bot.Coin.Handlers.{
  safe_usd, is_safe_usd, parse_positive_finite, top_up, PriceError, bought, bad_amount,
  insufficient_usd, parse_coin_value_args, buy, handle_buy, handle_topup,
}
use miti99bot.Coin.Handlers.Purchase.{IsPurchase, handle_buy_lem}

abbrev Accounts : Type 0
Accounts = Table (Portfolio ℤ)

abbrev set_accounts : Accounts → Accounts → Accounts
set_accounts t s = t

abbrev accounts : DocStore Accounts (Portfolio ℤ)
accounts = table_store (λ s. s) set_accounts

abbrev view : Accounts → Text → Option (Portfolio ℤ)
view = table_view (λ s. s) set_accounts

abbrev version : Accounts → Text → ℕ
version = table_version (λ s. s) set_accounts

accounts_laws : IsDocStore accounts view version
accounts_laws = table_store-IsDocStore (λ s. s) set_accounts (λ t s. refl)

abbrev same : {A : Type 0} → A → A
same x = x

abbrev quote : Text → PriceError ⊎ ℤ
quote coin = inr (pos 3)

abbrev account_of : ℤ → Portfolio ℤ
account_of usd = record {
  usd = usd;
  assets = [];
  meta = record { invested = usd; created_at = pos 1 };
}

abbrev key : Text
key = codes "user:7"

abbrev before : Accounts
before = (key, (account_of (pos 100), 1)) ∷ []

-- Before the first write, the account is set to 60.
abbrev rival : ℕ → Accounts → Accounts
rival n s = if n == 4 then table_put (λ t. t) set_accounts key (account_of (pos 60)) s else s

abbrev message : Text → Message
message text = record {
  chat_type = private_chat;
  chat_id = pos 7;
  sender = some (pos 7);
  text = text;
}

runs : Unit {0}
unfolding handle_buy handle_topup parse_coin_value_args safe_usd is_safe_usd parse_positive_finite
    sender_info args_after_command fields fields_from buy top_up update_portfolio attempt_from
    load_for_update loaded with_created_at new_portfolio is_valid normalize normalize_amount
    is_positive_finite zero_float add_usd deduct_usd buy_ticker sell_ticker resolve_coin_symbol
    valid_coin_symbol portfolio_key trim_space leading_space format_int parse_integer text_eq
    has_prefix lookup insert erase
runs = tt

buys :
    (handle_buy whole same
      (pos 1)
      same
      accounts
      quote
      2000
      rival
      (message (codes "/coin_buy BTC 10"))
      before).0
    ≡ bought (pos 1) (codes "BTC") (pos 3) (pos 10) (pos 50)
unfolding runs
buys = refl

buys_too_much :
    (handle_buy whole same
      (pos 1)
      same
      accounts
      quote
      2000
      rival
      (message (codes "/coin_buy 70 BTC"))
      before).0
    ≡ insufficient_usd (pos 70) (pos 60)
unfolding runs
buys_too_much = refl

misses_ticker :
    (handle_topup whole same
      (pos 1)
      same
      accounts
      quote
      2000
      rival
      (message (codes "/coin_topup BTC"))
      before).0
    ≡ bad_amount
unfolding runs
misses_ticker = refl

abbrev held : Portfolio ℤ
held = record {
  usd = pos 0;
  assets = (codes "BTC", record { quantity = pos 5; base = pos 0 }) ∷ [];
  meta = record { invested = pos 0; created_at = pos 1 };
}

-- An error of `SellTicker` comes with ok = false: here the basis is not positive.
sells_without_basis : sell_ticker whole same (pos 1) same (codes "BTC") (pos 1) held ≡ failed
unfolding runs
sells_without_basis = refl

rival_honest :
    (j : Text) (n : ℕ) (u : Accounts)
    → version (rival n u) j ≡ version u j
    → view (rival n u) j ≡ view u j
rival_honest j n u h = elim (Bool-cases (n == 4)) [
  | inr e ↦ ground (arith, e)
  | inl e ↦ elim (Bool-cases (text_eq key j)) [
    | inl f ↦ absurd (
        ground (
          arith,
          e,
          f,
          h,
          accounts_laws.put_ok key j (account_of (pos 60)) u refl,
          text_eq→eq key j f,
        ))
    | inr f ↦ ground (arith, e, f, accounts_laws.put_ok key j (account_of (pos 60)) u refl)
  ]
]

handle_buy_example :
    IsPurchase whole same
      (pos 1)
      same
      accounts
      view
      version
      accounts_laws
      quote
      2000
      rival
      (message (codes "/coin_buy BTC 10"))
      before
      (handle_buy whole same
        (pos 1)
        same
        accounts
        quote
        2000
        rival
        (message (codes "/coin_buy BTC 10"))
        before)
handle_buy_example =
    handle_buy_lem whole same (pos 1) same accounts view version accounts_laws quote 2000 rival
      (message (codes "/coin_buy BTC 10")) before rival_honest
