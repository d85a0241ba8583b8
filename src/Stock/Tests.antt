-- ===== src/Stock/Tests.antt =====
-- Portfolios over concrete stores, with whole numbers for money, and the theorems at concrete
-- inputs.
use miti99bot.Base.{
  ℕ, ◌≤◌, ◌<◌, ◌≡◌, refl, sym, ◌↔◌, inl, inr, true, false, Option, some, [], ◌∷◌, arith, Bool-cases,
  length, Text, codes, text_eq, has_prefix, lookup, insert, erase, ℤ, pos, format_int,
  parse_integer,
}
use miti99bot.Chat.{Message, private_chat, trim_space, leading_space}
use miti99bot.Storage.Contract.{DocStore, IsDocStore, IsFramed}
use miti99bot.Storage.Table.{
  Table, table_store, table_view, table_version, table_store-IsDocStore, table_store-IsFramed,
}
use miti99bot.Stock.{AssetPosition, dividend_kind_cash, DividendRecord, Portfolio}
use miti99bot.Stock.Integers.{whole}
use miti99bot.Stock.Amounts.{
  ShareRatio, share_dividend_entitlement, minimum_holding_for_share, cash_dividend_total,
  checked_vnd_balance,
}
use miti99bot.Stock.Amounts.Bounds.{share_dividend_entitlement_lem}
use miti99bot.Stock.Pending.{
  PendingDividendAction, is_provider_id, dividend_callback_data, parse_dividend_callback,
  parse_owner_id, pending_dividend_key,
}
use miti99bot.Stock.Pending.Data.{parse_dividend_callback-data}
use miti99bot.Stock.Account.{
  normalize_stock_symbol, is_valid_record, dividend_record_due, position_opened_by_record_date,
  dividend_record, set_dividend_record, is_valid, zero_float, is_non_negative_finite_cost,
  portfolio_key, with_created_at, load_portfolio, save_portfolio, apply_cash_dividend,
}
use miti99bot.Stock.Callback.{
  Query, apply_suggested_dividend, apply_and_save, check_position, consume, consume_dividend_action,
  press, handle_dividend_callback,
}
use miti99bot.Stock.Callback.Once.{handle_dividend_callback_once}
use miti99bot.Stock.Handlers.{
  Price, price_of, handle_topup, handle_buy, handle_sell, handle_cash_dividend,
  handle_share_dividend,
}
use miti99bot.Stock.Handlers.Accounts.{AllValid, handle_topup-valid}

abbrev ten_to_three : ShareRatio
ten_to_three = record { owned = 10; new = 3; raw = codes "10:3" }

share_dividend_entitlement_example :
    ((share_dividend_entitlement (pos 7) ten_to_three ≡ some 2)
      ↔ ((20 ≤ 21) × (21 < 30) × (2 ≤ 9223372036854775807)))
    × (share_dividend_entitlement (pos 7) ten_to_three ≡ some 2
        → (1 ≤ 2) ↔ (minimum_holding_for_share ten_to_three ≤ 7))
share_dividend_entitlement_example =
    share_dividend_entitlement_lem 7 2 ten_to_three (omega arith) (omega arith) (omega arith)

minimum_is_four : minimum_holding_for_share ten_to_three ≡ 4
unfolding minimum_holding_for_share
minimum_is_four = refl

parse_dividend_callback-data_example :
    (length (codes "stock_div:7:ev1") ≤ 64)
    × (parse_dividend_callback (codes "stock_div:7:ev1") ≡ some (pos 7, codes "ev1"))
unfolding dividend_callback_data is_provider_id format_int
parse_dividend_callback-data_example =
    parse_dividend_callback-data 7 (codes "ev1") (codes "stock_div:7:ev1") (omega arith) refl

record Tables : Type 0 where
  portfolios : Table (Portfolio ℤ)
  actions : Table PendingDividendAction

abbrev set_portfolios : Table (Portfolio ℤ) → Tables → Tables
set_portfolios t s = record s { portfolios = t }

abbrev set_actions : Table PendingDividendAction → Tables → Tables
set_actions t s = record s { actions = t }

abbrev accounts : DocStore Tables (Portfolio ℤ)
accounts = table_store (λ s. s.portfolios) set_portfolios

abbrev pending : DocStore Tables PendingDividendAction
pending = table_store (λ s. s.actions) set_actions

abbrev sv : Tables → Text → Option (Portfolio ℤ)
sv = table_view (λ s. s.portfolios) set_portfolios

abbrev sn : Tables → Text → ℕ
sn = table_version (λ s. s.portfolios) set_portfolios

abbrev pv : Tables → Text → Option PendingDividendAction
pv = table_view (λ s. s.actions) set_actions

abbrev pn : Tables → Text → ℕ
pn = table_version (λ s. s.actions) set_actions

store_laws : IsDocStore accounts sv sn
store_laws = table_store-IsDocStore (λ s. s.portfolios) set_portfolios (λ t s. refl)

pending_laws : IsDocStore pending pv pn
pending_laws = table_store-IsDocStore (λ s. s.actions) set_actions (λ t s. refl)

store_frame : IsFramed accounts pv
store_frame = table_store-IsFramed (λ s. s.portfolios) set_portfolios pv (λ t s. refl)

pending_frame : IsFramed pending sv
pending_frame = table_store-IsFramed (λ s. s.actions) set_actions sv (λ t s. refl)

abbrev keep_case : Text → Text
keep_case s = s

abbrev payout : DividendRecord
payout = record {
  kind = dividend_kind_cash;
  published_at = pos 1000;
  ex_date = pos 0;
  record_date = pos 1000;
  payment_date = pos 0;
  vnd_per_share = pos 5;
  owned_shares = pos 0;
  new_shares = pos 0;
  title = [];
  source_url = [];
  processed = false;
}

abbrev position : AssetPosition ℤ
position = record { quantity = pos 100; base = pos 900; opened_at = pos 900 }

abbrev account : Portfolio ℤ
account = record {
  vnd = pos 50;
  assets = (codes "TCB", position) ∷ [];
  dividends = (codes "TCB", some ((codes "ev1", payout) ∷ [])) ∷ [];
  meta = record { invested = pos 1000; created_at = pos 1 };
}

abbrev action : PendingDividendAction
action = record {
  owner_user_id = pos 7;
  chat_id = pos 5;
  message_id = pos 3;
  provider_event_id = codes "ev1";
  symbol = codes "TCB";
  position_opened_at = pos 900;
  created_at = pos 1000;
  expires_at = pos 9000;
}

abbrev before : Tables
before = record {
  portfolios = (codes "user:7", (account, 1)) ∷ [];
  actions = (codes "pending-dividend:7:ev1", (action, 1)) ∷ [];
}

abbrev query : Query
query = record {
  from_id = pos 7;
  data_text = codes "stock_div:7:ev1";
  message = some (pos 5, pos 3);
}

runs : Unit {0}
unfolding handle_dividend_callback press consume_dividend_action consume check_position
    apply_and_save apply_suggested_dividend apply_cash_dividend cash_dividend_total
    checked_vnd_balance parse_dividend_callback parse_owner_id pending_dividend_key is_provider_id
    load_portfolio with_created_at save_portfolio is_valid normalize_stock_symbol is_valid_record
    is_non_negative_finite_cost zero_float portfolio_key dividend_record set_dividend_record
    dividend_record_due position_opened_by_record_date trim_space leading_space format_int
    parse_integer text_eq has_prefix lookup insert erase
runs = tt

handle_dividend_callback_once_example :
    let s' =
      (handle_dividend_callback whole keep_case accounts pending (some query) 2000 before).1 in
    sv
      (handle_dividend_callback whole keep_case accounts pending (some query) 3000 s').1
      (portfolio_key (pos 7))
    ≡ sv s' (portfolio_key (pos 7))
unfolding runs
handle_dividend_callback_once_example =
    handle_dividend_callback_once whole keep_case accounts pending sv sn pv pn store_laws
      pending_laws store_frame pending_frame query query 2000 3000 before (pos 7) refl refl

abbrev quote : Text → Price ℤ
quote symbol = price_of (pos 20)

abbrev message : Message
message = record {
  chat_type = private_chat;
  chat_id = pos 7;
  sender = some (pos 7);
  text = codes "/stock_buy 2 TCB";
}

abbrev IsFine : Tables → Type 0
IsFine = AllValid whole keep_case accounts sv sn store_laws quote 2000

valid_account : is_valid whole keep_case account ≡ true
unfolding runs
valid_account = refl

valid_before : IsFine before
unfolding lookup
valid_before j p h = elim (Bool-cases (text_eq (codes "user:7") j)) [
  | inr e ↦ absurd (ground (arith, e, h))
  | inl e ↦ let same : account ≡ p = ground (arith, e, h) in rw (sym same) valid_account
]

handle_topup-valid_example :
    IsFine (handle_topup whole keep_case accounts quote 2000 message before).1
    × IsFine (handle_buy whole keep_case accounts quote 2000 message before).1
    × IsFine (handle_sell whole keep_case accounts quote 2000 message before).1
    × IsFine (handle_cash_dividend whole keep_case accounts quote 2000 message before).1
    × IsFine (handle_share_dividend whole keep_case accounts quote 2000 message before).1
handle_topup-valid_example =
    handle_topup-valid whole keep_case accounts sv sn store_laws quote 2000 message before
      valid_before
