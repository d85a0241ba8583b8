-- ===== src/Stock/Pending.antt =====
-- The pending actions behind the buttons (internal/modules/stock/pending_dividend.go).
pub mod Data
use miti99bot.Base.{
  ℕ, Bool, true, not, ◌&&◌, ◌||◌, Option, none, some, List, [], ◌∷◌, ◌++◌, ltb, leb, ◌==◌,
  if◌then◌else◌, length, drop, Text, codes, has_prefix, ℤ, pos, format_int, parse_integer, int_lt,
}
use miti99bot.Storage.Contract.{Result, ok, err, DocStore}
use miti99bot.Stock.Amounts.{max_int64, cut}

-- `PendingDividendAction`
pub record PendingDividendAction : Type 0 where
  pub owner_user_id : ℤ
  pub chat_id : ℤ
  pub message_id : ℤ
  pub provider_event_id : Text
  pub symbol : Text
  pub position_opened_at : ℤ
  pub created_at : ℤ
  pub expires_at : ℤ

abbrev pub dividend_callback_prefix : Text
dividend_callback_prefix = codes "stock_div:"

abbrev pub pending_dividend_prefix : Text
pending_dividend_prefix = codes "pending-dividend:"

abbrev pub max_dividend_callback_bytes : ℕ
max_dividend_callback_bytes = 64

is_id_char : ℕ → Bool
is_id_char c =
    (leb 65 c && leb c 90)
    || (leb 97 c && leb c 122)
    || (leb 48 c && leb c 57)
    || c == 95
    || c == 45

all_id_chars : Text → Bool
all_id_chars [] = true
all_id_chars (c ∷ s) = is_id_char c && all_id_chars s

-- `ssiProviderIDPattern`
unfoldable pub is_provider_id : Text → Bool
unfolding all_id_chars is_id_char
is_provider_id s = leb 1 (length s) && leb (length s) 64 && all_id_chars s

-- `pendingDividendKey`
unfoldable pub pending_dividend_key : ℤ → Text → Text
pending_dividend_key user_id event_id =
    pending_dividend_prefix ++ (format_int user_id ++ (codes ":" ++ event_id))

-- `dividendCallbackData`
unfoldable pub dividend_callback_data : ℤ → Text → Option Text
unfolding is_provider_id format_int
dividend_callback_data user_id event_id =
    let data_text = dividend_callback_prefix ++ (format_int user_id ++ (codes ":" ++ event_id)) in
    if not (int_lt (pos 0) user_id) || not (is_provider_id event_id)
    then none
    else if ltb max_dividend_callback_bytes (length data_text)
    then none
    else some data_text

-- `strconv.ParseInt(s, 10, 64)` of an id that must be positive
unfoldable pub parse_owner_id : Text → Option ℤ
parse_owner_id s = elim (parse_integer s) [
  | none ↦ none
  | some n ↦ if int_lt (pos max_int64) n || not (int_lt (pos 0) n) then none else some n
]

-- `parseDividendCallback`
unfoldable pub parse_dividend_callback : Text → Option (ℤ × Text)
unfolding has_prefix is_provider_id parse_owner_id cut
parse_dividend_callback data_text =
    let rest = drop (length dividend_callback_prefix) data_text in
    if ltb max_dividend_callback_bytes (length data_text)
      || not (has_prefix data_text dividend_callback_prefix)
    then none
    else elim (cut rest b':') [
      | none ↦ none
      | some (owner_part, event_id) ↦
          if not (is_provider_id event_id) then none else elim (parse_owner_id owner_part) [
            | none ↦ none
            | some owner_id ↦ some (owner_id, event_id)
          ]
    ]

abbrev is_expired : ℤ → PendingDividendAction → Bool
is_expired now action = int_lt (pos 0) action.expires_at && not (int_lt now action.expires_at)

module _ {S : Type 0} (pending : DocStore S PendingDividendAction) where
  cleanup_from : ℤ → List Text → S → S
  cleanup_from now [] s = s
  cleanup_from now (key ∷ keys) s = elim (pending.get key s) [
    | err e ↦ cleanup_from now keys s
    | ok (action, n) ↦
        let rest = cleanup_from now keys s in
        let deleted = cleanup_from now keys (pending.delete key s).1 in
        if is_expired now action then deleted else rest
  ]

  -- `cleanupExpiredDividends` of a store that is not nil
  unfoldable pub cleanup_expired_dividends : ℤ → S → S
  unfolding cleanup_from
  cleanup_expired_dividends now s = elim (pending.list pending_dividend_prefix s) [
    | err e ↦ s
    | ok keys ↦ cleanup_from now keys s
  ]
