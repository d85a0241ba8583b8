-- ===== src/Stock/Callback.antt =====
-- Pressing the button of a dividend (internal/modules/stock/dividend_callback.go). An answer is
-- its kind. The lock of the user is held while the action is consumed, so that part is one run;
-- the clock is read once. Telegram's answers to the edits of the message are left out, and the
-- store of pending actions is not nil.
pub mod Applied
pub mod Once
use miti99bot.Base.{
  ℕ, Bool, true, false, not, ◌&&◌, ◌||◌, Option, none, some, ◌++◌, ◌==◌, if◌then◌else◌, Text, codes,
  lookup, ℤ, pos, negsuc, format_int, int_eq, int_lt,
}
use miti99bot.Storage.Contract.{Result, ok, err, DocStore, found_or_none}
use miti99bot.Stock.{
  Floats, AssetPosition, dividend_kind_cash, dividend_kind_shares, other_dividend_kind,
  DividendRecord, Portfolio,
}
use miti99bot.Stock.Amounts.{
  ShareRatio, share_dividend_entitlement, checked_holding_after_dividend, cash_dividend_total,
  checked_vnd_balance,
}
use miti99bot.Stock.Pending.{PendingDividendAction, pending_dividend_key, parse_dividend_callback}
use miti99bot.Stock.Account.{
  dividend_record_due, position_opened_by_record_date, dividend_record, set_dividend_record,
  load_portfolio, save_portfolio, apply_cash_dividend, apply_share_dividend,
}

-- The parts of `models.CallbackQuery` that are read: the message is its chat and its id.
pub record Query : Type 0 where
  pub from_id : ℤ
  pub data_text : Text
  pub message : Option (ℤ × ℤ)

-- One constructor for each answer; `reload_error` is the error that is returned.
pub data Answer : Type 0 where
  silent invalid used could_not_load not_owner not_here expired already_handled reload_error
        no_portfolio not_available already_applied before_record_date not_held reopened opened_after
        could_not_apply could_not_save applied :
      Answer

abbrev positive_part : ℤ → ℕ
positive_part (pos n) = n
positive_part (negsuc n) = 0

abbrev ratio_of : DividendRecord → ShareRatio
ratio_of r = record {
  owned = positive_part r.owned_shares;
  new = positive_part r.new_shares;
  raw = format_int r.owned_shares ++ (codes ":" ++ format_int r.new_shares);
}

module _ {F S : Type 0} (fl : Floats F) (to_upper : Text → Text) (store : DocStore S (Portfolio F))
    (pending : DocStore S PendingDividendAction) where
  -- The cash and the share case of `applySuggestedDividend`
  apply_cash : Text → DividendRecord → ℤ → ℤ → Portfolio F → Option (Portfolio F)
  apply_cash symbol r held now p = elim (cash_dividend_total held r.vnd_per_share) [
    | none ↦ none
    | some total ↦ elim (checked_vnd_balance fl p.vnd total) [
      | none ↦ none
      | some balance ↦ apply_cash_dividend fl to_upper symbol (pos total) balance now p
    ]
  ]

  apply_shares : Text → DividendRecord → ℤ → ℤ → Portfolio F → Option (Portfolio F)
  apply_shares symbol r held now p = elim (share_dividend_entitlement held (ratio_of r)) [
    | none ↦ none
    | some new_shares ↦ elim (checked_holding_after_dividend held new_shares) [
      | none ↦ none
      | some final_holding ↦
          if new_shares == 0
          then none
          else apply_share_dividend fl to_upper symbol final_holding now p
    ]
  ]

  -- `applySuggestedDividend`; none is an error.
  unfoldable pub apply_suggested_dividend :
      Text → DividendRecord → ℤ → ℤ → Portfolio F → Option (Portfolio F)
  unfolding apply_cash apply_shares
  apply_suggested_dividend symbol r held now p = elim r.kind [
    | dividend_kind_cash ↦ apply_cash symbol r held now p
    | dividend_kind_shares ↦ apply_shares symbol r held now p
    | other_dividend_kind k ↦ none
  ]

  -- `rejectDividendAction`
  abbrev pub reject : Text → Answer → S → Answer × S
  reject key answer s = (answer, (pending.delete key s).1)

  -- `consumeDividendAction` from the application on
  unfoldable pub apply_and_save :
      Text → PendingDividendAction → DividendRecord → ℤ → ℕ → Portfolio F → S → Answer × S
  unfolding apply_suggested_dividend set_dividend_record
  apply_and_save key action r held now p s =
      elim (apply_suggested_dividend action.symbol r held (pos now) p) [
        | none ↦ (could_not_apply, s)
        | some p' ↦
            let done : DividendRecord = record r { processed = true } in
            let marked = set_dividend_record action.symbol action.provider_event_id done p' in
            let (saved, s') = save_portfolio fl to_upper store action.owner_user_id marked s in
            if saved then (applied, (pending.delete key s').1) else (could_not_save, s')
      ]

  -- The checks of the position
  unfoldable pub check_position :
      Text → PendingDividendAction → DividendRecord → ℕ → Portfolio F → S → Answer × S
  unfolding apply_and_save lookup
  check_position key action r now p s = elim (lookup action.symbol p.assets) [
    | none ↦ reject key not_held s
    | some position ↦
        let next = apply_and_save key action r position.quantity now p s in
        if not (int_lt (pos 0) position.quantity)
        then reject key not_held s
        else if not (int_eq position.opened_at action.position_opened_at)
        then reject key reopened s
        else if not (position_opened_by_record_date position r)
        then reject key opened_after s
        else next
  ]

  -- `consumeDividendAction` for the action that was read again
  unfoldable pub consume : Text → PendingDividendAction → ℕ → S → Answer × S
  unfolding check_position dividend_record
  consume key action now s =
      elim (load_portfolio fl to_upper store action.owner_user_id (pos now) s) [
        | none ↦ (no_portfolio, s)
        | some p ↦ elim (dividend_record p action.symbol action.provider_event_id) [
          | none ↦ reject key not_available s
          | some r ↦
              let next = check_position key action r now p s in
              if r.processed
              then reject key already_applied s
              else if not (dividend_record_due r now)
              then reject key before_record_date s
              else next
        ]
      ]

  -- `consumeDividendAction`
  unfoldable pub consume_dividend_action : Text → ℕ → S → Answer × S
  unfolding consume
  consume_dividend_action key now s = elim (found_or_none (pending.get key s)) [
    | err e ↦ (reload_error, s)
    | ok found ↦ elim found [ none ↦ (already_handled, s) | some action ↦ consume key action now s ]
  ]

  abbrev is_here : Option (ℤ × ℤ) → PendingDividendAction → Bool
  is_here none action = false
  is_here (some (chat, message)) action =
      int_eq chat action.chat_id
      && int_eq message action.message_id
      && not (int_eq action.message_id (pos 0))

  -- `handleDividendCallback` for the key of the action, the rest of `resolveDividendCallback` first
  unfoldable pub press : Query → Text → ℕ → S → Answer × S
  unfolding consume_dividend_action
  press query key now s = elim (found_or_none (pending.get key s)) [
    | err e ↦ (could_not_load, s)
    | ok found ↦ elim found [
      | none ↦ (used, s)
      | some action ↦
          let next = consume_dividend_action key now s in
          if int_eq query.from_id (pos 0) || not (int_eq query.from_id action.owner_user_id)
          then (not_owner, s)
          else if not (is_here query.message action)
          then (not_here, s)
          else if not (int_lt (pos now) action.expires_at)
          then reject key expired s
          else next
    ]
  ]

  -- `handleDividendCallback`
  unfoldable pub handle_dividend_callback : Option Query → ℕ → S → Answer × S
  unfolding press parse_dividend_callback pending_dividend_key
  handle_dividend_callback none now s = (silent, s)
  handle_dividend_callback (some query) now s = elim (parse_dividend_callback query.data_text) [
    | none ↦ (invalid, s)
    | some (owner_id, event_id) ↦ press query (pending_dividend_key owner_id event_id) now s
  ]
