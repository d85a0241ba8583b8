-- ===== src/Stock/Callback/Once.antt =====
-- A dividend is applied once.
use miti99bot.Base.{
  ℕ, ◌≡◌, sym, ap, ◌∙◌, inl, inr, true, Option, some, arith, Bool-cases, Option-cases, Text, ℤ, pos,
}
use miti99bot.Storage.Contract.{DocStore, IsDocStore, IsFramed, found_or_none}
use miti99bot.Storage.Program.{Result-cases}
use miti99bot.Storage.Reads.{found_or_none-view}
use miti99bot.Stock.{Floats, DividendRecord, Portfolio}
use miti99bot.Stock.Pending.{PendingDividendAction, pending_dividend_key, parse_dividend_callback}
use miti99bot.Stock.Account.{
  dividend_record, with_created_at, is_valid, portfolio_key, load_portfolio,
}
use miti99bot.Stock.Callback.Applied.{other_key, IsProcessed, IsLeft, press_lem}
use miti99bot.Stock.Callback.{
  Query, Answer, silent, applied, reject, consume, consume_dividend_action, press,
  handle_dividend_callback,
}

module _ {F S : Type 0} (fl : Floats F) (to_upper : Text → Text) (store : DocStore S (Portfolio F))
    (pending : DocStore S PendingDividendAction) (sv : S → Text → Option (Portfolio F))
    (sn : S → Text → ℕ) (pv : S → Text → Option PendingDividendAction) (pn : S → Text → ℕ)
    (store_laws : IsDocStore store sv sn) (pending_laws : IsDocStore pending pv pn)
    (store_frame : IsFramed store pv) (pending_frame : IsFramed pending sv) where
  abbrev Processed : S → PendingDividendAction → Type 0
  Processed =
      IsProcessed fl to_upper store pending sv sn pv pn store_laws pending_laws store_frame
        pending_frame

  abbrev Left : S → Text → PendingDividendAction → Type 0
  Left =
      IsLeft fl to_upper store pending sv sn pv pn store_laws pending_laws store_frame pending_frame

  -- A portfolio that a state keeps
  abbrev IsKept : S → S → Type 0
  IsKept s s' = (user : ℤ) → sv s' (portfolio_key user) ≡ sv s (portfolio_key user)

  reject-IsKept :
      (owner : ℤ) (event_id : Text) (answer : Answer) (s : S)
      → IsKept s (reject fl to_upper store pending (pending_dividend_key owner event_id) answer s).1
  reject-IsKept owner event_id answer s user =
      pending_frame.delete_other (pending_dividend_key owner event_id) (portfolio_key user) s
        (λ x. other_key user owner event_id (sym x))

  processed-load :
      (action : PendingDividendAction) (now : ℕ) (s : S) (p : Portfolio F)
      → Processed s action
      → load_portfolio fl to_upper store action.owner_user_id (pos now) s ≡ some p
      → (r : DividendRecord) × (dividend_record p action.symbol action.provider_event_id ≡ some r)
        × (r.processed ≡ true)
  unfolding load_portfolio dividend_record
  processed-load action now s p (q, r, stored, found, done) h =
      let key = portfolio_key action.owner_user_id in
      elim (Result-cases (found_or_none (store.get key s))) [
        | inr (x, e) ↦ absurd (ground (arith, h, e))
        | inl (o, e) ↦
            let present : o ≡ some q =
              sym (found_or_none-view store sv sn store_laws key s o e) ∙ stored in
            elim (Bool-cases (is_valid fl to_upper (with_created_at fl to_upper (pos now) q))) [
              | inr odd ↦ absurd (ground (arith, h, e, present, odd))
              | inl fine ↦
                  let same : p ≡ with_created_at fl to_upper (pos now) q =
                    ground (arith, h, e, present, fine) in
                  (r, rw same found_there, done)
            ]
      ]
    where
      found_there :
          dividend_record
            (with_created_at fl to_upper (pos now) q)
            action.symbol
            action.provider_event_id
          ≡ some r
      found_there = found

  consume-IsKept :
      (owner : ℤ) (event_id : Text) (action : PendingDividendAction) (now : ℕ) (s : S)
      → Processed s action
      → IsKept s
          (consume fl to_upper store pending (pending_dividend_key owner event_id) action now s).1
  unfolding consume
  consume-IsKept owner event_id action now s done user =
      elim (Option-cases (load_portfolio fl to_upper store action.owner_user_id (pos now) s)) [
        | inl e ↦ ground (arith, e)
        | inr (p, e) ↦
            let (r, found, processed) = processed-load action now s p done e in
            ground (arith, e, found, processed, reject-IsKept owner event_id silent s user)
      ]

  consume_dividend_action-IsKept :
      (owner : ℤ) (event_id : Text) (action : PendingDividendAction) (now : ℕ) (s : S)
      → Processed s action
      → Left s (pending_dividend_key owner event_id) action
      → IsKept s
          (consume_dividend_action fl to_upper store pending
            (pending_dividend_key owner event_id)
            now
            s).1
  unfolding consume_dividend_action
  consume_dividend_action-IsKept owner event_id action now s done left user =
      let key = pending_dividend_key owner event_id in
      elim (Result-cases (found_or_none (pending.get key s))) [
        | inr (x, e) ↦ ground (arith, e)
        | inl (o, e) ↦
            let view = found_or_none-view pending pv pn pending_laws key s o e in
            elim left [
              | inl gone ↦ ground (arith, e, view, gone)
              | inr held ↦
                  ground
                    (arith, e, view, held, consume-IsKept owner event_id action now s done user)
            ]
      ]

  press-IsKept :
      (query : Query) (owner : ℤ) (event_id : Text) (action : PendingDividendAction) (now : ℕ)
      (s : S)
      → Processed s action
      → Left s (pending_dividend_key owner event_id) action
      → IsKept s
          (press fl to_upper store pending query (pending_dividend_key owner event_id) now s).1
  unfolding press
  press-IsKept query owner event_id action now s done left user =
      let key = pending_dividend_key owner event_id in
      elim (Result-cases (found_or_none (pending.get key s))) [
        | inr (x, e) ↦ ground (arith, e)
        | inl (o, e) ↦ elim (Option-cases o) [
          | inl f ↦ ground (arith, e, f)
          | inr (a, f) ↦ ground (
            arith,
            e,
            f,
            reject-IsKept owner event_id silent s user,
            consume_dividend_action-IsKept owner event_id action now s done left user,
          )
        ]
      ]

  -- For stores of portfolios and of pending actions that keep the contract of `DocStore` and
  -- leave each other's keys alone: after a press of a dividend's button was answered with
  -- "Dividend applied", another press with the same data, by anyone and at any time, leaves the
  -- portfolio of every user as it is, also when the pending action could not be deleted.
  pub handle_dividend_callback_once :
      (query again : Query) (now later : ℕ) (s : S) (user : ℤ)
      → again.data_text ≡ query.data_text
      → (handle_dividend_callback fl to_upper store pending (some query) now s).0 ≡ applied
      → let s' = (handle_dividend_callback fl to_upper store pending (some query) now s).1 in
        sv
          (handle_dividend_callback fl to_upper store pending (some again) later s').1
          (portfolio_key user)
        ≡ sv s' (portfolio_key user)
  unfolding handle_dividend_callback
  handle_dividend_callback_once query again now later s user same h =
      elim (Option-cases (parse_dividend_callback query.data_text)) [
        | inl e ↦ absurd (ground (arith, h, e))
        | inr ((owner, event_id), e) ↦
            let key = pending_dividend_key owner event_id in
            let first : handle_dividend_callback fl to_upper store pending (some query) now s
                ≡ press fl to_upper store pending query key now s =
              ground (arith, e) in
            let (action, done, left) =
              press_lem fl to_upper store pending sv sn pv pn store_laws pending_laws store_frame
                pending_frame query owner event_id now s (sym (ap (λ t. t.0) first) ∙ h) in
            ground (
              arith,
              same,
              e,
              press-IsKept again owner event_id action later
                  (press fl to_upper store pending query key now s).1 done left user,
            )
      ]
