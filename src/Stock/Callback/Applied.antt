-- ===== src/Stock/Callback/Applied.antt =====
-- What a press that was answered with "Dividend applied" leaves behind.
use miti99bot.Base.{
  ℕ, ◌≡◌, refl, sym, ap, ◌∙◌, ◌≢◌, ◌⊎◌, inl, inr, true, Option, none, some, [], arith, Bool-cases,
  Option-cases, Text, text_eq_refl, Dict, lookup, insert, lookup-insert, ℤ, pos, text_eq_refl,
}
use miti99bot.Storage.Contract.{DocStore, IsDocStore, IsFramed, found_or_none}
use miti99bot.Storage.Program.{Result-cases}
use miti99bot.Storage.Reads.{found_or_none-view}
use miti99bot.Stock.{Floats, DividendRecord, Portfolio}
use miti99bot.Stock.Pending.{PendingDividendAction, pending_dividend_key}
use miti99bot.Stock.Account.{
  dividend_record, set_dividend_record, portfolio_key, load_portfolio, save_portfolio,
}
use miti99bot.Stock.Callback.{
  Query, applied, apply_suggested_dividend, apply_and_save, check_position, consume,
  consume_dividend_action, press,
}

module _ {F : Type 0} where
  set_dividend_record_lem :
      (symbol event_id : Text) (r : DividendRecord) (p : Portfolio F)
      → dividend_record (set_dividend_record symbol event_id r p) symbol event_id ≡ some r
  unfolding dividend_record set_dividend_record
  set_dividend_record_lem symbol event_id r p =
      let events : Dict DividendRecord = elim (lookup symbol p.dividends) [
        | none ↦ []
        | some x ↦ elim x [ none ↦ [] | some es ↦ es ]
      ] in
      ground (
        arith,
        lookup-insert symbol symbol (some (insert event_id r events)) p.dividends,
        lookup-insert event_id event_id r events,
        text_eq_refl symbol,
        text_eq_refl event_id,
      )

pub other_key :
    (user owner : ℤ) (event_id : Text) → portfolio_key user ≢ pending_dividend_key owner event_id
unfolding portfolio_key pending_dividend_key
other_key user owner event_id e = ground (arith, e)

module _ {F S : Type 0} (fl : Floats F) (to_upper : Text → Text) (store : DocStore S (Portfolio F))
    (pending : DocStore S PendingDividendAction) (sv : S → Text → Option (Portfolio F))
    (sn : S → Text → ℕ) (pv : S → Text → Option PendingDividendAction) (pn : S → Text → ℕ)
    (store_laws : IsDocStore store sv sn) (pending_laws : IsDocStore pending pv pn)
    (store_frame : IsFramed store pv) (pending_frame : IsFramed pending sv) where
  -- The stored portfolio of the owner marks the event of an action as processed.
  abbrev pub IsProcessed : S → PendingDividendAction → Type 0
  IsProcessed s action =
      (p : Portfolio F) × (r : DividendRecord) × (sv s (portfolio_key action.owner_user_id)
        ≡ some p)
      × (dividend_record p action.symbol action.provider_event_id ≡ some r)
      × (r.processed ≡ true)

  save_portfolio_lem :
      (user : ℤ) (p : Portfolio F) (s : S)
      → (save_portfolio fl to_upper store user p s).0 ≡ true
      → sv (save_portfolio fl to_upper store user p s).1 (portfolio_key user) ≡ some p
  unfolding save_portfolio
  save_portfolio_lem user p s h = elim (Result-cases (store.put (portfolio_key user) p s).0) [
    | inl (u, e) ↦ ground (
      arith,
      h,
      e,
      store_laws.put_ok (portfolio_key user) (portfolio_key user) p s e,
      text_eq_refl (portfolio_key user),
    )
    | inr (x, e) ↦ absurd (ground (arith, h, e))
  ]

  delete_lem :
      (key : Text) (s : S)
      → (pv (pending.delete key s).1 key ≡ none) ⊎ (pv (pending.delete key s).1 key ≡ pv s key)
  delete_lem key s = elim (Result-cases (pending.delete key s).0) [
    | inl (u, e) ↦ inl (ground (arith, e, text_eq_refl key, pending_laws.delete_ok key key s e))
    | inr (x, e) ↦ inr (ap (λ t. pv t key) (pending_laws.delete_err key s x e))
  ]

  save_portfolio-other :
      (user owner : ℤ) (event_id : Text) (p : Portfolio F) (s : S)
      → pv (save_portfolio fl to_upper store user p s).1 (pending_dividend_key owner event_id)
        ≡ pv s (pending_dividend_key owner event_id)
  unfolding save_portfolio
  save_portfolio-other user owner event_id p s = ground (
    arith,
    store_frame.put_other (portfolio_key user) (pending_dividend_key owner event_id) p s
        (other_key user owner event_id),
  )

  -- What is left of the action under a key
  abbrev pub IsLeft : S → Text → PendingDividendAction → Type 0
  IsLeft s key action = (pv s key ≡ none) ⊎ (pv s key ≡ some action)

  apply_and_save_lem :
      (owner : ℤ) (event_id : Text) (action : PendingDividendAction) (r : DividendRecord) (held : ℤ)
      (now : ℕ) (p : Portfolio F) (s : S)
      → let key = pending_dividend_key owner event_id in
        pv s key ≡ some action
        → (apply_and_save fl to_upper store pending key action r held now p s).0 ≡ applied
        → let s' = (apply_and_save fl to_upper store pending key action r held now p s).1 in
          IsProcessed s' action × IsLeft s' key action
  unfolding apply_and_save
  apply_and_save_lem owner event_id action r held now p s stored h =
      elim (Option-cases
        (apply_suggested_dividend fl to_upper store pending action.symbol r held (pos now) p)) [
          | inl e ↦ absurd (ground (arith, h, e))
          | inr (p', e) ↦
              let key = pending_dividend_key owner event_id in
              let user = action.owner_user_id in
              let done : DividendRecord = record r { processed = true } in
              let marked = set_dividend_record action.symbol action.provider_event_id done p' in
              let saving = save_portfolio fl to_upper store user marked s in
              elim (Bool-cases saving.0) [
                | inr k ↦ absurd (ground (arith, h, e, k))
                | inl k ↦
                    let last : (apply_and_save fl to_upper store pending key action r held now p
                          s).1
                        ≡ (pending.delete key saving.1).1 =
                      ground (arith, e, k) in
                    let written = save_portfolio_lem user marked s k in
                    let kept =
                      pending_frame.delete_other key (portfolio_key user) saving.1
                        (λ x. other_key user owner event_id (sym x)) in
                    let action_kept = save_portfolio-other user owner event_id marked s in
                    (
                      (
                        marked,
                        done,
                        ap (λ t. sv t (portfolio_key user)) last ∙ kept ∙ written,
                        set_dividend_record_lem action.symbol action.provider_event_id done p',
                        refl,
                      ),
                      elim (delete_lem key saving.1) [
                        | inl gone ↦ inl (ap (λ t. pv t key) last ∙ gone)
                        | inr left ↦ inr (ap (λ t. pv t key) last ∙ left ∙ action_kept ∙ stored)
                      ],
                    )
              ]
        ]

  consume_lem :
      (owner : ℤ) (event_id : Text) (action : PendingDividendAction) (now : ℕ) (s : S)
      → let key = pending_dividend_key owner event_id in
        pv s key ≡ some action
        → (consume fl to_upper store pending key action now s).0 ≡ applied
        → let s' = (consume fl to_upper store pending key action now s).1 in
          IsProcessed s' action × IsLeft s' key action
  unfolding consume check_position
  consume_lem owner event_id action now s stored h =
      let key = pending_dividend_key owner event_id in
      elim (Option-cases (load_portfolio fl to_upper store action.owner_user_id (pos now) s)) [
        | inl e ↦ absurd (ground (arith, h, e))
        | inr (p, e) ↦
            elim (Option-cases (dividend_record p action.symbol action.provider_event_id)) [
              | inl f ↦ absurd (ground (arith, h, e, f))
              | inr (r, f) ↦ elim (Option-cases (lookup action.symbol p.assets)) [
                | inl g ↦ absurd (ground (arith, h, e, f, g))
                | inr (position, g) ↦
                    let next =
                      apply_and_save_lem owner event_id action r position.quantity now p s stored in
                    let same : consume fl to_upper store pending key action now s
                        ≡ apply_and_save fl to_upper store pending key action r position.quantity
                            now p s =
                      ground (arith, h, e, f, g) in
                    rw same (next (sym (ap (λ t. t.0) same) ∙ h))
              ]
            ]
      ]

  consume_dividend_action_lem :
      (owner : ℤ) (event_id : Text) (now : ℕ) (s : S)
      → let key = pending_dividend_key owner event_id in
        (consume_dividend_action fl to_upper store pending key now s).0 ≡ applied
        → let s' = (consume_dividend_action fl to_upper store pending key now s).1 in
          (action : PendingDividendAction) × IsProcessed s' action × IsLeft s' key action
  unfolding consume_dividend_action
  consume_dividend_action_lem owner event_id now s h =
      let key = pending_dividend_key owner event_id in
      elim (Result-cases (found_or_none (pending.get key s))) [
        | inr (x, e) ↦ absurd (ground (arith, h, e))
        | inl (found, e) ↦ elim (Option-cases found) [
          | inl f ↦ absurd (ground (arith, h, e, f))
          | inr (action, f) ↦
              let stored = found_or_none-view pending pv pn pending_laws key s found e ∙ f in
              let same : consume_dividend_action fl to_upper store pending key now s
                  ≡ consume fl to_upper store pending key action now s =
                ground (arith, e, f) in
              let (done, left) =
                consume_lem owner event_id action now s stored (sym (ap (λ t. t.0) same) ∙ h) in
              (action, rw same done, rw same left)
        ]
      ]

  pub press_lem :
      (query : Query) (owner : ℤ) (event_id : Text) (now : ℕ) (s : S)
      → let key = pending_dividend_key owner event_id in
        (press fl to_upper store pending query key now s).0 ≡ applied
        → let s' = (press fl to_upper store pending query key now s).1 in
          (action : PendingDividendAction) × IsProcessed s' action × IsLeft s' key action
  unfolding press
  press_lem query owner event_id now s h =
      let key = pending_dividend_key owner event_id in
      elim (Result-cases (found_or_none (pending.get key s))) [
        | inr (x, e) ↦ absurd (ground (arith, h, e))
        | inl (found, e) ↦ elim (Option-cases found) [
          | inl f ↦ absurd (ground (arith, h, e, f))
          | inr (action, f) ↦
              let same : press fl to_upper store pending query key now s
                  ≡ consume_dividend_action fl to_upper store pending key now s =
                ground (arith, h, e, f) in
              rw same
                (consume_dividend_action_lem owner event_id now s (sym (ap (λ t. t.0) same) ∙ h))
        ]
      ]
