-- ===== src/Coin/Account/Updates.antt =====
-- Optimistic writes: what `UpdatePortfolio` leaves behind while others write to the store between
-- its reads and its writes.
use miti99bot.Base.{
  ℕ, zero, suc, ◌≡◌, refl, sym, ap, ◌∙◌, ◌⊎◌, inl, inr, true, Option, some, arith, if◌then◌else◌,
  Bool-cases, Option-cases, Text, text_eq, ℤ,
}
use mathlib.Core.Path.{subst}
use miti99bot.Storage.Contract.{DocStore, IsDocStore}
use miti99bot.Storage.Program.{Result-cases}
use miti99bot.Stock.{Floats}
use miti99bot.Coin.{Portfolio}
use miti99bot.Coin.Account.{
  Update, is_conflict, updated, rejected, cannot_load, invalid, cannot_save, portfolio_key,
  portfolio_update_attempts, normalize, is_valid, loaded, load_for_update, attempt_from,
  update_portfolio,
}

pub Sum-cases : {A B : Type 0} (x : A ⊎ B) → ((a : A) × (x ≡ inl a)) ⊎ ((b : B) × (x ≡ inr b))
Sum-cases (inl a) = inl (a, refl)
Sum-cases (inr b) = inr (b, refl)

module _ {S : Type 0} (others : ℕ → S → S) where
  -- A state that other writers make of one.
  pub data Interfered (s : S) : S → Type 0 where
    untouched : Interfered s s
    interfered : {t : S} (n : ℕ) → Interfered s t → Interfered s (others n t)

module _ {F S E : Type 0} (fl : Floats F) (abs : F → F) (dust : F) (to_upper : Text → Text)
    (store : DocStore S (Portfolio F)) (view : S → Text → Option (Portfolio F))
    (version : S → Text → ℕ) (laws : IsDocStore store view version)
    (mutate : Portfolio F → E ⊎ Portfolio F) (others : ℕ → S → S) where
  -- The outcome of an update that began in the state s. If it wrote q, then q is the change of
  -- what the key held at the moment of the write, it is valid, and only the key has changed. If
  -- not, it wrote nothing.
  abbrev pub IsOutcome : Text → ℤ → S → Update F E × S → Type 0
  IsOutcome key now s (updated q, s') =
      (t : S) × (p p' : Portfolio F) × Interfered others s t
      × (loaded fl abs dust to_upper now (view t key) ≡ some p)
      × (mutate p ≡ inr p')
      × (q ≡ normalize fl abs dust to_upper p')
      × (is_valid fl abs dust to_upper q ≡ true)
      × ((j : Text) → view s' j ≡ (if text_eq key j then some q else view t j))
  IsOutcome key now s (u, s') = Interfered others s s'

  load_for_update_lem :
      (key : Text) (now : ℤ) (s : S) (p : Portfolio F) (n : ℕ)
      → load_for_update fl abs dust to_upper store key now s ≡ some (p, n)
      → (loaded fl abs dust to_upper now (view s key) ≡ some p) × (version s key ≡ n)
  unfolding load_for_update
  load_for_update_lem key now s p n h = elim (Result-cases (store.get key s)) [
    | inl ((q, m), e) ↦ ground (arith, h, e, laws.get_ok key s q m e)
    | inr (x, e) ↦ ground (arith, h, e, laws.get_missing key s)
  ]

  module _ (key : Text) (now : ℤ) where
    abbrev run : ℕ → S → Update F E × S
    run left t = attempt_from fl abs dust to_upper store mutate others left key now t

    -- The write of an attempt, after its change was found to be valid.
    attempt_from-write :
        (left n : ℕ) (s t : S) (p p' : Portfolio F)
        → IsOutcome key now s (run left (others left t))
        → Interfered others s t
        → load_for_update fl abs dust to_upper store key now t ≡ some (p, n)
        → mutate p ≡ inr p'
        → is_valid fl abs dust to_upper (normalize fl abs dust to_upper p') ≡ true
        → (version (others left t) key ≡ version t key → view (others left t) key ≡ view t key)
        → IsOutcome key now s (run (suc left) t)
    unfolding attempt_from
    attempt_from-write left n s t p p' ih i e f v honest =
        let u = others left t in
        let q = normalize fl abs dust to_upper p' in
        let w = store.put_versioned key n q u in
        elim (Result-cases w.0) [
          | inl (x, g) ↦
              let (held, same) = load_for_update_lem key now t p n e in
              let equal = honest ((laws.put_versioned_ok key key n q u g).0 ∙ sym same) in
              let run_eq : run (suc left) t ≡ (updated q, w.1) = ground (arith, e, f, v, g) in
              subst (IsOutcome key now s) (sym run_eq) (
                u,
                p,
                p',
                interfered left i,
                ap (loaded fl abs dust to_upper now) equal ∙ held,
                f,
                refl,
                v,
                λ j. (laws.put_versioned_ok key j n q u g).1,
              )
          | inr (x, g) ↦
              let back = laws.put_versioned_err key n q u x g in
              let again : IsOutcome key now s (run left w.1) =
                subst (λ y. IsOutcome key now s (run left y)) (sym back) ih in
              elim (Bool-cases (is_conflict x)) [
                | inl c ↦
                    let run_eq : run (suc left) t ≡ run left w.1 = ground (arith, e, f, v, g, c) in
                    subst (IsOutcome key now s) (sym run_eq) again
                | inr c ↦
                    let run_eq : run (suc left) t ≡ (cannot_save, w.1) =
                      ground (arith, e, f, v, g, c) in
                    subst (IsOutcome key now s) (sym run_eq)
                      (subst (Interfered others s) (sym back) (interfered left i))
              ]
        ]

    attempt_from_lem :
        (left : ℕ) (s t : S)
        → ((n : ℕ) (u : S)
            → version (others n u) key ≡ version u key
            → view (others n u) key ≡ view u key)
        → Interfered others s t
        → IsOutcome key now s (run left t)
    unfolding attempt_from
    attempt_from_lem zero s t honest i = i
    attempt_from_lem (suc left) s t honest i =
        elim (Option-cases (load_for_update fl abs dust to_upper store key now t)) [
          | inl e ↦
              let run_eq : run (suc left) t ≡ (cannot_load, t) = ground (arith, e) in
              subst (IsOutcome key now s) (sym run_eq) i
          | inr ((p, n), e) ↦ elim (Sum-cases (mutate p)) [
            | inl (x, f) ↦
                let run_eq : run (suc left) t ≡ (rejected x, t) = ground (arith, e, f) in
                subst (IsOutcome key now s) (sym run_eq) i
            | inr (p', f) ↦
                elim (Bool-cases
                  (is_valid fl abs dust to_upper (normalize fl abs dust to_upper p'))) [
                    | inr v ↦
                        let run_eq : run (suc left) t ≡ (invalid, t) = ground (arith, e, f, v) in
                        subst (IsOutcome key now s) (sym run_eq) i
                    | inl v ↦
                        attempt_from-write left n s t p p'
                          (attempt_from_lem left s (others left t) honest (interfered left i)) i e f
                          v (honest left t)
                  ]
          ]
        ]

  -- For a store that keeps the contract of `DocStore`, whatever other writers do to it before
  -- each write of an attempt as long as they use no version of the account's key for two values:
  -- if `UpdatePortfolio` returns a portfolio, this is the normalized and valid change of what the
  -- key held in the state t in which it was written, t being what the other writers alone had
  -- made of the first state, and only the key differs from t; if it returns an error, it has
  -- written nothing itself.
  pub update_portfolio_lem :
      (user_id now : ℤ) (s : S)
      → ((n : ℕ) (u : S)
          → version (others n u) (portfolio_key user_id) ≡ version u (portfolio_key user_id)
          → view (others n u) (portfolio_key user_id) ≡ view u (portfolio_key user_id))
      → IsOutcome
          (portfolio_key user_id)
          now
          s
          (update_portfolio fl abs dust to_upper store mutate others user_id now s)
  unfolding update_portfolio
  update_portfolio_lem user_id now s honest =
      attempt_from_lem (portfolio_key user_id) now portfolio_update_attempts s s honest untouched
