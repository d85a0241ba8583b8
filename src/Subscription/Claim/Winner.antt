-- ===== src/Subscription/Claim/Winner.antt =====
-- At most one claimer of a day wins, however the steps of the claimers interleave.
use miti99bot.Base.{
  ℕ, ◌≤◌, ◌<◌, ◌≡◌, refl, ◌≢◌, ◌⊎◌, inl, inr, Option, some, arith, Text, text_eq_refl, text_eq_iff,
}
use miti99bot.Storage.Contract.{
  Failure, not_found, conflict, invalid_module_name, codec, backend, empty_word_list, index_panic,
  bad_key, Result, ok, err, DocStore, IsDocStore,
}
use miti99bot.Storage.Program.{Result-cases}
use miti99bot.Subscription.Claim.{
  Plan, lost, failed, write_at, plan_claim, claim_result, idle, done_without, reading, won, World,
  set_phase, after_read, after_write, Step, step_read, step_write, Reach, start, next,
}

module _ {S : Type 0} (store : DocStore S Text) (view : S → Text → Option Text)
    (version : S → Text → ℕ) (laws : IsDocStore store view version) (key day : Text) where
  -- A read that leads to a write saw the current version, and another day.
  plan_claim-eq-write_at :
      (s : S) (n : ℕ)
      → plan_claim day (store.get key s) ≡ write_at n
      → (version s key ≡ n) × (view s key ≢ some day)
  unfolding plan_claim
  plan_claim-eq-write_at s n h = go (store.get key s) refl h
    where
      go :
          (r : Result (Text × ℕ))
          → store.get key s ≡ r
          → plan_claim day r ≡ write_at n
          → (version s key ≡ n) × (view s key ≢ some day)
      go (ok (v, m)) e f =
          let seen = laws.get_ok key s v m e in
          ((ground arith), (λ same. ground (arith, seen, text_eq_iff v day)))
      go (err not_found) e f =
          let seen = laws.get_missing key s e in ((ground arith), (λ same. ground arith))
      go (err conflict) e f = ground arith
      go (err invalid_module_name) e f = ground arith
      go (err codec) e f = ground arith
      go (err backend) e f = ground arith
      go (err empty_word_list) e f = ground arith
      go (err index_panic) e f = ground arith
      go (err (bad_key x)) e f = ground arith

  Plan-cases :
      (p : Plan) → (p ≡ lost) ⊎ ((e : Failure) × (p ≡ failed e)) ⊎ ((n : ℕ) × (p ≡ write_at n))
  Plan-cases lost = inl refl
  Plan-cases (failed e) = inr (inl (e, refl))
  Plan-cases (write_at n) = inr (inr (n, refl))

  -- A write that fails ends without a win.
  after_write-err : (e : Failure) → after_write (claim_result (err e)) ≡ done_without
  unfolding claim_result
  after_write-err not_found = refl
  after_write-err conflict = refl
  after_write-err invalid_module_name = refl
  after_write-err codec = refl
  after_write-err backend = refl
  after_write-err empty_word_list = refl
  after_write-err index_panic = refl
  after_write-err (bad_key x) = refl

  -- Before a win nobody reads a later version than the current one; after it, the day is stored,
  -- one claimer has won, and every claimer that is about to write has read an older version.
  Before : World S → Type 0
  Before w =
      ((i : ℕ) → w.phases i ≢ won) × ((i n : ℕ) → w.phases i ≡ reading n → n ≤ version w.state key)

  After : World S → Type 0
  After w =
      (j : ℕ) × ((i : ℕ) → w.phases i ≡ won → i ≡ j)
      × (view w.state key ≡ some day)
      × ((i n : ℕ) → w.phases i ≡ reading n → n < version w.state key)

  Before-read :
      (w : World S) (i : ℕ)
      → Before w
      → Before (record w {
        phases = set_phase i (after_read (plan_claim day (store.get key w.state))) w.phases;
      })
  unfolding Before
  Before-read w i (none_won, older) = elim (Plan-cases (plan_claim day (store.get key w.state))) [
    | inl e ↦ ((λ j h. ground (arith, none_won j)), (λ j n h. ground (arith, older j n)))
    | inr (inl (x, e)) ↦ ((λ j h. ground (arith, none_won j)), (λ j n h. ground (arith, older j n)))
    | inr (inr (m, e)) ↦
        let seen = plan_claim-eq-write_at w.state m e in
        ((λ j h. ground (arith, none_won j)), (λ j n h. ground (arith, older j n, seen.0)))
  ]

  After-read :
      (w : World S) (i : ℕ)
      → After w
      → After (record w {
        phases = set_phase i (after_read (plan_claim day (store.get key w.state))) w.phases;
      })
  unfolding After
  After-read w i (k, unique, stored, older) =
      elim (Plan-cases (plan_claim day (store.get key w.state))) [
        | inl e ↦
            (k, (λ j h. ground (arith, unique j)), stored, (λ j n h. ground (arith, older j n)))
        | inr (inl (x, e)) ↦
            (k, (λ j h. ground (arith, unique j)), stored, (λ j n h. ground (arith, older j n)))
        | inr (inr (m, e)) ↦ absurd ((plan_claim-eq-write_at w.state m e).1 stored)
      ]

  -- A write at the version `n`: it lands, and `n` was current, or it leaves the state alone.
  write-cases :
      (s : S) (n : ℕ)
      → ((store.put_versioned key n day s).0 ≡ ok tt)
        ⊎ ((e : Failure) × ((store.put_versioned key n day s).0 ≡ err e)
            × ((store.put_versioned key n day s).1 ≡ s)
            × (after_write (claim_result (store.put_versioned key n day s).0) ≡ done_without))
  unfolding claim_result
  write-cases s n = elim (Result-cases (store.put_versioned key n day s).0) [
    | inl (tt, e) ↦ inl e
    | inr (x, e) ↦
        inr (x, e, laws.put_versioned_err key n day s x e, ground (arith, after_write-err x))
  ]

  Inv-write :
      (w : World S) (i n : ℕ)
      → w.phases i ≡ reading n
      → Before w ⊎ After w
      → let v : World S = record {
        state = (store.put_versioned key n day w.state).1;
        phases =
            set_phase i
              (after_write (claim_result (store.put_versioned key n day w.state).0))
              w.phases;
      } in
        Before v ⊎ After v
  unfolding Before After claim_result
  Inv-write w i n h inv = elim (write-cases w.state n) [
    | inl e ↦
        let wrote = laws.put_versioned_ok key key n day w.state e in
        let itself = text_eq_refl key in
        elim inv [
          | inl (none_won, older) ↦ inr (
            i,
            (λ j f. ground (arith, none_won j)),
            ground (arith, wrote, itself),
            (λ j m f. ground (arith, older j m, wrote, itself)),
          )
          | inr (k, unique, stored, older) ↦ absurd (ground (arith, older i n h, wrote))
        ]
    | inr (x, e, same, gone) ↦ elim inv [
      | inl (none_won, older) ↦ inl (
        (λ j f. ground (arith, none_won j, gone)),
        (λ j m f. ground (arith, older j m, same, gone)),
      )
      | inr (k, unique, stored, older) ↦ inr (
        k,
        (λ j f. ground (arith, unique j, gone)),
        ground (arith, same, stored),
        (λ j m f. ground (arith, older j m, same, gone)),
      )
    ]
  ]

  Inv-Step : (w u : World S) → Step store key day w u → Before w ⊎ After w → Before u ⊎ After u
  Inv-Step w u (step_read i h) inv = elim inv [
    | inl b ↦ inl (Before-read w i b)
    | inr a ↦ inr (After-read w i a)
  ]
  Inv-Step w u (step_write i n h) inv = Inv-write w i n h inv

  Inv-Reach : (v w : World S) → Before v → Reach store key day v w → Before w ⊎ After w
  Inv-Reach v w h start = inl h
  Inv-Reach v w h (next r st) = Inv-Step _ w st (Inv-Reach v _ h r)

  -- For a store with the contract of `DocStore`: if the claimers of `day` all start idle and take
  -- the steps of `ClaimDay`, its read and its versioned write, in any order, then at most one of
  -- them has won, and once one has the stored day is `day`.
  pub Reach-won :
      (v w : World S)
      → ((i : ℕ) → v.phases i ≡ idle)
      → Reach store key day v w
      → (i j : ℕ) → w.phases i ≡ won
      → w.phases j ≡ won
      → (i ≡ j) × (view w.state key ≡ some day)
  unfolding Before After
  Reach-won v w idle_all r i j hi hj =
      let at_start : Before v =
        ((λ k h. ground (arith, idle_all k)), (λ k n h. ground (arith, idle_all k))) in
      elim (Inv-Reach v w at_start r) [
        | inl (none_won, older) ↦ absurd (none_won i hi)
        | inr (k, unique, stored, older) ↦ (ground (arith, unique i hi, unique j hj), stored)
      ]
