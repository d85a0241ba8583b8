-- ===== src/Subscription/Claim.antt =====
-- The once-per-day claim of a push (`ClaimDay` in internal/modules/util/subscription/push.go).
pub mod Winner
use miti99bot.Base.{ℕ, ◌≡◌, Bool, true, false, ◌==◌, if◌then◌else◌, Text, text_eq}
use miti99bot.Storage.Contract.{Failure, not_found, conflict, Result, ok, err, DocStore}

-- `DayDoc` is the text of the day. The first half of `ClaimDay`: what the read decides.
pub data Plan : Type 0 where
  lost : Plan
  failed : Failure → Plan
  write_at : ℕ → Plan

unfoldable pub plan_claim : Text → Result (Text × ℕ) → Plan
plan_claim day (ok (current, version)) = if text_eq current day then lost else write_at version
plan_claim day (err not_found) = write_at 0
plan_claim day (err e) = failed e

-- The second half: what the versioned write reports.
unfoldable pub claim_result : Result (Unit {0}) → Result Bool
claim_result (ok _) = ok true
claim_result (err conflict) = ok false
claim_result (err e) = err e

module _ {S : Type 0} (store : DocStore S Text) where
  unfoldable pub claim_day : Text → Text → S → Result Bool × S
  unfolding plan_claim claim_result
  claim_day key day s = elim (plan_claim day (store.get key s)) [
    | lost ↦ (ok false, s)
    | failed e ↦ (err e, s)
    | write_at version ↦ let (r, s') = store.put_versioned key version day s in (claim_result r, s')
  ]

-- Claimers of one day that run at once: each first reads, and later writes; other claimers run in
-- between. No one else writes the key of the day, and writes of other keys, which leave it alone,
-- are no steps here.
pub data Phase : Type 0 where
  idle done_without : Phase
  reading : ℕ → Phase
  won : Phase

pub record World (S : Type 0) : Type 0 where
  pub state : S
  pub phases : ℕ → Phase

abbrev pub set_phase : ℕ → Phase → (ℕ → Phase) → ℕ → Phase
set_phase i p phases j = if i == j then p else phases j

abbrev pub after_read : Plan → Phase
after_read lost = done_without
after_read (failed e) = done_without
after_read (write_at n) = reading n

abbrev pub after_write : Result Bool → Phase
after_write (ok true) = won
after_write (ok false) = done_without
after_write (err e) = done_without

module _ {S : Type 0} (store : DocStore S Text) (key day : Text) where
  -- One step of one claimer, by number.
  pub data Step (w : World S) : World S → Type 0 where
    step_read :
        (i : ℕ)
        → w.phases i ≡ idle
        → Step w (record w {
          phases = set_phase i (after_read (plan_claim day (store.get key w.state))) w.phases;
        })
    step_write :
        (i n : ℕ)
        → w.phases i ≡ reading n
        → Step w (record {
          state = (store.put_versioned key n day w.state).1;
          phases =
              set_phase i
                (after_write (claim_result (store.put_versioned key n day w.state).0))
                w.phases;
        })

  pub data Reach (v : World S) : World S → Type 0 where
    start : Reach v v
    next : {w u : World S} → Reach v w → Step w u → Reach v u
