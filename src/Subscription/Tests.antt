-- ===== src/Subscription/Tests.antt =====
-- Runs of the list and of a push over a concrete store, and the theorems at concrete inputs.
use miti99bot.Base.{
  ℕ, ◌+◌, ◌≡◌, refl, Bool, true, false, not, Option, some, List, [], ◌∷◌, arith, length, Text,
  codes, text_eq, lookup, insert, ℤ, pos,
}
use miti99bot.Storage.Contract.{DocStore, IsDocStore}
use miti99bot.Storage.Table.{Table, table_store, table_view, table_version, table_store-IsDocStore}
use miti99bot.Subscription.{Subscriber, Subscribers, key, is_at, has_pair, subscribers, add}
use miti99bot.Subscription.Members.{
  members_of, count, IsUnique, IsUniqueAt, add-IsUniqueAt, add_lem,
}
use miti99bot.Subscription.Push.{fanout}
use miti99bot.Subscription.Push.Counts.{fanout-pruned, fanout-small}
use miti99bot.Subscription.Claim.{
  plan_claim, claim_result, Phase, idle, done_without, reading, won, World, set_phase, step_read,
  step_write, Reach, start, next,
}
use miti99bot.Subscription.Claim.Winner.{Reach-won}

abbrev members : DocStore (Table Subscribers) Subscribers
members = table_store (λ s. s) (λ t s. t)

abbrev members_view : Table Subscribers → Text → Option Subscribers
members_view = table_view (λ s. s) (λ t s. t)

abbrev members_version : Table Subscribers → Text → ℕ
members_version = table_version (λ s. s) (λ t s. t)

members_laws : IsDocStore members members_view members_version
members_laws = table_store-IsDocStore (λ s. s) (λ t s. t) (λ t s. refl)

abbrev nobody : Table Subscribers
nobody = []

abbrev alice : Subscriber
alice = record { chat_id = pos 5; thread_id = pos 0 }

abbrev one_member : Table Subscribers
one_member = (key, (alice ∷ [], 1)) ∷ []

nobody-IsUniqueAt : IsUniqueAt members_view nobody
unfolding IsUniqueAt IsUnique count members_of lookup
nobody-IsUniqueAt c t = omega arith

one_member-IsUniqueAt : IsUniqueAt members_view one_member
unfolding IsUniqueAt IsUnique count members_of lookup text_eq
one_member-IsUniqueAt c t = ground arith

add-IsUniqueAt_example : IsUniqueAt members_view (add members (pos 5) (pos 0) nobody).1
add-IsUniqueAt_example =
    add-IsUniqueAt members members_view members_version members_laws (pos 5) (pos 0) nobody
      nobody-IsUniqueAt

add_example :
    (has_pair (pos 5) (pos 0) (members_of (members_view nobody key)) ≡ not true)
    × (has_pair
          (pos 5)
          (pos 0)
          (members_of (members_view (add members (pos 5) (pos 0) nobody).1 key))
        ≡ true)
unfolding add subscribers has_pair is_at lookup insert text_eq
add_example =
    add_lem members members_view members_version members_laws (pos 5) (pos 0) nobody true refl

-- Everyone has blocked the bot.
abbrev blocked : ℕ → Subscriber → Option Text
blocked i s = some (codes "Forbidden: bot was blocked by the user")

abbrev never : ℕ → Bool
never i = false

abbrev in_order : List ℤ → List ℤ
in_order cs = cs

fanout-pruned_example :
    IsUniqueAt members_view (fanout members blocked never in_order (alice ∷ []) one_member).1
    × (length (
            members_of
              (members_view (fanout members blocked never in_order (alice ∷ []) one_member).1 key))
          + (fanout members blocked never in_order (alice ∷ []) one_member).0.1.pruned
        ≡ length (members_of (members_view one_member key)))
fanout-pruned_example =
    fanout-pruned members members_view members_version members_laws blocked never in_order
      (alice ∷ []) one_member one_member-IsUniqueAt

fanout-small_example :
    ((fanout members blocked never in_order (alice ∷ []) one_member).0.0 ≡ true)
    × ((fanout members blocked never in_order (alice ∷ []) one_member).0.1.sent
          + (fanout members blocked never in_order (alice ∷ []) one_member).0.1.failed
        ≡ 1)
fanout-small_example =
    fanout-small members blocked never in_order (alice ∷ []) one_member (omega arith)

abbrev days : DocStore (Table Text) Text
days = table_store (λ s. s) (λ t s. t)

abbrev days_view : Table Text → Text → Option Text
days_view = table_view (λ s. s) (λ t s. t)

abbrev days_version : Table Text → Text → ℕ
days_version = table_version (λ s. s) (λ t s. t)

days_laws : IsDocStore days days_view days_version
days_laws = table_store-IsDocStore (λ s. s) (λ t s. t) (λ t s. refl)

abbrev today : Text
today = codes "2026-01-02"

abbrev last_push : Text
last_push = codes "last"

abbrev all_idle : ℕ → Phase
all_idle i = idle

abbrev before : World (Table Text)
before = record { state = []; phases = all_idle }

-- Two claimers read before one of them writes; the second write is refused.
abbrev after_reads : World (Table Text)
after_reads = record {
  state = [];
  phases = set_phase 1 (reading 0) (set_phase 0 (reading 0) all_idle);
}

abbrev after_writes : World (Table Text)
after_writes = record {
  state = (last_push, (today, 1)) ∷ [];
  phases = set_phase 0 done_without (set_phase 1 won after_reads.phases);
}

two_claimers : Reach days last_push today before after_writes
unfolding plan_claim claim_result lookup insert text_eq
two_claimers =
    next (next (next (next start (step_read 0 refl)) (step_read 1 refl)) (step_write 1 0 refl))
      (step_write 0 0 refl)

abbrev second : ℕ
second = 1

Reach-won_example : (second ≡ second) × (days_view after_writes.state last_push ≡ some today)
Reach-won_example =
    Reach-won days days_view days_version days_laws last_push today before after_writes (λ i. refl)
      two_claimers second second refl refl
