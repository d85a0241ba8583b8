-- ===== src/Subscription/Members.antt =====
-- What the calls of the opt-in list do to it.
use miti99bot.Base.{
  ℕ, suc, ◌+◌, ◌-◌, ◌≤◌, ◌≡◌, refl, ◌⊎◌, inl, inr, Bool, true, false, not, Option, none, some, [],
  ◌∷◌, ◌++◌, arith, ltb, ◌==◌, if◌then◌else◌, Bool-cases, &&-true, length, keep, Text, text_eq_refl,
  ℤ, int_eq, int_eq_iff,
}
use miti99bot.Storage.Contract.{Failure, Result, ok, err, DocStore, IsDocStore, found_or_none}
use miti99bot.Storage.Program.{Result-cases}
use miti99bot.Storage.Reads.{found_or_none-view}
use miti99bot.Subscription.{
  or_nobody, Subscriber, Subscribers, key, is_at, has_pair, subscribers, add, remove_where,
}

-- The list that a state holds; none is the empty list.
unfoldable pub members_of : Option Subscribers → Subscribers
members_of none = []
members_of (some subs) = subs

-- How often the test holds in the list
unfoldable pub count : (Subscriber → Bool) → Subscribers → ℕ
count p [] = 0
count p (s ∷ ss) = let rest = count p ss in if p s then suc rest else rest

count-append :
    (p : Subscriber → Bool) (xs ys : Subscribers) → count p (xs ++ ys) ≡ count p xs + count p ys
unfolding count
count-append p [] ys = omega arith
count-append p (x ∷ xs) ys = ground (arith, count-append p xs ys)

has_pair-count : (c t : ℤ) (ss : Subscribers) → has_pair c t ss ≡ ltb 0 (count (is_at c t) ss)
unfolding count has_pair
has_pair-count c t [] = ground arith
has_pair-count c t (s ∷ ss) = ground (arith, has_pair-count c t ss)

pub length-keep-not :
    (p : Subscriber → Bool) (ss : Subscribers)
    → length (keep (λ s. not (p s)) ss) + count p ss ≡ length ss
unfolding count
length-keep-not p [] = omega arith
length-keep-not p (s ∷ ss) = ground (arith, length-keep-not p ss)

keep-not-none :
    (p : Subscriber → Bool) (ss : Subscribers) → count p ss ≡ 0 → keep (λ s. not (p s)) ss ≡ ss
unfolding count
keep-not-none p [] h = refl
keep-not-none p (s ∷ ss) h = ground (arith, keep-not-none p ss)

pub count-keep-not :
    (p q : Subscriber → Bool) (ss : Subscribers) → count q (keep (λ s. not (p s)) ss) ≤ count q ss
unfolding count
count-keep-not p q [] = omega arith
count-keep-not p q (s ∷ ss) = ground (arith, count-keep-not p q ss)

-- No pair of a chat and a thread is listed twice.
unfoldable pub IsUnique : Subscribers → Type 0
IsUnique ss = (c t : ℤ) → count (is_at c t) ss ≤ 1

-- The list that a state holds has no pair of a chat and a thread twice.
unfoldable pub IsUniqueAt : {S : Type 0} → (S → Text → Option Subscribers) → S → Type 0
IsUniqueAt view s = IsUnique (members_of (view s key))

-- A new member at the end: it counts for its own pair only.
count-is_at_new :
    (c t c' t' : ℤ) → count (is_at c' t') (record { chat_id = c; thread_id = t } ∷ []) ≤ 1
unfolding count
count-is_at_new c t c' t' = ground arith

is_at-same :
    (c t c' t' : ℤ)
    → is_at c' t' (record { chat_id = c; thread_id = t }) ≡ true
    → (c ≡ c') × (t ≡ t')
unfolding is_at
is_at-same c t c' t' h =
    let both : (int_eq c c' ≡ true) × (int_eq t t' ≡ true) =
      &&-true (int_eq c c') (int_eq t t') h in
    ((int_eq_iff c c').0 both.0, (int_eq_iff t t').0 both.1)

IsUnique-add :
    (c t : ℤ) (ss : Subscribers)
    → has_pair c t ss ≡ false
    → IsUnique ss
    → IsUnique (ss ++ record { chat_id = c; thread_id = t } ∷ [])
unfolding IsUnique count
IsUnique-add c t ss h u c' t' =
    let new : Subscriber = record { chat_id = c; thread_id = t } in
    let all = count-append (is_at c' t') ss (new ∷ []) in
    let own = has_pair-count c t ss in
    elim (Bool-cases (is_at c' t' new)) [
      | inr e ↦ ground (arith, all, u c' t', e)
      | inl e ↦
          let (ec, et) = is_at-same c t c' t' e in
          let zero_before : count (is_at c' t') ss ≡ 0 = ground (arith, own, h, ec, et) in
          ground (arith, all, zero_before, e)
    ]

has_pair-append :
    (c t : ℤ) (ss : Subscribers)
    → has_pair c t (ss ++ record { chat_id = c; thread_id = t } ∷ []) ≡ true
unfolding has_pair is_at
has_pair-append c t [] = ground (arith, int_eq_iff c c, int_eq_iff t t)
has_pair-append c t (s ∷ ss) = ground (arith, has_pair-append c t ss)

module _ {S : Type 0} (store : DocStore S Subscribers) (view : S → Text → Option Subscribers)
    (version : S → Text → ℕ) (laws : IsDocStore store view version) where
  abbrev held : S → Subscribers
  held s = members_of (view s key)

  -- What the read of the list gives.
  subscribers-ok : (s : S) (subs : Subscribers) → (subscribers store s).0 ≡ ok subs → held s ≡ subs
  unfolding subscribers members_of
  subscribers-ok s subs h = go (found_or_none (store.get key s)) refl h
    where
      go :
          (r : Result (Option Subscribers))
          → found_or_none (store.get key s) ≡ r
          → or_nobody r ≡ ok subs
          → held s ≡ subs
      go (ok none) e f = ground (arith, found_or_none-view store view version laws key s none e)
      go (ok (some v)) e f =
          ground (arith, found_or_none-view store view version laws key s (some v) e)
      go (err x) e f = ground arith

  -- The three ways a run of `add` ends.
  pub add-cases :
      (c t : ℤ) (s : S)
      → ((add store c t s).0 ≡ ok false)
          × (has_pair c t (held s) ≡ true)
          × ((add store c t s).1 ≡ s)
        ⊎ (((add store c t s).0 ≡ ok true)
            × (has_pair c t (held s) ≡ false)
            × (held (add store c t s).1 ≡ held s ++ record { chat_id = c; thread_id = t } ∷ []))
        ⊎ ((e : Failure) × ((add store c t s).0 ≡ err e) × ((add store c t s).1 ≡ s))
  unfolding add subscribers members_of
  add-cases c t s = elim (Result-cases (or_nobody (found_or_none (store.get key s)))) [
    | inr (x, e) ↦ inr (inr (x, ground (arith, e), ground (arith, e)))
    | inl (subs, e) ↦
        let is_held : held s ≡ subs = subscribers-ok s subs e in
        let extended : Subscribers = subs ++ record { chat_id = c; thread_id = t } ∷ [] in
        elim (Bool-cases (has_pair c t subs)) [
          | inl listed ↦ inl (
            ground (arith, e, listed),
            ground (arith, is_held, listed),
            ground (arith, e, listed),
          )
          | inr missing ↦ elim (Result-cases (store.put key extended s).0) [
            | inl (u, w) ↦
                let stored = laws.put_ok key key extended s w in
                let itself = text_eq_refl key in
                inr (
                  inl (
                    ground (arith, e, missing, w),
                    ground (arith, is_held, missing),
                    ground (arith, e, missing, w, stored, itself, is_held),
                  ))
            | inr (x, w) ↦ inr (
                inr (
                  x,
                  ground (arith, e, missing, w),
                  ground (arith, e, missing, w, laws.put_err key extended s x w),
                ))
          ]
        ]
  ]

  -- The two ways a run of `remove_where` ends.
  pub remove_where-cases :
      (p : Subscriber → Bool) (s : S)
      → (((remove_where store p s).0 ≡ ok (count p (held s)))
          × (held (remove_where store p s).1 ≡ keep (λ m. not (p m)) (held s)))
        ⊎ ((e : Failure) × ((remove_where store p s).0 ≡ err e) × ((remove_where store p s).1 ≡ s))
  unfolding remove_where subscribers members_of
  remove_where-cases p s = elim (Result-cases (or_nobody (found_or_none (store.get key s)))) [
    | inr (x, e) ↦ inr (x, ground (arith, e), ground (arith, e))
    | inl (subs, e) ↦
        let is_held : held s ≡ subs = subscribers-ok s subs e in
        let out : Subscribers = keep (λ m. not (p m)) subs in
        let measured : length out + count p subs ≡ length subs = length-keep-not p subs in
        elim (Bool-cases ((length subs - length out) == 0)) [
          | inl unchanged ↦
              let nobody : count p subs ≡ 0 = ground (arith, measured, unchanged) in
              let all : out ≡ subs = keep-not-none p subs nobody in
              inl (
                ground (arith, e, unchanged, nobody, is_held),
                ground (arith, e, unchanged, all, is_held),
              )
          | inr changed ↦ elim (Result-cases (store.put key out s).0) [
            | inl (u, w) ↦
                let stored = laws.put_ok key key out s w in
                let itself = text_eq_refl key in
                inl (
                  ground (arith, e, changed, w, measured, is_held),
                  ground (arith, e, changed, w, stored, itself, is_held),
                )
            | inr (x, w) ↦ inr (
              x,
              ground (arith, e, changed, w),
              ground (arith, e, changed, w, laws.put_err key out s x w),
            )
          ]
        ]
  ]

module _ {S : Type 0} (store : DocStore S Subscribers) (view : S → Text → Option Subscribers)
    (version : S → Text → ℕ) (laws : IsDocStore store view version) where
  -- For a store with the contract of `DocStore`: if the list holds no pair of a chat and a thread
  -- twice, then it holds none twice after `Add`, whether or not the run fails.
  pub add-IsUniqueAt : (c t : ℤ) (s : S) → IsUniqueAt view s → IsUniqueAt view (add store c t s).1
  unfolding IsUniqueAt
  add-IsUniqueAt c t s u = elim (add-cases store view version laws c t s) [
    | inl (r, listed, same) ↦ ground (arith, same, u)
    | inr (inl (r, missing, added)) ↦
        ground (arith, added, IsUnique-add c t (members_of (view s key)) missing u)
    | inr (inr (x, r, same)) ↦ ground (arith, same, u)
  ]

  -- For a store with the contract of `DocStore`: an `Add` that returns `b` without an error has
  -- found the pair in the list exactly if `b` is false, and afterwards the pair is in the list.
  pub add_lem :
      (c t : ℤ) (s : S) (b : Bool)
      → (add store c t s).0 ≡ ok b
      → (has_pair c t (members_of (view s key)) ≡ not b)
        × (has_pair c t (members_of (view (add store c t s).1 key)) ≡ true)
  add_lem c t s b h = elim (add-cases store view version laws c t s) [
    | inl (r, listed, same) ↦ (ground arith, ground arith)
    | inr (inl (r, missing, added)) ↦
        (ground arith, ground (arith, added, has_pair-append c t (members_of (view s key))))
    | inr (inr (x, r, same)) ↦ absurd (ground arith)
  ]
