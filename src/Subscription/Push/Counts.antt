-- ===== src/Subscription/Push/Counts.antt =====
-- The numbers that a push reports.
use miti99bot.Base.{
  ℕ, suc, ◌+◌, ◌≤◌, ◌≡◌, refl, inl, inr, Bool, true, false, ◌&&◌, Option, none, some, List, [], ◌∷◌,
  arith, ltb, ◌==◌, Bool-cases, length, Text, ℤ, int_eq,
}
use miti99bot.Storage.Contract.{DocStore, IsDocStore}
use miti99bot.Subscription.{Subscriber, Subscribers, key, is_at, remove, remove_all_for_chat}
use miti99bot.Subscription.Members.{
  members_of, count-keep-not, length-keep-not, IsUnique, IsUniqueAt, remove_where-cases,
}
use miti99bot.Subscription.Push.{
  TerminalKind, terminal_none, terminal_chat_wide, terminal_topic_only, classify_terminal, Progress,
  no_progress, note_failure, note_send, send_all, has_chat, rate_limit_threshold, removed_count,
  removed_one, prune_chats, prune_topics, prune, fanout,
}

module _ (send : ℕ → Subscriber → Option Text) (is_done : ℕ → Bool) where
  note_failure-counts :
      (sub : Subscriber) (k : TerminalKind) (p : Progress)
      → ((note_failure sub k p).sent ≡ p.sent) × ((note_failure sub k p).failed ≡ suc p.failed)
  note_failure-counts sub terminal_none p = (refl, refl)
  note_failure-counts sub terminal_chat_wide p = (refl, refl)
  note_failure-counts sub terminal_topic_only p = (refl, refl)

  note_send-counts :
      (sub : Subscriber) (o : Option Text) (p : Progress)
      → (note_send sub o p).sent + (note_send sub o p).failed ≡ suc (p.sent + p.failed)
  note_send-counts sub none p = omega arith
  note_send-counts sub (some msg) p =
      omega (arith, note_failure-counts sub (classify_terminal (some msg)) p)

  -- A loop that ends has sent to everyone or counted a failure.
  send_all-counts :
      (throttled : Bool) (i : ℕ) (subs : Subscribers) (p : Progress)
      → (send_all send is_done throttled i subs p).0 ≡ true
      → (send_all send is_done throttled i subs p).1.sent
          + (send_all send is_done throttled i subs p).1.failed
        ≡ p.sent + p.failed + length subs
  unfolding send_all
  send_all-counts throttled i [] p h = omega arith
  send_all-counts throttled i (sub ∷ subs) p h = ground (
    arith,
    send_all-counts throttled (suc i) subs (note_send sub (send i sub) p),
    note_send-counts sub (send i sub) p,
  )

  -- Below the threshold nothing waits, so the loop runs to its end.
  send_all-unthrottled :
      (i : ℕ) (subs : Subscribers) (p : Progress) → (send_all send is_done false i subs p).0 ≡ true
  unfolding send_all
  send_all-unthrottled i [] p = refl
  send_all-unthrottled i (sub ∷ subs) p =
      send_all-unthrottled (suc i) subs (note_send sub (send i sub) p)

module _ {S : Type 0} (store : DocStore S Subscribers) (view : S → Text → Option Subscribers)
    (version : S → Text → ℕ) (laws : IsDocStore store view version) where
  abbrev size : S → ℕ
  size s = length (members_of (view s key))

  remove_all_for_chat-size :
      (c : ℤ) (s : S)
      → IsUniqueAt view s
      → (size (remove_all_for_chat store c s).1
            + removed_count store (remove_all_for_chat store c s).0
          ≡ size s)
        × IsUniqueAt view (remove_all_for_chat store c s).1
  unfolding remove_all_for_chat IsUniqueAt IsUnique
  remove_all_for_chat-size c s u =
      let at : Subscriber → Bool = (λ m. int_eq m.chat_id c) in
      elim (remove_where-cases store view version laws at s) [
        | inl (r, kept) ↦ (
          ground (arith, r, kept, length-keep-not at (members_of (view s key))),
          (λ a b.
              ground (arith, kept, count-keep-not at (is_at a b) (members_of (view s key)), u a b)),
        )
        | inr (x, r, same) ↦ (ground (arith, r, same), (λ a b. ground (arith, same, u a b)))
      ]

  remove-size :
      (c t : ℤ) (s : S)
      → IsUniqueAt view s
      → (size (remove store c t s).1 + removed_one store (remove store c t s).0 ≡ size s)
        × IsUniqueAt view (remove store c t s).1
  unfolding remove IsUniqueAt IsUnique
  remove-size c t s u = elim (remove_where-cases store view version laws (is_at c t) s) [
    | inl (r, kept) ↦ (
      ground (arith, r, kept, length-keep-not (is_at c t) (members_of (view s key)), u c t),
      (λ a b. ground (
        arith,
        r,
        kept,
        count-keep-not (is_at c t) (is_at a b) (members_of (view s key)),
        u a b,
      )),
    )
    | inr (x, r, same) ↦ (ground (arith, r, same), (λ a b. ground (arith, r, same, u a b)))
  ]

  prune_chats-size :
      (cs : List ℤ) (n : ℕ) (s : S)
      → IsUniqueAt view s
      → (size (prune_chats store cs n s).1 + (prune_chats store cs n s).0 ≡ size s + n)
        × IsUniqueAt view (prune_chats store cs n s).1
  unfolding prune_chats
  prune_chats-size [] n s u = (refl, u)
  prune_chats-size (c ∷ cs) n s u =
      let (one, u') = remove_all_for_chat-size c s u in
      let (rest, u'') =
        prune_chats-size cs (n + removed_count store (remove_all_for_chat store c s).0)
          (remove_all_for_chat store c s).1 u' in
      (omega (arith, one, rest), u'')

  prune_topics-size :
      (dead : List ℤ) (subs : Subscribers) (n : ℕ) (s : S)
      → IsUniqueAt view s
      → (size (prune_topics store dead subs n s).1 + (prune_topics store dead subs n s).0
          ≡ size s + n)
        × IsUniqueAt view (prune_topics store dead subs n s).1
  unfolding prune_topics IsUniqueAt
  prune_topics-size dead [] n s u = (refl, u)
  prune_topics-size dead (sub ∷ subs) n s u = elim (Bool-cases (has_chat sub.chat_id dead)) [
    | inl e ↦ rw (e, prune_topics) (prune_topics-size dead subs n s u)
    | inr e ↦
        let (one, u') = remove-size sub.chat_id sub.thread_id s u in
        let (rest, u'') =
          prune_topics-size dead subs
            (n + removed_one store (remove store sub.chat_id sub.thread_id s).0)
            (remove store sub.chat_id sub.thread_id s).1 u' in
        rw (e, prune_topics) (omega (arith, one, rest), u'')
  ]

  prune-size :
      (dead : List ℤ) (subs : Subscribers) (s : S)
      → IsUniqueAt view s
      → (size (prune store dead subs s).1 + (prune store dead subs s).0 ≡ size s)
        × IsUniqueAt view (prune store dead subs s).1
  unfolding prune
  prune-size dead subs s u =
      let (one, u') = prune_chats-size dead 0 s u in
      let (two, u'') =
        prune_topics-size dead subs (prune_chats store dead 0 s).0 (prune_chats store dead 0 s).1
          u' in
      elim (Bool-cases (length dead == 0 && length subs == 0)) [
        | inl e ↦ rw e (omega arith, u)
        | inr e ↦ rw e (omega (arith, one, two), u'')
      ]

  -- For a store with the contract of `DocStore` and a list that holds no pair twice, whatever
  -- Telegram answers and in whatever order the dead chats are pruned: after a push the list holds
  -- no pair twice, and it has lost exactly as many members as the push reports as pruned, also if
  -- prunes fail or the push is cancelled.
  pub fanout-pruned :
      (send : ℕ → Subscriber → Option Text) (is_done : ℕ → Bool) (map_order : List ℤ → List ℤ)
      (subs : Subscribers) (s : S)
      → IsUniqueAt view s
      → IsUniqueAt view (fanout store send is_done map_order subs s).1
        × (size (fanout store send is_done map_order subs s).1
              + (fanout store send is_done map_order subs s).0.1.pruned
            ≡ size s)
  unfolding fanout
  fanout-pruned send is_done map_order subs s u =
      let throttled = ltb rate_limit_threshold (length subs) in
      let p = (send_all send is_done throttled 0 subs no_progress).1 in
      let pruned = prune-size (map_order p.dead_chats) p.dead_topics s u in
      elim (Bool-cases (send_all send is_done throttled 0 subs no_progress).0) [
        | inl e ↦ (ground (arith, e, pruned), ground (arith, e, pruned))
        | inr e ↦ (ground (arith, e, u), ground (arith, e))
      ]

module _ {S : Type 0} (store : DocStore S Subscribers) where
  -- A push to at most 30 receivers is never cancelled, and its sends and failures are as many as
  -- the receivers.
  pub fanout-small :
      (send : ℕ → Subscriber → Option Text) (is_done : ℕ → Bool) (map_order : List ℤ → List ℤ)
      (subs : Subscribers) (s : S)
      → length subs ≤ 30
      → ((fanout store send is_done map_order subs s).0.0 ≡ true)
        × ((fanout store send is_done map_order subs s).0.1.sent
              + (fanout store send is_done map_order subs s).0.1.failed
            ≡ length subs)
  unfolding fanout
  fanout-small send is_done map_order subs s h =
      let hot : ltb rate_limit_threshold (length subs) ≡ false = ground arith in
      let finished = send_all-unthrottled send is_done 0 subs no_progress in
      let counted = send_all-counts send is_done false 0 subs no_progress finished in
      (ground (arith, hot, finished), ground (arith, hot, finished, counted))
