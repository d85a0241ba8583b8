-- ===== src/Blacklist/Handlers/Effects.antt =====
-- What an add and a remove do to the rules.
use miti99bot.Base.{
  ℕ, ◌≡◌, refl, ◌≢◌, ◌⊎◌, inl, inr, true, false, Option, none, some, List, arith, Bool-cases,
  Option-cases, Text, text_eq, has_prefix, text_eq_refl, text_eq→eq, has_prefix-append, ℤ, pos,
  text_eq_refl,
}
use miti99bot.Storage.Contract.{Doc, DocStore, IsDocStore, found_or_none}
use miti99bot.Storage.Program.{Result-cases}
use miti99bot.Storage.Reads.{found_or_none-view}
use miti99bot.Blacklist.Scope.{ListTag, scope_prefix, entry_key}
use miti99bot.Blacklist.Scope.Prefix.{entry_key_scope}
use miti99bot.Blacklist.Handlers.{
  Entry, TopicMessage, Outside, thread_of, Resolved, resolved, unresolved, resolve_text, added,
  removed, new_entry, add_entry, handle_add, remove_entry, handle_del,
}

Resolved-cases :
    (r : Resolved)
    → ((raw : Text) × (norm_text : Text) × (r ≡ resolved raw norm_text))
      ⊎ ((e : _) × (r ≡ unresolved e))
Resolved-cases (resolved raw norm_text) = inl (raw, norm_text, refl)
Resolved-cases (unresolved e) = inr (e, refl)

-- Keys of different lists differ.
entry_key_other :
    (chat chat' thread thread' : ℤ) (list list' : ListTag) (text text' : Text)
    → ¬ ((chat ≡ chat') × (thread ≡ thread') × (list ≡ list'))
    → text_eq (entry_key chat thread list text) (entry_key chat' thread' list' text') ≡ false
unfolding entry_key
entry_key_other chat chat' thread thread' list list' text text' h =
    elim (Bool-cases
      (text_eq (entry_key chat thread list text) (entry_key chat' thread' list' text'))) [
        | inr e ↦ e
        | inl e ↦
            let same =
              text_eq→eq (entry_key chat thread list text) (entry_key chat' thread' list' text')
                e in
            let pre : has_prefix (entry_key chat' thread' list' text')
                  (scope_prefix chat' thread' list')
                ≡ true =
              has_prefix-append (scope_prefix chat' thread' list') _ in
            absurd (
              h (
                entry_key_scope chat chat' thread thread' list list' text
                  (ground (arith, same, pre))))
      ]

module _ {S : Type 0} (out : Outside) (store : DocStore S Entry) (view : S → Text → Option Entry)
    (version : S → Text → ℕ) (laws : IsDocStore store view version) where
  abbrev own_key : ListTag → TopicMessage → Text → Text
  own_key list msg norm_text = entry_key (thread_of msg).0 (thread_of msg).1 list norm_text

  -- A text with the id of its sender, 0 if there is none, and the time
  abbrev pub listed_entry : TopicMessage → Text → Entry
  listed_entry msg raw = record {
    text = raw;
    owner_id = elim msg.sender [ none ↦ pos 0 | some id ↦ id ];
    created_at = out.now_millis;
  }

  add_entry-effect :
      (list : ListTag) (msg : TopicMessage) (raw norm_text : Text) (s : S)
      → ((j : Text)
          → text_eq (own_key list msg norm_text) j ≡ false
          → view (add_entry out store list msg raw norm_text s).1 j ≡ view s j)
        × ((t : Text) (docs : Option (List (Doc Entry)))
            → (add_entry out store list msg raw norm_text s).0 ≡ added t docs
            → (t ≡ raw)
              × (view s (own_key list msg norm_text) ≡ none)
              × (view (add_entry out store list msg raw norm_text s).1 (own_key list msg norm_text)
                  ≡ some (listed_entry msg raw)))
  unfolding add_entry
  add_entry-effect list msg raw norm_text s =
      let key = own_key list msg norm_text in
      elim (Result-cases (found_or_none (store.get key s))) [
        | inr (x, e) ↦ ((λ j h. ground (arith, e)), (λ t docs h. absurd (ground (arith, e, h))))
        | inl (found, e) ↦ elim (Option-cases found) [
          | inr (v, f) ↦
              ((λ j h. ground (arith, e, f)), (λ t docs h. absurd (ground (arith, e, f, h))))
          | inl f ↦
              let missing : view s key ≡ none =
                ground (arith, f, found_or_none-view store view version laws key s found e) in
              elim (Result-cases (store.put key (new_entry out store msg raw) s).0) [
                | inr (x, w) ↦
                    let same = laws.put_err key (new_entry out store msg raw) s x w in
                    (
                      (λ j h. ground (arith, e, f, w, same)),
                      (λ t docs h. absurd (ground (arith, e, f, w, h))),
                    )
                | inl (u, w) ↦ (
                  (λ j h.
                      ground
                        (arith, e, f, w, h, laws.put_ok key j (new_entry out store msg raw) s w)),
                  (λ t docs h. (
                    ground (arith, e, f, w, h),
                    missing,
                    ground (
                      arith,
                      e,
                      f,
                      w,
                      text_eq_refl key,
                      laws.put_ok key key (new_entry out store msg raw) s w,
                    ),
                  )),
                )
              ]
        ]
      ]

  remove_entry-effect :
      (list : ListTag) (msg : TopicMessage) (raw norm_text : Text) (s : S)
      → ((j : Text)
          → text_eq (own_key list msg norm_text) j ≡ false
          → view (remove_entry out store list msg raw norm_text s).1 j ≡ view s j)
        × ((t : Text) (docs : Option (List (Doc Entry)))
            → (remove_entry out store list msg raw norm_text s).0 ≡ removed t docs
            → (view s (own_key list msg norm_text) ≢ none)
              × (view
                    (remove_entry out store list msg raw norm_text s).1
                    (own_key list msg norm_text)
                  ≡ none))
  unfolding remove_entry
  remove_entry-effect list msg raw norm_text s =
      let key = own_key list msg norm_text in
      elim (Result-cases (found_or_none (store.get key s))) [
        | inr (x, e) ↦ ((λ j h. ground (arith, e)), (λ t docs h. absurd (ground (arith, e, h))))
        | inl (found, e) ↦ elim (Option-cases found) [
          | inl f ↦ ((λ j h. ground (arith, e, f)), (λ t docs h. absurd (ground (arith, e, f, h))))
          | inr (v, f) ↦
              let present : view s key ≡ some v =
                ground (arith, f, found_or_none-view store view version laws key s found e) in
              elim (Result-cases (store.delete key s).0) [
                | inr (x, w) ↦
                    let same = laws.delete_err key s x w in
                    (
                      (λ j h. ground (arith, e, f, w, same)),
                      (λ t docs h. absurd (ground (arith, e, f, w, h))),
                    )
                | inl (u, w) ↦ (
                  (λ j h. ground (arith, e, f, w, h, laws.delete_ok key j s w)),
                  (λ t docs h. (
                    (λ k. ground (arith, present, k)),
                    ground (arith, e, f, w, text_eq_refl key, laws.delete_ok key key s w),
                  )),
                )
              ]
        ]
      ]

  handle_add-kept :
      (list : ListTag) (msg : TopicMessage) (s : S) (chat thread : ℤ) (l : ListTag) (text : Text)
      → ¬ (((thread_of msg).0 ≡ chat) × ((thread_of msg).1 ≡ thread) × (list ≡ l))
      → view (handle_add out store list msg s).1 (entry_key chat thread l text)
        ≡ view s (entry_key chat thread l text)
  unfolding handle_add
  handle_add-kept list msg s chat thread l text h =
      elim (Resolved-cases (resolve_text out msg true)) [
        | inr (x, e) ↦ ground (arith, e)
        | inl (raw, norm_text, e) ↦ ground (
          arith,
          e,
          (add_entry-effect list msg raw norm_text s).0 (entry_key chat thread l text) (
              entry_key_other (thread_of msg).0 chat (thread_of msg).1 thread list l norm_text text
                h),
        )
      ]

  handle_del-kept :
      (list : ListTag) (msg : TopicMessage) (s : S) (chat thread : ℤ) (l : ListTag) (text : Text)
      → ¬ (((thread_of msg).0 ≡ chat) × ((thread_of msg).1 ≡ thread) × (list ≡ l))
      → view (handle_del out store list msg s).1 (entry_key chat thread l text)
        ≡ view s (entry_key chat thread l text)
  unfolding handle_del
  handle_del-kept list msg s chat thread l text h =
      elim (Resolved-cases (resolve_text out msg false)) [
        | inr (x, e) ↦ ground (arith, e)
        | inl (raw, norm_text, e) ↦ ground (
          arith,
          e,
          (remove_entry-effect list msg raw norm_text s).0 (entry_key chat thread l text) (
              entry_key_other (thread_of msg).0 chat (thread_of msg).1 thread list l norm_text text
                h),
        )
      ]

  -- For a store with the contract of `DocStore`: an add and a remove, however they end, leave every
  -- rule of another chat, of another topic and of the other list as it was.
  pub handle_add-del_scope :
      (list : ListTag) (msg : TopicMessage) (s : S) (chat thread : ℤ) (l : ListTag) (text : Text)
      → ¬ (((thread_of msg).0 ≡ chat) × ((thread_of msg).1 ≡ thread) × (list ≡ l))
      → (view (handle_add out store list msg s).1 (entry_key chat thread l text)
          ≡ view s (entry_key chat thread l text))
        × (view (handle_del out store list msg s).1 (entry_key chat thread l text)
            ≡ view s (entry_key chat thread l text))
  handle_add-del_scope list msg s chat thread l text h = (
    handle_add-kept list msg s chat thread l text h,
    handle_del-kept list msg s chat thread l text h,
  )

  -- For a store with the contract of `DocStore`: an add that replies that it added a text has
  -- resolved this text from the message, found it unlisted, and stored it as written with the id
  -- of its sender, 0 if there is none, and the time.
  pub handle_add-added :
      (list : ListTag) (msg : TopicMessage) (s : S) (t : Text) (docs : Option (List (Doc Entry)))
      → (handle_add out store list msg s).0 ≡ added t docs
      → (norm_text : Text) × (resolve_text out msg true ≡ resolved t norm_text)
        × (view s (own_key list msg norm_text) ≡ none)
        × (view (handle_add out store list msg s).1 (own_key list msg norm_text)
            ≡ some (listed_entry msg t))
  unfolding handle_add
  handle_add-added list msg s t docs h = elim (Resolved-cases (resolve_text out msg true)) [
    | inr (x, e) ↦ absurd (ground (arith, e, h))
    | inl (raw, norm_text, e) ↦
        let (same, missing, stored) =
          (add_entry-effect list msg raw norm_text s).1 t docs (ground (arith, e, h)) in
        (norm_text, ground (arith, e, same), missing, ground (arith, e, same, stored))
  ]

  -- For a store with the contract of `DocStore`: a remove that replies that it removed a text has
  -- resolved it from the message, without a replied-to one, found it listed, and it is listed no
  -- more.
  pub handle_del-removed :
      (list : ListTag) (msg : TopicMessage) (s : S) (t : Text) (docs : Option (List (Doc Entry)))
      → (handle_del out store list msg s).0 ≡ removed t docs
      → (raw : Text) × (norm_text : Text) × (resolve_text out msg false ≡ resolved raw norm_text)
        × (view s (own_key list msg norm_text) ≢ none)
        × (view (handle_del out store list msg s).1 (own_key list msg norm_text) ≡ none)
  unfolding handle_del
  handle_del-removed list msg s t docs h = elim (Resolved-cases (resolve_text out msg false)) [
    | inr (x, e) ↦ absurd (ground (arith, e, h))
    | inl (raw, norm_text, e) ↦
        let (present, gone) =
          (remove_entry-effect list msg raw norm_text s).1 t docs (ground (arith, e, h)) in
        (raw, norm_text, e, present, ground (arith, e, gone))
  ]
