-- ===== src/Alias/Handlers/Names.antt =====
-- What the commands do to the names of the store.
use miti99bot.Base.{
  ℕ, ◌≡◌, ◌∙◌, ◌⊎◌, inl, inr, Bool, true, false, Option, none, some, arith, Bool-cases,
  Option-cases, Text, text_eq, text_eq_refl, text_eq→eq, ℤ, text_eq_refl,
}
use miti99bot.Chat.{arg_after_command}
use miti99bot.Storage.Contract.{Failure, err, DocStore, IsDocStore, found_or_none}
use miti99bot.Storage.Program.{Result-cases}
use miti99bot.Modules.Registry.{Registry}
use miti99bot.Alias.{Alias}
use miti99bot.Alias.Names.{parse_name}
use miti99bot.Alias.Media.{capture, Call}
use miti99bot.Alias.Handlers.{
  AliasMessage, Reply, generic_failure, saved, replaced, is_command, stamped, save_alias,
  alias_under, handle_alias, handle_unalias,
}

-- The replies of a call that wrote
abbrev pub is_saved : {E : Type 0} → Reply E → Bool
is_saved (saved display kind) = true
is_saved (replaced display old kind) = true
is_saved r = false

-- Everything that is captured can be sent.
abbrev can_send : {E : Type 0} → Option (Call E) → Bool
can_send none = false
can_send (some c) = true

module _ {E S H C : Type 0} (reg : Option (Registry H C)) (store : DocStore S (Alias E))
    (view : S → Text → Option (Alias E)) (version : S → Text → ℕ)
    (laws : IsDocStore store view version) (now_millis : ℤ) (accepts : Call E → Bool) where
  save_alias_lem :
      (display key : Text) (entry : Alias E) (s : S)
      → let result = save_alias reg store now_millis accepts display key entry s in
        ((j : Text) → text_eq key j ≡ false → view result.1 j ≡ view s j)
        × (is_saved result.0 ≡ true → view result.1 key ≡ some entry)
  unfolding save_alias
  save_alias_lem display key entry s = elim (Result-cases (found_or_none (store.get key s))) [
    | inr (x, e) ↦ ((λ j h. ground (arith, e)), (λ h. absurd (ground (arith, e, h))))
    | inl (found, e) ↦ elim (Result-cases (store.put key entry s).0) [
      | inr (x, w) ↦
          let same = laws.put_err key entry s x w in
          ((λ j h. ground (arith, e, w, same)), (λ h. absurd (ground (arith, e, w, h))))
      | inl (u, w) ↦ elim (Option-cases found) [
        | inl f ↦ (
          (λ j h. ground (arith, e, w, f, h, laws.put_ok key j entry s w)),
          (λ h. ground (arith, e, w, f, text_eq_refl key, laws.put_ok key key entry s w)),
        )
        | inr (old, f) ↦ (
          (λ j h. ground (arith, e, w, f, h, laws.put_ok key j entry s w)),
          (λ h. ground (arith, e, w, f, text_eq_refl key, laws.put_ok key key entry s w)),
        )
      ]
    ]
  ]

  alias_under_lem :
      (msg : AliasMessage E) (display key : Text) (s : S)
      → let result = alias_under reg store now_millis accepts msg display key s in
        ((j : Text) → text_eq key j ≡ false → view result.1 j ≡ view s j)
        × (is_command reg store now_millis accepts key ≡ true → result.1 ≡ s)
        × ((a : Alias E)
            → capture msg.reply_to ≡ some a
            → is_saved result.0 ≡ true
            → view result.1 key ≡ some (stamped reg store now_millis accepts msg display a))
  unfolding alias_under
  alias_under_lem msg display key s = elim (Option-cases msg.reply_to) [
    | inl e ↦ (
      (λ j h. ground (arith, e)),
      (λ h. ground (arith, e)),
      (λ a h w. absurd (ground (arith, e, w))),
    )
    | inr (m, e) ↦ elim (Bool-cases (is_command reg store now_millis accepts key)) [
      | inl taken ↦ (
        (λ j h. ground (arith, e, taken)),
        (λ h. ground (arith, e, taken)),
        (λ a h w. absurd (ground (arith, e, taken, w))),
      )
      | inr free ↦ elim (Option-cases (capture msg.reply_to)) [
        | inl odd ↦ (
          (λ j h. ground (arith, e, free, odd)),
          (λ h. absurd (ground (arith, free, h))),
          (λ a h w. absurd (ground (arith, odd, h))),
        )
        | inr (a, c) ↦
            let (others, own) =
              save_alias_lem display key (stamped reg store now_millis accepts msg display a) s in
            (
              (λ j h. ground (arith, e, free, c, others j h)),
              (λ h. absurd (ground (arith, free, h))),
              (λ b h w. ground (arith, e, free, c, h, w, own)),
            )
      ]
    ]
  ]

  handle_unalias_lem :
      (msg : AliasMessage E) (s : S) (j : Text)
      → let result = handle_unalias reg store now_millis accepts (some msg) s in
        (view result.1 j ≡ view s j) ⊎ (view result.1 j ≡ none)
  unfolding handle_unalias
  handle_unalias_lem msg s j = elim (Option-cases (parse_name (arg_after_command msg.text))) [
    | inl e ↦ inl (ground (arith, e))
    | inr ((display, key), e) ↦ elim (Result-cases (found_or_none (store.get key s))) [
      | inr (x, f) ↦ inl (ground (arith, e, f))
      | inl (found, f) ↦ elim (Option-cases found) [
        | inl g ↦ inl (ground (arith, e, f, g))
        | inr (entry, g) ↦ elim (Result-cases (store.delete key s).0) [
          | inr (x, w) ↦ inl (ground (arith, e, f, g, w, laws.delete_err key s x w))
          | inl (u, w) ↦ elim (Bool-cases (text_eq key j)) [
            | inl same ↦ inr (ground (arith, e, f, g, w, same, laws.delete_ok key j s w))
            | inr other ↦ inl (ground (arith, e, f, g, w, other, laws.delete_ok key j s w))
          ]
        ]
      ]
    ]
  ]

  handle_alias_lem :
      (msg : AliasMessage E) (s : S) (j : Text)
      → is_command reg store now_millis accepts j ≡ true
      → view (handle_alias reg store now_millis accepts (some msg) s).1 j ≡ view s j
  unfolding handle_alias
  handle_alias_lem msg s j h = elim (Option-cases (parse_name (arg_after_command msg.text))) [
    | inl e ↦ ground (arith, e)
    | inr ((display, key), e) ↦
        let (others, taken, written) = alias_under_lem msg display key s in
        elim (Bool-cases (text_eq key j)) [
          | inr other ↦ ground (arith, e, others j other)
          | inl same ↦ ground (arith, e, h, text_eq→eq key j same, taken)
        ]
  ]

  -- For a store that keeps the contract: if no command of the registry is the name of a saved
  -- message, none is after `/alias` or `/unalias`, whatever they were called with and whichever
  -- reads and writes fail.
  pub handle_alias-unshadowed :
      (msg : AliasMessage E) (s : S)
      → ((k : Text) → is_command reg store now_millis accepts k ≡ true → view s k ≡ none)
      → ((k : Text)
          → is_command reg store now_millis accepts k ≡ true
          → view (handle_alias reg store now_millis accepts (some msg) s).1 k ≡ none)
        × ((k : Text)
            → is_command reg store now_millis accepts k ≡ true
            → view (handle_unalias reg store now_millis accepts (some msg) s).1 k ≡ none)
  handle_alias-unshadowed msg s h = (
    (λ k c. handle_alias_lem msg s k c ∙ h k c),
    (λ k c. elim (handle_unalias_lem msg s k) [ inl same ↦ same ∙ h k c | inr gone ↦ gone ]),
  )

  -- The store cannot read a key, and the reply says that something failed.
  abbrev pub CannotRead : Text → S → Reply E → Type 0
  CannotRead key s reply =
      (e : Failure) × (found_or_none (store.get key s) ≡ err e) × (reply ≡ generic_failure)
