-- ===== src/Stats/Usage/Renames.antt =====
-- A change of username goes to every row of its user.
use miti99bot.Base.{
  ℕ, ◌≡◌, refl, sym, ap, ◌∙◌, ◌⊎◌, inl, inr, false, Option, none, some, List, [], ◌∷◌, arith,
  if◌then◌else◌, Bool-cases, Option-cases, Mem, here, there, All, Text, text_eq, text_eq_refl,
  text_eq→eq, text_eq_iff, int_eq, text_eq_refl,
}
use miti99bot.Storage.Contract.{ok, DocStore, IsDocStore}
use miti99bot.Storage.Program.{Result-cases}
use miti99bot.Stats.{UsageEntry, UsageUser, usage_key}
use miti99bot.Stats.Usage.{
  renamed, load_from, load_entries, rename_rows, refresh_username, refresh_for,
}

-- The username of a row after a use by a user: the user's rows get the user's name, and another
-- row that holds this name, which has changed hands, loses it.
unfoldable pub name_after : UsageUser → UsageEntry → Text
unfolding text_eq
name_after user e =
    if int_eq e.user_id user.id
    then user.username
    else if text_eq e.username user.username
    then []
    else e.username

-- A row after a use by a user; a row without a command is none of `Increment`.
abbrev pub row_after : UsageUser → Option UsageEntry → Option UsageEntry
row_after user none = none
row_after user (some e) =
    if text_eq e.cmd [] then some e else some (record e { username = name_after user e })

abbrev pub rows_after : Option UsageUser → Option UsageEntry → Option UsageEntry
rows_after none old = old
rows_after (some user) old = row_after user old

module _ {S : Type 0} (docs : DocStore S UsageEntry) (view : S → Text → Option UsageEntry)
    (version : S → Text → ℕ) (laws : IsDocStore docs view version) where
  -- Each entry of a command stands under its own key.
  abbrev pub IsKeyed : S → Type 0
  IsKeyed s =
      (k : Text) (e : UsageEntry)
      → view s k ≡ some e
      → text_eq e.cmd [] ≡ false
      → usage_key e.cmd e.user_id ≡ k

  abbrev IsStored : S → UsageEntry → Type 0
  IsStored s e = (view s (usage_key e.cmd e.user_id) ≡ some e) × (text_eq e.cmd [] ≡ false)

  load_from-IsStored :
      (keys : List Text) (s : S) (es : List UsageEntry)
      → IsKeyed s
      → load_from docs keys s ≡ ok es
      → All (IsStored s) es
  unfolding load_from
  load_from-IsStored [] s es keyed h =
      let none_left : es ≡ [] = ground (arith, h) in rw none_left tt
  load_from-IsStored (k ∷ keys) s es keyed h = elim (Result-cases (docs.get k s)) [
    | inr (x, g) ↦ absurd (ground (arith, h, g))
    | inl ((e, n), g) ↦ elim (Result-cases (load_from docs keys s)) [
      | inr (x, l) ↦ absurd (ground (arith, h, g, l))
      | inl (rest, l) ↦
          let later = load_from-IsStored keys s rest keyed l in
          let (here_now, v) = laws.get_ok k s e n g in
          elim (Bool-cases (text_eq e.cmd [])) [
            | inl skipped ↦ let same : es ≡ rest = ground (arith, h, g, l, skipped) in rw same later
            | inr used ↦
                let same : es ≡ e ∷ rest = ground (arith, h, g, l, used) in
                let own : view s (usage_key e.cmd e.user_id) ≡ some e =
                  rw (keyed k e here_now used) here_now in
                rw same ((own, used), later)
          ]
    ]
  ]

  mem-cons : {A : Type 0} {x y : A} {xs : List A} → Mem x (y ∷ xs) → (y ≡ x) ⊎ Mem x xs
  mem-cons here = inl refl
  mem-cons (there m) = inr m

  load_from-Mem :
      (keys : List Text) (s : S) (es : List UsageEntry) (k : Text) (e : UsageEntry)
      → load_from docs keys s ≡ ok es
      → Mem k keys
      → view s k ≡ some e
      → text_eq e.cmd [] ≡ false
      → Mem e es
  unfolding load_from
  load_from-Mem [] s es j e h m at used = elim m [ ]
  load_from-Mem (k ∷ keys) s es j e h m at used = elim (Result-cases (docs.get k s)) [
    | inr (x, g) ↦ absurd (ground (arith, h, g))
    | inl ((d, n), g) ↦ elim (Result-cases (load_from docs keys s)) [
      | inr (x, l) ↦ absurd (ground (arith, h, g, l))
      | inl (rest, l) ↦
          let (held, v) = laws.get_ok k s d n g in
          elim (mem-cons m) [
            | inl first ↦
                let same : d ≡ e = ground (arith, held, at, first) in
                let all : es ≡ e ∷ rest = ground (arith, h, g, l, used, same) in rw all here
            | inr later ↦
                let m' = load_from-Mem keys s rest j e l later at used in
                elim (Bool-cases (text_eq d.cmd [])) [
                  | inl skipped ↦
                      let all : es ≡ rest = ground (arith, h, g, l, skipped) in rw all m'
                  | inr kept ↦
                      let all : es ≡ d ∷ rest = ground (arith, h, g, l, kept) in rw all (there m')
                ]
          ]
    ]
  ]

  renamed-none :
      (user : UsageUser) (e : UsageEntry) → renamed user e ≡ none → name_after user e ≡ e.username
  unfolding renamed name_after
  renamed-none user e h = ground (arith, h, text_eq_iff e.username user.username)

  renamed-some :
      (user : UsageUser) (e e' : UsageEntry)
      → renamed user e ≡ some e'
      → e' ≡ record e { username = name_after user e }
  unfolding renamed name_after
  renamed-some user e e' h = ground (arith, h, text_eq_iff e.username user.username)

  put-row :
      (user : UsageUser) (s₀ s : S) (e e' : UsageEntry) (k : Text)
      → IsStored s₀ e
      → renamed user e ≡ some e'
      → (docs.put (usage_key e.cmd e.user_id) e' s).0 ≡ ok tt
      → let s' = (docs.put (usage_key e.cmd e.user_id) e' s).1 in
        (view s' k ≡ view s k) ⊎ (view s' k ≡ row_after user (view s₀ k))
  put-row user s₀ s e e' k (stored, used) r w =
      let key = usage_key e.cmd e.user_id in
      elim (Bool-cases (text_eq key k)) [
        | inr miss ↦ inl (ground (arith, miss, laws.put_ok key k e' s w))
        | inl hit ↦ inr (
            ground (
              arith,
              hit,
              text_eq→eq key k hit,
              laws.put_ok key k e' s w,
              stored,
              used,
              renamed-some user e e' r,
            ))
      ]

  -- What holds of a row as it was and as it is to be holds of it in the end.
  rename_rows-keeps :
      (P : Option UsageEntry → Type 0) (user : UsageUser) (es : List UsageEntry) (s₀ s : S)
      (k : Text)
      → All (IsStored s₀) es
      → P (row_after user (view s₀ k))
      → P (view s k)
      → P (view (rename_rows docs user es s).1 k)
  unfolding rename_rows
  rename_rows-keeps P user [] s₀ s k stored final now = now
  rename_rows-keeps P user (e ∷ es) s₀ s k stored final now = elim (Option-cases (renamed user e)) [
    | inl r ↦
        let run : (rename_rows docs user (e ∷ es) s).1 ≡ (rename_rows docs user es s).1 =
          ground (arith, r) in
        rw run (rename_rows-keeps P user es s₀ s k stored.1 final now)
    | inr (e', r) ↦
        let key = usage_key e.cmd e.user_id in
        let s' = (docs.put key e' s).1 in
        elim (Result-cases (docs.put key e' s).0) [
          | inr (x, w) ↦
              let run : (rename_rows docs user (e ∷ es) s).1 ≡ s =
                ground (arith, r, w, laws.put_err key e' s x w) in
              rw run now
          | inl (u, w) ↦
              let run : (rename_rows docs user (e ∷ es) s).1 ≡ (rename_rows docs user es s').1 =
                ground (arith, r, w) in
              let now' : P (view s' k) = elim (put-row user s₀ s e e' k stored.0 r w) [
                | inl same ↦ rw same now
                | inr done ↦ rw done final
              ] in
              rw run (rename_rows-keeps P user es s₀ s' k stored.1 final now')
        ]
  ]

  -- A row that is gone through is as it is to be, if no write fails.
  rename_rows-done :
      (user : UsageUser) (es : List UsageEntry) (s₀ s : S) (e : UsageEntry)
      → All (IsStored s₀) es
      → Mem e es
      → (let k = usage_key e.cmd e.user_id in
          (view s k ≡ view s₀ k) ⊎ (view s k ≡ row_after user (view s₀ k)))
      → (rename_rows docs user es s).0 ≡ ok tt
      → view (rename_rows docs user es s).1 (usage_key e.cmd e.user_id)
        ≡ row_after user (view s₀ (usage_key e.cmd e.user_id))
  unfolding rename_rows
  rename_rows-done user [] s₀ s e stored m now h = elim m [ ]
  rename_rows-done user (d ∷ es) s₀ s e stored m now h =
      let k = usage_key e.cmd e.user_id in
      let goal = row_after user (view s₀ k) in
      elim (Option-cases (renamed user d)) [
        | inl r ↦
            let run : rename_rows docs user (d ∷ es) s ≡ rename_rows docs user es s =
              ground (arith, r) in
            elim (mem-cons m) [
              | inr later ↦
                  let rest =
                    rename_rows-done user es s₀ s e stored.1 later now
                      (ap (λ x. x.0) (sym run) ∙ h) in
                  ap (λ x. view x.1 k) run ∙ rest
              | inl first ↦
                  let now' : view s k ≡ goal =
                    ground (arith, now, first, stored.0, renamed-none user d r) in
                  ap (λ x. view x.1 k) run
                  ∙ rename_rows-keeps (λ x. x ≡ goal) user es s₀ s k stored.1 refl now'
            ]
        | inr (d', r) ↦
            let key = usage_key d.cmd d.user_id in
            let s' = (docs.put key d' s).1 in
            elim (Result-cases (docs.put key d' s).0) [
              | inr (x, w) ↦ absurd (ground (arith, h, r, w))
              | inl (u, w) ↦
                  let run : rename_rows docs user (d ∷ es) s ≡ rename_rows docs user es s' =
                    ground (arith, r, w) in
                  elim (mem-cons m) [
                    | inl first ↦
                        let now' : view s' k ≡ goal = ground (
                          arith,
                          first,
                          stored.0,
                          renamed-some user d d' r,
                          laws.put_ok key key d' s w,
                          text_eq_refl key,
                        ) in
                        ap (λ x. view x.1 k) run
                        ∙ rename_rows-keeps (λ x. x ≡ goal) user es s₀ s' k stored.1 refl now'
                    | inr later ↦
                        let now' : (view s' k ≡ view s₀ k) ⊎ (view s' k ≡ goal) =
                          elim (put-row user s₀ s d d' k stored.0 r w) [
                            | inl same ↦ rw same now
                            | inr done ↦ inr done
                          ] in
                        ap (λ x. view x.1 k) run
                        ∙ rename_rows-done user es s₀ s' e stored.1 later now'
                            (ap (λ x. x.0) (sym run) ∙ h)
                  ]
            ]
      ]

  module _
      (lists : (t : S) (ks : List Text)
        → docs.list [] t ≡ ok ks
        → (k : Text) (e : UsageEntry) → view t k ≡ some e
        → Mem k ks) where
    refresh_username-rows :
        (user : UsageUser) (s : S) (k : Text)
        → IsKeyed s
        → (refresh_username docs user s).0 ≡ ok tt
        → view (refresh_username docs user s).1 k ≡ row_after user (view s k)
    unfolding refresh_username load_entries
    refresh_username-rows user s k keyed h = elim (Result-cases (docs.list [] s)) [
      | inr (x, l) ↦ absurd (ground (arith, l, h))
      | inl (keys, l) ↦ elim (Result-cases (load_from docs keys s)) [
        | inr (x, e) ↦ absurd (ground (arith, l, e, h))
        | inl (es, e) ↦
            let run : refresh_username docs user s ≡ rename_rows docs user es s =
              ground (arith, l, e) in
            let stored = load_from-IsStored keys s es keyed e in
            let kept =
              rename_rows-keeps (λ x. (x ≡ view s k) ⊎ (x ≡ row_after user (view s k))) user es s s
                k stored (inr refl) (inl refl) in
            ap (λ x. view x.1 k) run ∙ elim (Option-cases (view s k)) [
              | inl missing ↦ ground (arith, kept, missing)
              | inr (d, at) ↦ elim (Bool-cases (text_eq d.cmd [])) [
                | inl unnamed ↦ ground (arith, kept, at, unnamed)
                | inr used ↦
                    let own = keyed k d at used in
                    ground (
                      arith,
                      own,
                      rename_rows-done user es s s d stored
                          (load_from-Mem keys s es k d e (lists s keys l k d at) at used) (inl refl)
                          (ap (λ x. x.0) (sym run) ∙ h),
                    )
              ]
            ]
      ]
    ]

    pub refresh_for-rows :
        (user : Option UsageUser) (s : S) (k : Text)
        → IsKeyed s
        → (refresh_for docs user s).0 ≡ ok tt
        → view (refresh_for docs user s).1 k ≡ rows_after user (view s k)
    refresh_for-rows none s k keyed h = refl
    refresh_for-rows (some user) s k keyed h = refresh_username-rows user s k keyed h
