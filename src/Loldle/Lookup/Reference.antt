-- ===== src/Loldle/Lookup/Reference.antt =====
-- What looking up a champion gives, without loops.
use miti99bot.Base.{
  ◌≡◌, refl, ◌↔◌, inl, inr, Bool, true, false, Option, none, some, List, [], ◌∷◌, arith,
  Option-cases, keep, Text, text_eq, has_prefix,
}
use miti99bot.Loldle.{Champion}
use miti99bot.Loldle.Lookup.{normalize_name, find_exact, find_prefix, find_champion_match}

module _ (to_lower : Text → Text) where
  abbrev named : Text → List Champion → List Champion
  named q pool = keep (λ c. text_eq (normalize_name to_lower c.champion_name) q) pool

  abbrev starting : Text → List Champion → List Champion
  starting q pool = keep (λ c. has_prefix (normalize_name to_lower c.champion_name) q) pool

  -- The first champion of that name; else the only one that starts so.
  abbrev chosen : List Champion → List Champion → Option Champion × Bool
  chosen (c ∷ cs) near = (some c, false)
  chosen [] [] = (none, false)
  chosen [] (c ∷ []) = (some c, false)
  chosen [] (c ∷ d ∷ cs) = (none, true)

  find_exact-named :
      (q : Text) (pool : List Champion) → (find_exact to_lower q pool ≡ none) ↔ (named q pool ≡ [])
  unfolding find_exact
  find_exact-named q [] = ((λ h. refl), (λ h. refl))
  find_exact-named q (c ∷ pool) =
      let (f, g) = find_exact-named q pool in ((λ h. ground (arith, f)), (λ h. ground (arith, g)))

  find_exact-chosen :
      (q : Text) (pool : List Champion) (c : Champion) (near : List Champion)
      → find_exact to_lower q pool ≡ some c
      → chosen (named q pool) near ≡ (some c, false)
  unfolding find_exact
  find_exact-chosen q [] c near h = absurd (ground arith)
  find_exact-chosen q (d ∷ pool) c near h = ground (arith, find_exact-chosen q pool c near)

  find_prefix-some :
      (q : Text) (pool : List Champion) (h : Champion)
      → find_prefix to_lower q pool (some h) ≡ chosen [] (h ∷ starting q pool)
  unfolding find_prefix
  find_prefix-some q [] h = refl
  find_prefix-some q (c ∷ pool) h = ground (arith, find_prefix-some q pool h)

  find_prefix-none :
      (q : Text) (pool : List Champion)
      → find_prefix to_lower q pool none ≡ chosen [] (starting q pool)
  unfolding find_prefix
  find_prefix-none q [] = refl
  find_prefix-none q (c ∷ pool) = ground (arith, find_prefix-none q pool, find_prefix-some q pool c)

  -- Looking up a text with a letter or a digit gives the first champion whose normalised name it
  -- is, if there is one; otherwise the only one whose normalised name starts with it; otherwise
  -- none, and it says that the text is ambiguous exactly if several start with it.
  pub find_champion_match_lem :
      (pool : List Champion) (input : Text)
      → text_eq (normalize_name to_lower input) [] ≡ false
      → let q = normalize_name to_lower input in
        find_champion_match to_lower pool input ≡ chosen (named q pool) (starting q pool)
  unfolding find_champion_match
  find_champion_match_lem pool input h =
      let q = normalize_name to_lower input in
      elim (Option-cases (find_exact to_lower q pool)) [
        | inl e ↦ ground (arith, h, e, find_prefix-none q pool, find_exact-named q pool)
        | inr (c, e) ↦ ground (arith, h, e, find_exact-chosen q pool c (starting q pool))
      ]
