-- ===== src/Storage/Keys/Range.antt =====
-- The key range that a prefix scan asks for holds exactly the keys with the prefix.
use miti99bot.Base.{
  ℕ, zero, suc, ◌+◌, ◌≤◌, ◌≡◌, refl, ap, ◌∙◌, inl, inr, Bool, false, not, ◌&&◌, ◌||◌, [], ◌∷◌,
  Option, none, some, arith, Text, text_lt, has_prefix, ltb, if◌then◌else◌, length, All,
  Option-cases,
}
use miti99bot.Storage.Keys.{bump_last, prefix_successor}

-- Every element is a byte.
abbrev pub IsBytes : Text → Type 0
IsBytes = All (λ c. c ≤ 255)

-- Some byte can be incremented.
pub has_low_byte : Text → Bool
has_low_byte [] = false
has_low_byte (c ∷ s) = ltb c 255 || has_low_byte s

-- What the loop finds in a text with one more byte in front.
bump_front : ℕ → Option Text → Option Text
bump_front c none = if ltb c 255 then some ((c + 1) ∷ []) else none
bump_front c (some t) = some (c ∷ t)

bump_last-cons :
    (c : ℕ) (s : Text) (i : ℕ) → bump_last (c ∷ s) (suc i) ≡ bump_front c (bump_last s i)
unfolding bump_last bump_front
bump_last-cons c s zero = refl
bump_last-cons c s (suc i) = ground (arith, bump_last-cons c s i)

-- The same search by recursion on the text.
bump : Text → Option Text
bump [] = none
bump (c ∷ s) = bump_front c (bump s)

bump_last-bump : (s : Text) → bump_last s (length s) ≡ bump s
unfolding bump
bump_last-bump [] = unfold bump_last in refl
bump_last-bump (c ∷ s) = bump_last-cons c s (length s) ∙ ap (bump_front c) (bump_last-bump s)

-- The search fails exactly on texts of 0xFF bytes alone.
bump-eq-none : (s : Text) → bump s ≡ none → has_low_byte s ≡ false
unfolding bump bump_front has_low_byte
bump-eq-none [] h = refl
bump-eq-none (c ∷ s) h = ground (arith, bump-eq-none s)

bump-none : (s : Text) → has_low_byte s ≡ false → bump s ≡ none
unfolding bump bump_front has_low_byte
bump-none [] h = refl
bump-none (c ∷ s) h = ground (arith, bump-none s)

-- No text of bytes lies above all texts with a prefix of 0xFF bytes.
above_full :
    (p k : Text)
    → IsBytes p
    → IsBytes k
    → has_low_byte p ≡ false
    → has_prefix k p ≡ not (text_lt k p)
unfolding has_low_byte has_prefix text_lt
above_full [] k bp bk h = ground arith
above_full (c ∷ p) [] bp bk h = refl
above_full (c ∷ p) (x ∷ k) bp bk h = ground (arith, above_full p k bp.1 bk.1)

-- Below the bumped text and not below the prefix means to have the prefix.
bump_range :
    (p k q : Text)
    → IsBytes p
    → IsBytes k
    → bump p ≡ some q
    → has_prefix k p ≡ (not (text_lt k p) && text_lt k q)
unfolding bump bump_front has_prefix text_lt
bump_range [] k q bp bk h = cc
bump_range (c ∷ p) [] q bp bk h = ground arith
bump_range (c ∷ p) (x ∷ k) q bp bk h = elim (Option-cases (bump p)) [
  | inl full ↦ ground (arith, above_full p k bp.1 bk.1, bump-eq-none p)
  | inr (t, e) ↦ ground (arith, bump_range p k t bp.1 bk.1)
]

-- A key of bytes lies in the half-open range from a prefix to `prefix_successor` of it exactly when
-- it has the prefix, provided that the prefix has a byte below 0xFF; the range of any other prefix
-- is empty.
pub prefix_successor_range :
    (p k : Text)
    → IsBytes p
    → IsBytes k
    → (not (text_lt k p) && text_lt k (prefix_successor p)) ≡ (has_low_byte p && has_prefix k p)
unfolding prefix_successor
prefix_successor_range p k bp bk =
    rw (bump_last-bump p, prefix_successor)
      (elim (Option-cases (bump p)) [
        | inl full ↦ ground (arith, bump-eq-none p)
        | inr (q, e) ↦ ground (arith, bump_range p k q bp bk, bump-none p)
      ])
