-- ===== src/Wordle/Compare.antt =====
-- Scoring a guess letter by letter (internal/modules/wordle/compare.go). The source indexes both
-- words from 0 to `WordLength`; a word here is the list of its bytes, and the two passes walk the
-- words together. The words in use have five letters, so that the panic of the source on the
-- index of a shorter word is left out.
pub mod Counts
use miti99bot.Base.{
  ℕ, zero, ◌+◌, ◌≡◌, refl, Option, none, some, List, [], ◌∷◌, ◌++◌, map, ◌==◌, if◌then◌else◌, take,
  drop, here, Text, codes,
}

abbrev pub word_length : ℕ
word_length = 5

pub data Mark : Type 0 where
  correct partial wrong : Mark

-- `LetterScore`
pub record LetterScore : Type 0 where
  pub letter : ℕ
  pub result : Mark

abbrev pub score : ℕ → Mark → LetterScore
score c m = record { letter = c; result = m }

-- Pass 1: the positions that match are marked; of the others, `none` is the zero score that pass 2
-- replaces.
pub mark_matches : Text → Text → List (Option LetterScore)
mark_matches [] target = []
mark_matches (g ∷ gs) [] = []
mark_matches (g ∷ gs) (t ∷ ts) =
    (if g == t then some (score g correct) else none) ∷ mark_matches gs ts

-- Pass 1: the letters of the target that no position has matched.
pub unmatched : Text → Text → Text
unmatched [] target = []
unmatched (g ∷ gs) [] = []
unmatched (g ∷ gs) (t ∷ ts) = let rest = unmatched gs ts in if g == t then rest else t ∷ rest

-- `indexOfByte`, -1 being `none`; `i` counts the positions passed.
pub index_of_byte : ℕ → Text → ℕ → Option ℕ
index_of_byte i [] c = none
index_of_byte i (b ∷ bs) c =
    let rest = index_of_byte (i + 1) bs c in if b == c then some i else rest

-- Pass 2: each remaining letter consumes its first occurrence in the pool.
pub mark_rest : Text → List (Option LetterScore) → Text → List LetterScore
mark_rest [] out pool = []
mark_rest (g ∷ gs) [] pool = []
mark_rest (g ∷ gs) (some s ∷ out) pool = s ∷ mark_rest gs out pool
mark_rest (g ∷ gs) (none ∷ out) pool =
    let found =
      λ (idx : ℕ). score g partial ∷ mark_rest gs out (take idx pool ++ drop (idx + 1) pool) in
    let missed = score g wrong ∷ mark_rest gs out pool in
    elim (index_of_byte 0 pool g) [ none ↦ missed | some idx ↦ found idx ]

unfoldable pub compare_words : Text → Text → List LetterScore
unfolding mark_matches unmatched mark_rest index_of_byte
compare_words guess target = mark_rest guess (mark_matches guess target) (unmatched guess target)

-- The example of the source: target "abbey", guess "babes".
babes_abbey :
    map (λ (s : LetterScore). s.result) (compare_words (codes "babes") (codes "abbey"))
    ≡ partial ∷ partial ∷ correct ∷ correct ∷ wrong ∷ []
unfolding compare_words
babes_abbey = refl
