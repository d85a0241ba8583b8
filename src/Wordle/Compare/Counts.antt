-- ===== src/Wordle/Compare/Counts.antt =====
-- How often a letter is marked, against how often it occurs in the two words.
use miti99bot.Base.{
  ℕ, suc, ◌+◌, ◌-◌, ◌≤◌, min, ◌≡◌, refl, ap, ◌↔◌, inl, inr, Bool, true, false, ◌&&◌, Option, none,
  some, List, [], ◌∷◌, ◌++◌, arith, ◌==◌, if◌then◌else◌, Bool-cases, Option-cases, length, take,
  drop, Text,
}
use native.Mathlib.Numerals.{add-one}
use native.Mathlib.Nat.{sub_self, sub-zero}
use miti99bot.Wordle.Compare.{
  Mark, correct, partial, wrong, LetterScore, mark_matches, unmatched, index_of_byte, mark_rest,
  compare_words,
}

-- Occurrences of a letter.
abbrev pub count : ℕ → Text → ℕ
count c [] = 0
count c (x ∷ xs) = (if x == c then 1 else 0) + count c xs

abbrev pub is_hit : Mark → Bool
is_hit correct = true
is_hit partial = true
is_hit wrong = false

abbrev pub is_correct : Mark → Bool
is_correct correct = true
is_correct _ = false

-- Scores of a letter that are not `wrong`.
abbrev pub hits : ℕ → List LetterScore → ℕ
hits c [] = 0
hits c (s ∷ ss) = (if (s.letter == c) && is_hit s.result then 1 else 0) + hits c ss

abbrev pub all_correct : List LetterScore → Bool
all_correct [] = true
all_correct (s ∷ ss) = is_correct s.result && all_correct ss

-- Letters that pass 1 has marked.
abbrev marked : ℕ → List (Option LetterScore) → ℕ
marked c [] = 0
marked c (none ∷ out) = marked c out
marked c (some s ∷ out) = (if s.letter == c then 1 else 0) + marked c out

-- Letters of the guess that pass 1 has left over.
abbrev left_over : ℕ → Text → List (Option LetterScore) → ℕ
left_over c [] out = 0
left_over c (g ∷ gs) [] = 0
left_over c (g ∷ gs) (none ∷ out) = (if g == c then 1 else 0) + left_over c gs out
left_over c (g ∷ gs) (some s ∷ out) = left_over c gs out

-- All scores of pass 1 are `correct`.
abbrev AllCorrect : List (Option LetterScore) → Type 0
AllCorrect [] = Unit
AllCorrect (none ∷ out) = AllCorrect out
AllCorrect (some s ∷ out) = (s.result ≡ correct) × AllCorrect out

count-remove :
    (i : ℕ) (pool : Text) (g c j : ℕ)
    → index_of_byte i pool g ≡ some j
    → (i ≤ j)
      × ((if g == c then 1 else 0) + count c (take (j - i) pool ++ drop (suc (j - i)) pool)
          ≡ count c pool)
unfolding index_of_byte
count-remove i [] g c j h = cc
count-remove i (b ∷ bs) g c j h = elim (Bool-cases (b == g)) [
  | inl same ↦ let e : i ≡ j = ground arith in rw (← e, sub_self) (ground arith)
  | inr other ↦
      let ih = count-remove (i + 1) bs g c j (ground arith) in
      let e : j - i ≡ suc (j - (i + 1)) = omega (arith, ih.0) in rw e (ground (arith, ih.0, ih.1))
]

count-removed :
    (pool : Text) (g c j : ℕ)
    → index_of_byte 0 pool g ≡ some j
    → ((if g == c then 1 else 0) + count c (take j pool ++ drop (j + 1) pool) ≡ count c pool)
count-removed pool g c j h = rw add-one (rw (sub-zero) at (count-remove 0 pool g c j h).1)

count-missing : (i : ℕ) (pool : Text) (g : ℕ) → index_of_byte i pool g ≡ none → count g pool ≡ 0
unfolding index_of_byte
count-missing i [] g h = refl
count-missing i (b ∷ bs) g h = ground (arith, count-missing (i + 1) bs g)

count-mark_matches :
    (c : ℕ) (gs ts : Text)
    → length gs ≡ length ts
    → (marked c (mark_matches gs ts) + left_over c gs (mark_matches gs ts) ≡ count c gs)
      × (marked c (mark_matches gs ts) + count c (unmatched gs ts) ≡ count c ts)
unfolding mark_matches unmatched
count-mark_matches c [] [] h = (refl, refl)
count-mark_matches c [] (t ∷ ts) h = absurd (omega arith)
count-mark_matches c (g ∷ gs) [] h = absurd (omega arith)
count-mark_matches c (g ∷ gs) (t ∷ ts) h = ground (arith, count-mark_matches c gs ts)

length-mark_matches :
    (gs ts : Text) → length gs ≡ length ts → length gs ≡ length (mark_matches gs ts)
unfolding mark_matches
length-mark_matches [] ts h = refl
length-mark_matches (g ∷ gs) [] h = absurd (omega arith)
length-mark_matches (g ∷ gs) (t ∷ ts) h = ap suc (length-mark_matches gs ts (omega arith))

mark_matches-AllCorrect : (gs ts : Text) → AllCorrect (mark_matches gs ts)
unfolding mark_matches
mark_matches-AllCorrect [] ts = tt
mark_matches-AllCorrect (g ∷ gs) [] = tt
mark_matches-AllCorrect (g ∷ gs) (t ∷ ts) = ground (arith, mark_matches-AllCorrect gs ts)

hits-mark_rest :
    (c : ℕ) (gs : Text) (out : List (Option LetterScore)) (pool : Text)
    → length gs ≡ length out
    → AllCorrect out
    → hits c (mark_rest gs out pool) ≡ marked c out + min (left_over c gs out) (count c pool)
unfolding mark_rest
hits-mark_rest c [] [] pool h ac = omega arith
hits-mark_rest c [] (x ∷ out) pool h ac = absurd (omega arith)
hits-mark_rest c (g ∷ gs) [] pool h ac = absurd (omega arith)
hits-mark_rest c (g ∷ gs) (some s ∷ out) pool h ac =
    ground (arith, hits-mark_rest c gs out pool (omega arith) ac.1)
hits-mark_rest c (g ∷ gs) (none ∷ out) pool h ac = elim (Option-cases (index_of_byte 0 pool g)) [
  | inl none_left ↦
      ground
        (arith, hits-mark_rest c gs out pool (omega arith) ac, count-missing 0 pool g none_left)
  | inr (j, found) ↦
      let ih = hits-mark_rest c gs out (take j pool ++ drop (j + 1) pool) (omega arith) ac in
      ground (arith, ih, (count-removed pool g c j found))
]

-- Each score is of the letter at its place, and is `correct` exactly where the words agree.
abbrev pub IsScored : Text → Text → List LetterScore → Type 0
IsScored [] [] [] = Unit
IsScored (g ∷ gs) (t ∷ ts) (s ∷ ss) =
    (s.letter ≡ g) × ((s.result ≡ correct) ↔ (g ≡ t)) × IsScored gs ts ss
IsScored _ _ _ = ⊥

mark_rest-IsScored :
    (gs ts pool : Text)
    → length gs ≡ length ts
    → IsScored gs ts (mark_rest gs (mark_matches gs ts) pool)
unfolding mark_rest mark_matches
mark_rest-IsScored [] [] pool h = tt
mark_rest-IsScored [] (t ∷ ts) pool h = absurd (omega arith)
mark_rest-IsScored (g ∷ gs) [] pool h = absurd (omega arith)
mark_rest-IsScored (g ∷ gs) (t ∷ ts) pool h = elim (Option-cases (index_of_byte 0 pool g)) [
  | inl e ↦ ground (arith, mark_rest-IsScored gs ts pool (omega arith))
  | inr (j, e) ↦ ground (
    arith,
    mark_rest-IsScored gs ts pool (omega arith),
    mark_rest-IsScored gs ts (take j pool ++ drop (j + 1) pool) (omega arith),
  )
]

IsScored-all :
    (gs ts : Text) (ss : List LetterScore) → IsScored gs ts ss → (all_correct ss ≡ true) ↔ (gs ≡ ts)
IsScored-all [] [] [] h = (λ e. refl, λ e. refl)
IsScored-all [] [] (s ∷ ss) h = elim h [ ]
IsScored-all [] (t ∷ ts) ss h = elim h [ ]
IsScored-all (g ∷ gs) [] ss h = elim h [ ]
IsScored-all (g ∷ gs) (t ∷ ts) [] h = elim h [ ]
IsScored-all (g ∷ gs) (t ∷ ts) (s ∷ ss) h =
    let (forth, back) = IsScored-all gs ts ss h.2 in
    (λ e. ground (arith, forth, h.1.0), λ e. ground (arith, back, h.1.1))

-- For words of one length, each letter is marked `correct` or `partial` as often as it occurs in
-- both words, that is the smaller of its two counts, and the scores follow the guess, `correct`
-- standing exactly where the words agree; so all are `correct` exactly when the guess is the
-- target.
pub compare_words_lem :
    (guess target : Text) (c : ℕ)
    → length guess ≡ length target
    → (hits c (compare_words guess target) ≡ min (count c guess) (count c target))
      × IsScored guess target (compare_words guess target)
      × ((all_correct (compare_words guess target) ≡ true) ↔ (guess ≡ target))
unfolding compare_words
compare_words_lem guess target c h =
    let out = mark_matches guess target in
    let pool = unmatched guess target in
    (
      omega (
        arith,
        hits-mark_rest c guess out pool (length-mark_matches guess target h)
            (mark_matches-AllCorrect guess target),
        count-mark_matches c guess target h,
      ),
      mark_rest-IsScored guess target pool h,
      IsScored-all guess target _ (mark_rest-IsScored guess target pool h),
    )
