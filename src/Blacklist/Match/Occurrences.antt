-- ===== src/Blacklist/Match/Occurrences.antt =====
-- `occurrences` reports every place at which a text occurs, overlapping ones too, and no other.
use miti99bot.Base.{
  ℕ, zero, suc, ◌+◌, ◌-◌, ◌≤◌, ◌<◌, ◌≡◌, ◌↔◌, inl, inr, true, false, none, some, List, [], ◌∷◌,
  arith, ltb, Bool-cases, Option-cases, length, drop, length-drop, Mem, here, there, All, All-mem,
  Text, has_prefix,
}
use native.Mathlib.Nat.{zero-add, suc-add}
use native.Mathlib.Decide.{dec_lt}
use miti99bot.Blacklist.Match.{Span, index_of, occurrences_from, occurrences}

-- The text `sub` stands in `s` at place `i`.
abbrev pub OccursAt : Text → Text → ℕ → Type 0
OccursAt s sub i = has_prefix (drop i s) sub ≡ true

-- The span of an occurrence
abbrev pub span_at : Text → ℕ → Span
span_at sub i = record { start = i; stop = i + length sub }

-- A non-empty text occurs only inside.
pub occurs_inside : (s sub : Text) (i : ℕ) → 0 < length sub → OccursAt s sub i → i < length s
unfolding has_prefix
occurs_inside s [] i ne h = absurd (omega arith)
occurs_inside [] (y ∷ ys) zero ne h = cc
occurs_inside [] (y ∷ ys) (suc i) ne h = cc
occurs_inside (x ∷ s) (y ∷ ys) zero ne h = omega arith
occurs_inside (x ∷ s) (y ∷ ys) (suc i) ne h = omega (arith, occurs_inside s (y ∷ ys) i ne h)

-- The index found is an occurrence, and no earlier place is one.
index_of-some :
    (s sub : Text) (i : ℕ)
    → index_of s sub ≡ some i
    → OccursAt s sub i × ((j : ℕ) → j < i → has_prefix (drop j s) sub ≡ false)
unfolding index_of
index_of-some [] sub i h = (ground arith, λ j lt. absurd (ground arith))
index_of-some (x ∷ s) sub i h = elim (Bool-cases (has_prefix (x ∷ s) sub)) [
  | inl e ↦ (ground arith, λ j lt. absurd (ground arith))
  | inr e ↦ elim (Option-cases (index_of s sub)) [
    | inl none_left ↦ absurd (ground arith)
    | inr (k, found) ↦
        let later : suc k ≡ i = ground arith in
        let ih = index_of-some s sub k found in rw (← later) (ih.0, skip x s sub k e ih.1)
  ]
]
  where
    skip :
        (x : ℕ) (s sub : Text) (k : ℕ)
        → has_prefix (x ∷ s) sub ≡ false
        → ((j : ℕ) → j < k → has_prefix (drop j s) sub ≡ false)
        → (j : ℕ) → j < suc k
        → has_prefix (drop j (x ∷ s)) sub ≡ false
    skip x s sub k e h zero lt = e
    skip x s sub k e h (suc j) lt = h j (omega arith)

index_of-none :
    (s sub : Text) (j : ℕ)
    → index_of s sub ≡ none
    → j ≤ length s
    → has_prefix (drop j s) sub ≡ false
unfolding index_of
index_of-none [] sub zero h le = ground arith
index_of-none [] sub (suc j) h le = absurd (omega arith)
index_of-none (x ∷ s) sub zero h le = ground arith
index_of-none (x ∷ s) sub (suc j) h le = index_of-none s sub j (ground arith) (omega arith)

drop-drop {ℓ} : {A : Type ℓ} (m n : ℕ) (xs : List A) → drop n (drop m xs) ≡ drop (m + n) xs
drop-drop zero n xs = rw zero-add
drop-drop (suc m) zero [] = rw suc-add
drop-drop (suc m) (suc n) [] = rw suc-add
drop-drop (suc m) n (x ∷ xs) = rw (suc-add, drop-drop m n xs)

-- Every span reported is that of an occurrence.
occurrences_from_sound :
    (f : ℕ) (s sub : Text) (off : ℕ)
    → All
        (λ sp. OccursAt s sub sp.start × (sp.stop ≡ sp.start + length sub))
        (occurrences_from f s sub off)
unfolding occurrences_from
occurrences_from_sound zero s sub off = tt
occurrences_from_sound (suc f) s sub off = elim (Option-cases (index_of (drop off s) sub)) [
  | inl nowhere ↦ ground arith
  | inr (i, found) ↦
      let here : OccursAt s sub (off + i) =
        rw (← drop-drop off i s) ((index_of-some (drop off s) sub i found).0) in
      ground (arith, here, occurrences_from_sound f s sub (off + i + 1))
]

-- Every occurrence from the offset on is reported, given rounds enough.
occurrences_from_complete :
    (f : ℕ) (s sub : Text) (off i : ℕ)
    → length s ≤ off + f
    → off ≤ i
    → i < length s
    → OccursAt s sub i
    → Mem (span_at sub i) (occurrences_from f s sub off)
unfolding occurrences_from
occurrences_from_complete zero s sub off i fuel le lt h = absurd (omega arith)
occurrences_from_complete (suc f) s sub off i fuel le lt h =
    let inside : ltb off (length s) ≡ true = ground arith in
    let shifted : has_prefix (drop (i - off) (drop off s)) sub ≡ true =
      rw (drop-drop off (i - off) s) (rw back h) in
    elim (Option-cases (index_of (drop off s) sub)) [
      | inl nowhere ↦
          absurd
            (ground (arith, index_of-none (drop off s) sub (i - off) nowhere, length-drop off s))
      | inr (k, found) ↦
          let earliest = (index_of-some (drop off s) sub k found).1 (i - off) in
          let unrolled : occurrences_from (suc f) s sub off
              ≡ span_at sub (off + k) ∷ occurrences_from f s sub (off + k + 1) =
            ground arith in
          elim (dec_lt (off + k) i) [
            | yes later ↦
                let ih =
                  occurrences_from_complete f s sub (off + k + 1) i (omega arith) (omega arith) lt
                    h in
                rw unrolled (there ih)
            | no last ↦
                let same : i ≡ off + k = ground (arith, earliest) in rw (same, unrolled) here
          ]
    ]
  where
    back : off + (i - off) ≡ i
    back = omega arith

-- A span is reported for a non-empty text exactly when the text stands at its start and the span
-- has the text's length: overlapping occurrences are all found, whatever the bound on the rounds.
pub occurrences_iff :
    (s sub : Text) (sp : Span)
    → 0 < length sub
    → Mem sp (occurrences s sub) ↔ (OccursAt s sub sp.start × (sp.stop ≡ sp.start + length sub))
unfolding occurrences
occurrences_iff s sub sp ne = (
  λ m. All-mem _ m (occurrences_from_sound (length s) s sub 0),
  λ h.
      let inside : sp.start < length s = occurs_inside s sub sp.start ne h.0 in
      let e : span_at sub sp.start ≡ sp = ground arith in
      rw e at (
        occurrences_from_complete (length s) s sub 0 sp.start (omega arith) (omega arith) inside
          h.0),
)
