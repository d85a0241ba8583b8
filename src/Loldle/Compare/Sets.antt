-- ===== src/Loldle/Compare/Sets.antt =====
-- Comparing two sets of words.
use miti99bot.Base.{
  suc, ◌≤◌, ◌≡◌, refl, ◌↔◌, inl, inr, Bool, true, false, not, ◌&&◌, ◌||◌, List, [], ◌∷◌, ◌++◌,
  arith, ◌==◌, if◌then◌else◌, Bool-cases, length, Text, text_eq, text_eq_refl, text_eq→eq,
  text_eq_iff,
}
use miti99bot.Chat.{trim_space}
use miti99bot.Loldle.Compare.{
  outcome_correct, outcome_wrong, has_element, lower_set_from, to_lower_set, all_in, sets_equal,
  any_in, outcome_of, compare_multi_value,
}

-- No element twice
NoRepeats : List Text → Type 0
NoRepeats [] = Unit
NoRepeats (x ∷ xs) = (has_element x xs ≡ false) × NoRepeats xs

has_element-append :
    (x y : Text) (xs : List Text) → has_element x (xs ++ y ∷ []) ≡ (has_element x xs || text_eq y x)
unfolding has_element
has_element-append x y [] = ground arith
has_element-append x y (z ∷ xs) = ground (arith, has_element-append x y xs)

NoRepeats-append :
    (xs : List Text) (y : Text) → NoRepeats xs → has_element y xs ≡ false → NoRepeats (xs ++ y ∷ [])
unfolding NoRepeats has_element
NoRepeats-append [] y h k = (refl, tt)
NoRepeats-append (x ∷ xs) y h k = (
  ground (arith, has_element-append x y xs, text_eq_iff x y, text_eq_iff y x, h),
  NoRepeats-append xs y h.1 (ground (arith, k)),
)

lower_set_from-NoRepeats :
    (to_lower : Text → Text) (set xs : List Text)
    → NoRepeats set
    → NoRepeats (lower_set_from to_lower set xs)
unfolding lower_set_from
lower_set_from-NoRepeats to_lower set [] h = h
lower_set_from-NoRepeats to_lower set (s ∷ xs) h =
    let t = trim_space (to_lower s) in
    elim (Bool-cases (text_eq t [])) [
      | inl e ↦ rw (e, lower_set_from) (lower_set_from-NoRepeats to_lower set xs h)
      | inr e ↦ elim (Bool-cases (has_element t set)) [
        | inl f ↦ rw (e, f, lower_set_from) (lower_set_from-NoRepeats to_lower set xs h)
        | inr f ↦
            rw (e, f, lower_set_from)
              (lower_set_from-NoRepeats to_lower (set ++ t ∷ []) xs (NoRepeats-append set t h f))
      ]
    ]

-- The elements but one
without : Text → List Text → List Text
without x [] = []
without x (y ∷ ys) = let rest = without x ys in if text_eq y x then ys else y ∷ rest

length-without :
    (x : Text) (ys : List Text) → has_element x ys ≡ true → length ys ≡ suc (length (without x ys))
unfolding has_element without
length-without x [] h = absurd (ground arith)
length-without x (y ∷ ys) h = ground (arith, length-without x ys)

has_element-without :
    (x z : Text) (ys : List Text)
    → text_eq x z ≡ false
    → has_element z (without x ys) ≡ has_element z ys
unfolding has_element without
has_element-without x z [] h = refl
has_element-without x z (y ∷ ys) h =
    ground (arith, has_element-without x z ys, text_eq_iff x z, text_eq_iff y x, text_eq_iff y z)

-- `a` is part of `b`.
IsWithin : List Text → List Text → Type 0
IsWithin a b = (x : Text) → has_element x a ≡ true → has_element x b ≡ true

IsWithin-tail :
    (x : Text) (a b : List Text)
    → has_element x a ≡ false
    → IsWithin (x ∷ a) b
    → IsWithin a (without x b)
unfolding IsWithin has_element
IsWithin-tail x a b new h z k = elim (Bool-cases (text_eq x z)) [
  | inl e ↦ let same = text_eq→eq x z e in absurd (ground (arith, new, k, same))
  | inr e ↦ ground (arith, has_element-without x z b e, h z, k)
]

-- A part without repeats is no longer than the whole, and if it is as long then it is the whole.
pigeonhole :
    (a b : List Text)
    → NoRepeats a
    → IsWithin a b
    → (length a ≤ length b) × (length a ≡ length b → IsWithin b a)
unfolding NoRepeats IsWithin has_element
pigeonhole [] [] n h = (omega arith, λ e x k. k)
pigeonhole [] (y ∷ b) n h = (omega arith, λ e. absurd (omega arith))
pigeonhole (x ∷ a) b n h =
    let found : has_element x b ≡ true = h x (ground (arith, text_eq_refl x)) in
    let shorter = length-without x b found in
    let (le, back) = pigeonhole a (without x b) n.1 (IsWithin-tail x a b n.0 h) in
    (
      omega (arith, le, shorter),
      λ e z k. elim (Bool-cases (text_eq x z)) [
        | inl same ↦ ground (arith, same)
        | inr other ↦
            ground (arith, back (omega (arith, e, shorter)) z, has_element-without x z b other, k)
      ],
    )

all_in_iff : (a b : List Text) → (all_in a b ≡ true) ↔ IsWithin a b
unfolding all_in IsWithin has_element
all_in_iff [] b = ((λ h x k. absurd (ground arith)), (λ h. refl))
all_in_iff (y ∷ a) b =
    let (f, g) = all_in_iff a b in
    (
      (λ h x k. elim (Bool-cases (text_eq y x)) [
        | inl e ↦ ground (arith, h, text_eq→eq y x e)
        | inr e ↦ f (ground (arith, h)) x (ground (arith, e, k))
      ]),
      (λ h. ground (arith, h y, text_eq_refl y, g (λ x k. h x (ground (arith, k))))),
    )

any_in_iff :
    (a b : List Text)
    → (any_in a b ≡ false) ↔ ((x : Text) → (has_element x a && has_element x b) ≡ false)
unfolding any_in has_element
any_in_iff [] b = ((λ h x. refl), (λ h. refl))
any_in_iff (y ∷ a) b =
    let (f, g) = any_in_iff a b in
    (
      (λ h x. elim (Bool-cases (text_eq y x)) [
        | inl e ↦ ground (arith, h, text_eq→eq y x e)
        | inr e ↦ ground (arith, e, h, f (ground (arith, h)) x)
      ]),
      (λ h. ground (arith, h y, text_eq_refl y, g (λ x. ground (arith, h x)))),
    )

sets_equal_iff :
    (a b : List Text)
    → NoRepeats a
    → NoRepeats b
    → (sets_equal a b ≡ true) ↔ ((x : Text) → has_element x a ≡ has_element x b)
unfolding sets_equal IsWithin
sets_equal_iff a b na nb = (
  (λ h.
      let within = (all_in_iff a b).0 (ground (arith, h)) in
      let back = (pigeonhole a b na within).1 (ground (arith, h)) in
      λ x. ground (arith, within x, back x)),
  (λ h.
      let within : IsWithin a b = λ x k. ground (arith, h x, k) in
      let back : IsWithin b a = λ x k. ground (arith, h x, k) in
      ground (
        arith,
        (pigeonhole a b na within).0,
        (pigeonhole b a nb back).0,
        (all_in_iff a b).1 within,
      )),
)

-- `x` is one of the words, in lower case and without white space around; the empty word is none.
pub is_word : (Text → Text) → Text → List Text → Bool
is_word to_lower x [] = false
is_word to_lower x (s ∷ xs) =
    (text_eq (trim_space (to_lower s)) x && not (text_eq x [])) || is_word to_lower x xs

has_element-lower_set_from :
    (to_lower : Text → Text) (x : Text) (set xs : List Text)
    → has_element x (lower_set_from to_lower set xs) ≡ (has_element x set || is_word to_lower x xs)
unfolding lower_set_from is_word
has_element-lower_set_from to_lower x set [] = ground arith
has_element-lower_set_from to_lower x set (s ∷ xs) =
    let t = trim_space (to_lower s) in
    ground (
      arith,
      has_element-lower_set_from to_lower x set xs,
      has_element-lower_set_from to_lower x (set ++ t ∷ []) xs,
      has_element-append x t set,
      text_eq_iff t x,
      text_eq_iff t [],
      text_eq_iff x [],
    )

to_lower_set-is_word :
    (to_lower : Text → Text) (x : Text) (xs : List Text)
    → has_element x (to_lower_set to_lower xs) ≡ is_word to_lower x xs
unfolding to_lower_set has_element
to_lower_set-is_word to_lower x xs = ground (arith, has_element-lower_set_from to_lower x [] xs)

to_lower_set-NoRepeats :
    (to_lower : Text → Text) (xs : List Text) → NoRepeats (to_lower_set to_lower xs)
unfolding to_lower_set NoRepeats
to_lower_set-NoRepeats to_lower xs = lower_set_from-NoRepeats to_lower [] xs tt

-- The two lists hold the same words.
abbrev pub SameWords : (Text → Text) → List Text → List Text → Type 0
SameWords to_lower guess target = (x : Text) → is_word to_lower x guess ≡ is_word to_lower x target

empty-set : (xs : List Text) → (length xs == 0) ≡ true → (x : Text) → has_element x xs ≡ false
unfolding has_element
empty-set [] h x = refl
empty-set (y ∷ xs) h x = absurd (ground arith)

full-set : (xs : List Text) → (length xs == 0) ≡ false → (x : Text) × (has_element x xs ≡ true)
unfolding has_element
full-set [] h = absurd (ground arith)
full-set (y ∷ xs) h = (y, ground (arith, text_eq_refl y))

sets-outcome :
    (g t : List Text)
    → NoRepeats g
    → NoRepeats t
    → let out = outcome_of g t in
      ((out ≡ outcome_correct) ↔ ((x : Text) → has_element x g ≡ has_element x t))
      × ((out ≡ outcome_wrong) ↔ (
          ((x : Text) → (has_element x g && has_element x t) ≡ false)
          × ¬ ((x : Text) → has_element x g ≡ has_element x t)))
unfolding outcome_of
sets-outcome g t ng nt =
    let (same_f, same_g) = sets_equal_iff g t ng nt in
    let (any_f, any_g) = any_in_iff g t in
    elim (Bool-cases (length g == 0)) [
      | inl eg ↦ elim (Bool-cases (length t == 0)) [
        | inl et ↦
            let same : (x : Text) → has_element x g ≡ has_element x t =
              λ x. ground (arith, empty-set g eg x, empty-set t et x) in
            (
              ((λ h. same), (λ h. ground (arith, eg, et))),
              ((λ h. absurd (ground (arith, eg, et, h))), (λ h. absurd (h.1 same))),
            )
        | inr et ↦
            let (w, k) = full-set t et in
            (
              (
                (λ h. absurd (ground (arith, eg, et, h))),
                (λ h. absurd (ground (arith, h w, k, empty-set g eg w))),
              ),
              (
                (λ h. (
                  (λ x. ground (arith, empty-set g eg x)),
                  (λ h. ground (arith, h w, k, empty-set g eg w)),
                )),
                (λ h. ground (arith, eg, et)),
              ),
            )
      ]
      | inr eg ↦
          let (v, l) = full-set g eg in
          elim (Bool-cases (length t == 0)) [
            | inl et ↦ (
              (
                (λ h. absurd (ground (arith, eg, et, h))),
                (λ h. absurd (ground (arith, h v, l, empty-set t et v))),
              ),
              (
                (λ h. (
                  (λ x. ground (arith, empty-set t et x)),
                  (λ h. ground (arith, h v, l, empty-set t et v)),
                )),
                (λ h. ground (arith, eg, et)),
              ),
            )
            | inr et ↦ elim (Bool-cases (sets_equal g t)) [
              | inl es ↦ (
                ((λ h. same_f es), (λ h. ground (arith, eg, et, es))),
                ((λ h. absurd (ground (arith, eg, et, es, h))), (λ h. absurd (h.1 (same_f es)))),
              )
              | inr es ↦ (
                (
                  (λ h. absurd (ground (arith, eg, et, es, h))),
                  (λ h. absurd (ground (arith, same_g h, es))),
                ),
                (
                  (λ h.
                      (any_f (ground (arith, eg, et, es, h)), (λ k. ground (arith, same_g k, es)))),
                  (λ h. ground (arith, eg, et, es, any_g h.0)),
                ),
              )
            ]
          ]
    ]

-- A guessed list of values is correct exactly if it names the same words as the target's,
-- whatever the order, the repeats, the case and the white space around; and wrong exactly if the
-- two differ and share no word. So it is partial exactly if they differ and share one.
pub compare_multi_value_lem :
    (to_lower : Text → Text) (guess target : List Text)
    → ((compare_multi_value to_lower guess target ≡ outcome_correct)
        ↔ SameWords to_lower guess target)
      × ((compare_multi_value to_lower guess target ≡ outcome_wrong) ↔ (
          ((x : Text) → (is_word to_lower x guess && is_word to_lower x target) ≡ false)
          × ¬ SameWords to_lower guess target))
unfolding compare_multi_value
compare_multi_value_lem to_lower guess target =
    let g = to_lower_set to_lower guess in
    let t = to_lower_set to_lower target in
    let eg = λ (x : Text). to_lower_set-is_word to_lower x guess in
    let et = λ (x : Text). to_lower_set-is_word to_lower x target in
    let ((cf, cg), (wf, wg)) =
      sets-outcome g t (to_lower_set-NoRepeats to_lower guess)
        (to_lower_set-NoRepeats to_lower target) in
    (
      (
        (λ h x. ground (arith, cf h x, eg x, et x)),
        (λ h. cg (λ x. ground (arith, h x, eg x, et x))),
      ),
      (
        (λ h. (
          (λ x. ground (arith, (wf h).0 x, eg x, et x)),
          (λ k. (wf h).1 (λ x. ground (arith, k x, eg x, et x))),
        )),
        (λ h. wg (
          (λ x. ground (arith, h.0 x, eg x, et x)),
          (λ k. h.1 (λ x. ground (arith, k x, eg x, et x))),
        )),
      ),
    )
