-- ===== src/Alias/Inline/Answers.antt =====
-- The answer to an inline query, against its description.
use miti99bot.Base.{
  ℕ, zero, suc, ◌+◌, ◌≡◌, refl, sym, inl, inr, not, ◌&&◌, none, some, List, [], ◌∷◌, ◌++◌, arith,
  Bool-cases, Option-cases, length, take, keep, length-append, Text, text_eq, has_prefix,
}
use mathlib.Core.List.{append_assoc, append-nil}
use miti99bot.Chat.{trim_space}
use miti99bot.Storage.Contract.{ok, Doc, DocStore}
use miti99bot.Alias.{Alias}
use miti99bot.Alias.Inline.{
  max_inline_results, InlineResult, inline_result, collect_results, handle_inline,
}

module _ {E : Type 0} where
  -- The results of the entries that have one, in order
  unfoldable pub all_results : List (Doc (Alias E)) → List (InlineResult E)
  all_results [] = []
  all_results (doc ∷ docs) = elim (inline_result doc.id doc.val) [
    | none ↦ all_results docs
    | some r ↦ r ∷ all_results docs
  ]

  abbrev pub under : Text → List (Doc (Alias E)) → List (Doc (Alias E))
  under prefix docs = keep (λ doc. has_prefix doc.id prefix) docs

  under_step :
      (prefix : Text) (doc : Doc (Alias E)) (docs : List (Doc (Alias E)))
      → (not (text_eq prefix []) && not (has_prefix doc.id prefix)) ≡ not (has_prefix doc.id prefix)
  unfolding text_eq has_prefix
  under_step [] doc docs = refl
  under_step (c ∷ p) doc docs = refl

  collect_results_lem :
      (gap : ℕ) (prefix : Text) (results : List (InlineResult E)) (docs : List (Doc (Alias E)))
      → length results + suc gap ≡ max_inline_results
      → collect_results prefix results docs
        ≡ results ++ take (suc gap) (all_results (under prefix docs))
  unfolding collect_results all_results
  collect_results_lem gap prefix results [] h = sym (append-nil results)
  collect_results_lem zero prefix results (doc ∷ docs) h =
      elim (Bool-cases (has_prefix doc.id prefix)) [
        | inr other ↦ ground (
          arith,
          under_step prefix doc docs,
          other,
          collect_results_lem zero prefix results docs h,
        )
        | inl fits ↦ elim (Option-cases (inline_result doc.id doc.val)) [
          | inl n ↦ ground (
            arith,
            under_step prefix doc docs,
            fits,
            n,
            h,
            collect_results_lem zero prefix results docs h,
          )
          | inr (r, e) ↦
              ground (arith, under_step prefix doc docs, fits, e, h, length-append results (r ∷ []))
        ]
      ]
  collect_results_lem (suc gap) prefix results (doc ∷ docs) h =
      elim (Bool-cases (has_prefix doc.id prefix)) [
        | inr other ↦ ground (
          arith,
          under_step prefix doc docs,
          other,
          collect_results_lem (suc gap) prefix results docs h,
        )
        | inl fits ↦ elim (Option-cases (inline_result doc.id doc.val)) [
          | inl n ↦ ground (
            arith,
            under_step prefix doc docs,
            fits,
            n,
            h,
            collect_results_lem (suc gap) prefix results docs h,
          )
          | inr (r, e) ↦
              let longer = length-append results (r ∷ []) in
              ground (
                arith,
                under_step prefix doc docs,
                fits,
                e,
                h,
                longer,
                collect_results_lem gap prefix (results ++ r ∷ []) docs (omega arith),
                append_assoc results (r ∷ []) (take (suc gap) (all_results (under prefix docs))),
              )
        ]
      ]

  module _ {S : Type 0} (store : DocStore S (Alias E)) (to_lower : Text → Text) where
    -- When the store can be scanned, the answer to an inline query holds the results of the first
    -- 50 entries that have one and whose name begins with the query, trimmed and in lower case,
    -- in the order of the scan.
    pub handle_inline_lem :
        (query : Text) (s : S) (docs : List (Doc (Alias E)))
        → store.scan [] s ≡ ok docs
        → handle_inline store to_lower (some query) s
          ≡ some (take 50 (all_results (under (to_lower (trim_space query)) docs)))
    unfolding handle_inline
    handle_inline_lem query s docs h =
        ground (arith, h, collect_results_lem 49 (to_lower (trim_space query)) [] docs refl)
