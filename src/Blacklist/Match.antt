-- ===== src/Blacklist/Match.antt =====
-- Judging a text (internal/modules/blacklist/match.go). A Go slice is a list, and `slices.Sorted`
-- is the sort of the store's listing, both by byte order.
pub mod Occurrences
pub mod Cover
pub mod Verdicts
use miti99bot.Base.{
  ℕ, zero, suc, ◌+◌, Bool, true, false, not, ◌&&◌, Option, none, some, List, [], ◌∷◌, ◌++◌, map,
  ltb, leb, if◌then◌else◌, length, drop, there, Text, text_eq, has_prefix,
}
use mathlib.Core.Option
use miti99bot.Storage.Memory.{sort_keys}

-- `Verdict`; the entries are empty when there is none.
pub record Verdict : Type 0 where
  pub blocked : Bool
  pub entry : Text
  pub rescued_by : Text

abbrev pub no_verdict : Verdict
no_verdict = record { blocked = false; entry = []; rescued_by = [] }

-- `span`: from `start` up to, not including, `stop`.
pub record Span : Type 0 where
  pub start : ℕ
  pub stop : ℕ

-- `allowSpan`
pub record AllowSpan : Type 0 where
  pub span : Span
  pub entry : Text

-- `strings.Index`
pub index_of : Text → Text → Option ℕ
index_of [] sub = if has_prefix [] sub then some 0 else none
index_of (x ∷ s) sub =
    let rest = Option.map suc (index_of s sub) in if has_prefix (x ∷ s) sub then some 0 else rest

-- The loop of `occurrences` from an offset; the first argument bounds the rounds.
pub occurrences_from : ℕ → Text → Text → ℕ → List Span
occurrences_from zero s sub off = []
occurrences_from (suc f) s sub off = elim (ltb off (length s)) [
  | false ↦ []
  | true ↦ elim (index_of (drop off s) sub) [
    | none ↦ []
    | some i ↦
        record { start = off + i; stop = off + i + length sub }
        ∷ occurrences_from f s sub (off + i + 1)
  ]
]

-- Each round moves the offset on, so the length of the text bounds the rounds.
unfoldable pub occurrences : Text → Text → List Span
unfolding occurrences_from index_of
occurrences s sub = occurrences_from (length s) s sub 0

-- The inner loop of `allowSpans`
abbrev pub tag_spans : Text → List Span → List AllowSpan
tag_spans entry [] = []
tag_spans entry (s ∷ ss) = record { span = s; entry = entry } ∷ tag_spans entry ss

pub allow_spans_of : Text → List Text → List AllowSpan
allow_spans_of text [] = []
allow_spans_of text (entry ∷ es) =
    let rest = allow_spans_of text es in
    if text_eq entry [] then rest else tag_spans entry (occurrences text entry) ++ rest

unfoldable pub allow_spans : Text → List Text → List AllowSpan
unfolding allow_spans_of occurrences
allow_spans text whitelist = allow_spans_of text (sort_keys whitelist)

-- `coveredBy`
unfoldable pub covered_by : Span → List AllowSpan → Option Text
covered_by s [] = none
covered_by s (a ∷ rest) =
    let later = covered_by s rest in
    if leb a.span.start s.start && leb s.stop a.span.stop then some a.entry else later

-- What the loop over the occurrences of one entry ends with: a blocking verdict, or the first
-- rescue.
pub data Outcome : Type 0 where
  returned : Verdict → Outcome
  carried : Verdict → Outcome

pub check_spans : Text → List AllowSpan → Verdict → List Span → Outcome
check_spans entry allowed rescued [] = carried rescued
check_spans entry allowed rescued (s ∷ ss) = elim (covered_by s allowed) [
  | none ↦ returned (record { blocked = true; entry = entry; rescued_by = [] })
  | some by ↦
      check_spans entry allowed
        (if text_eq rescued.entry []
          then record { blocked = false; entry = entry; rescued_by = by }
          else rescued)
        ss
]

pub check_entries : Text → List AllowSpan → Verdict → List Text → Verdict
check_entries text allowed rescued [] = rescued
check_entries text allowed rescued (entry ∷ es) = elim (text_eq entry []) [
  | true ↦ check_entries text allowed rescued es
  | false ↦ elim (check_spans entry allowed rescued (occurrences text entry)) [
    | returned v ↦ v
    | carried rescued' ↦ check_entries text allowed rescued' es
  ]
]

-- `Check`
unfoldable pub check : Text → List Text → List Text → Verdict
unfolding check_entries check_spans covered_by allow_spans sort_keys
check norm_text blacklist whitelist =
    if text_eq norm_text []
    then no_verdict
    else check_entries norm_text (allow_spans norm_text whitelist) no_verdict (sort_keys blacklist)
