-- ===== src/Blacklist/Match/Cover.antt =====
-- The spans collected from the exceptions cover a place exactly when an exception does.
use miti99bot.Base.{
  ℕ, ◌+◌, ◌≤◌, ◌<◌, ◌≡◌, refl, ◌↔◌, inl, inr, false, ◌&&◌, none, some, List, [], ◌∷◌, arith, leb,
  Bool-cases, Option-cases, length, Mem, here, there, All, All-mem, All-append, mem-append_left,
  mem-append_right, Text, text_eq,
}
use miti99bot.Storage.Memory.{sort_keys}
use miti99bot.Storage.Memory.Order.{mem-sort_keys}
use miti99bot.Blacklist.Match.{
  Span, AllowSpan, occurrences, tag_spans, allow_spans_of, allow_spans, covered_by,
}
use miti99bot.Blacklist.Match.Occurrences.{OccursAt, span_at, occurrences_iff}

-- An exception of the list contains the span of `entry` at `i`.
pub record Covers (text : Text) (whitelist : List Text) (s : Span) (w : Text) (k : ℕ) : Type 0 where
  pub listed : Mem w whitelist
  pub nonempty : 0 < length w
  pub occurs : OccursAt text w k
  pub begins : k ≤ s.start
  pub ends : s.stop ≤ k + length w

-- No exception of the list contains the span.
abbrev pub Uncovered : Text → List Text → Span → Type 0
Uncovered text whitelist s = (w : Text) (k : ℕ) → ¬ Covers text whitelist s w k

pub length_pos : (w : Text) → text_eq w [] ≡ false → 0 < length w
unfolding text_eq
length_pos [] h = cc
length_pos (c ∷ w) h = omega arith

pub pos_ne : (w : Text) → 0 < length w → text_eq w [] ≡ false
unfolding text_eq
pos_ne [] h = absurd (omega arith)
pos_ne (c ∷ w) h = refl

mem-tag_spans :
    (e : Text) (s : Span) (ss : List Span)
    → Mem s ss
    → Mem (record { span = s; entry = e }) (tag_spans e ss)
mem-tag_spans e s [] m = elim m [ ]
mem-tag_spans e s (x ∷ ss) here = here
mem-tag_spans e s (x ∷ ss) (there m) = there (mem-tag_spans e s ss m)

-- Every span of an exception is in the list that `allowSpans` collects.
mem-allow_spans_of :
    (text w : Text) (s : Span) (es : List Text)
    → Mem w es
    → text_eq w [] ≡ false
    → Mem s (occurrences text w)
    → Mem (record { span = s; entry = w }) (allow_spans_of text es)
unfolding allow_spans_of
mem-allow_spans_of text w s [] n ne m = elim n [ ]
mem-allow_spans_of text w s (e ∷ es) here ne m =
    rw ne (mem-append_left _ (mem-tag_spans w s (occurrences text w) m))
mem-allow_spans_of text w s (e ∷ es) (there n) ne m =
    let ih = mem-allow_spans_of text w s es n ne m in
    elim (Bool-cases (text_eq e [])) [
      | inl empty ↦ rw empty ih
      | inr full ↦ rw full (mem-append_right (tag_spans e (occurrences text e)) ih)
    ]

-- What one collected span says.
abbrev IsAllowed : Text → List Text → AllowSpan → Type 0
IsAllowed text es a =
    Mem a.entry es × (text_eq a.entry [] ≡ false) × Mem a.span (occurrences text a.entry)

tag_spans-IsAllowed :
    (text e : Text) (es : List Text) (ss : List Span)
    → Mem e es
    → text_eq e [] ≡ false
    → ((s : Span) → Mem s ss → Mem s (occurrences text e))
    → All (IsAllowed text es) (tag_spans e ss)
tag_spans-IsAllowed text e es [] m ne inside = tt
tag_spans-IsAllowed text e es (s ∷ ss) m ne inside =
    ((m, ne, inside s here), tag_spans-IsAllowed text e es ss m ne (λ x n. inside x (there n)))

allow_spans_of-IsAllowed :
    (text : Text) (all es : List Text)
    → ((e : Text) → Mem e es → Mem e all)
    → All (IsAllowed text all) (allow_spans_of text es)
unfolding allow_spans_of
allow_spans_of-IsAllowed text all [] sub = tt
allow_spans_of-IsAllowed text all (e ∷ es) sub =
    let ih = allow_spans_of-IsAllowed text all es (λ x m. sub x (there m)) in
    elim (Bool-cases (text_eq e [])) [
      | inl empty ↦ rw empty ih
      | inr full ↦ rw full (
          All-append _ (tag_spans e (occurrences text e)) _
            (tag_spans-IsAllowed text e all (occurrences text e) (sub e here) full (λ s m. m)) ih)
    ]

covered_by-none :
    (s : Span) (a : AllowSpan) (as' : List AllowSpan)
    → covered_by s as' ≡ none
    → Mem a as'
    → a.span.start ≤ s.start
    → s.stop ≤ a.span.stop
    → ⊥
unfolding covered_by
covered_by-none s a [] h m p q = elim m [ ]
covered_by-none s a (x ∷ rest) h here p q = ground arith
covered_by-none s a (x ∷ rest) h (there m) p q = covered_by-none s a rest (ground arith) m p q

covered_by-some :
    (s : Span) (w : Text) (as' : List AllowSpan)
    → covered_by s as' ≡ some w
    → (a : AllowSpan) × Mem a as'
      × (a.entry ≡ w)
      × (a.span.start ≤ s.start)
      × (s.stop ≤ a.span.stop)
unfolding covered_by
covered_by-some s w [] h = cc
covered_by-some s w (x ∷ rest) h =
    elim (Bool-cases (leb x.span.start s.start && leb s.stop x.span.stop)) [
      | inl e ↦ (x, here, ground arith, ground arith, ground arith)
      | inr e ↦
          let (a, m, f, p, q) = covered_by-some s w rest (ground arith) in (a, there m, f, p, q)
    ]

-- No collected span covers exactly when no exception does.
pub Uncovered-iff :
    (text : Text) (whitelist : List Text) (s : Span)
    → (covered_by s (allow_spans text whitelist) ≡ none) ↔ Uncovered text whitelist s
unfolding allow_spans
Uncovered-iff text whitelist s = (forth, back)
  where
    forth :
        covered_by s (allow_spans_of text (sort_keys whitelist)) ≡ none → Uncovered text whitelist s
    forth h w k c =
        let sp = span_at w k in
        covered_by-none s (record { span = sp; entry = w }) _ h
          (mem-allow_spans_of text w sp (sort_keys whitelist)
            ((mem-sort_keys w whitelist).1 c.listed) (pos_ne w c.nonempty)
            ((occurrences_iff text w sp c.nonempty).1 (c.occurs, refl)))
          c.begins c.ends

    back :
        Uncovered text whitelist s → covered_by s (allow_spans_of text (sort_keys whitelist)) ≡ none
    back h = elim (Option-cases (covered_by s (allow_spans_of text (sort_keys whitelist)))) [
      | inl free ↦ free
      | inr (w, e) ↦
          let (a, m, f, p, q) = covered_by-some s w _ e in
          let (l, ne, o) = All-mem _ m (
            allow_spans_of-IsAllowed text (sort_keys whitelist) (sort_keys whitelist) (λ x n. n)) in
          let pos = length_pos a.entry ne in
          let (at, len) = (occurrences_iff text a.entry a.span pos).0 o in
          absurd (
            h a.entry a.span.start (record {
              listed = (mem-sort_keys a.entry whitelist).0 l;
              nonempty = pos;
              occurs = at;
              begins = p;
              ends = omega arith;
            }))
    ]
