-- ===== src/Blacklist/Match/Verdicts.antt =====
-- A text is blocked exactly when some occurrence of a forbidden text is covered by no exception.
use miti99bot.Base.{
  ℕ, ◌<◌, ◌≡◌, refl, ◌≢◌, ◌↔◌, ◌⊎◌, inl, inr, true, false, none, some, List, [], ◌∷◌, arith,
  if◌then◌else◌, Bool-cases, Option-cases, length, Mem, here, there, Text, text_eq,
}
use miti99bot.Storage.Memory.{sort_keys}
use miti99bot.Storage.Memory.Order.{mem-sort_keys}
use miti99bot.Blacklist.Match.{
  Verdict, no_verdict, Span, AllowSpan, occurrences, allow_spans, covered_by, Outcome, returned,
  carried, check_spans, check_entries, check,
}
use miti99bot.Blacklist.Match.Occurrences.{OccursAt, span_at, occurrences_iff, occurs_inside}
use miti99bot.Blacklist.Match.Cover.{Uncovered, length_pos, pos_ne, Uncovered-iff}

-- A forbidden text at a place where no exception covers it.
pub record Offence (text : Text) (blacklist whitelist : List Text) (entry : Text) (i : ℕ)
    : Type 0 where
  pub listed : Mem entry blacklist
  pub nonempty : 0 < length entry
  pub occurs : OccursAt text entry i
  pub uncovered : Uncovered text whitelist (span_at entry i)

-- An occurrence of a forbidden text under the spans of the exceptions.
record Hit (text : Text) (allowed : List AllowSpan) (es : List Text) (entry : Text) (s : Span)
    : Type 0 where
  hit_listed : Mem entry es
  hit_nonempty : text_eq entry [] ≡ false
  hit_occurs : Mem s (occurrences text entry)
  hit_free : covered_by s allowed ≡ none

Outcome-cases :
    (o : Outcome) → ((v : Verdict) × (o ≡ returned v)) ⊎ ((v : Verdict) × (o ≡ carried v))
Outcome-cases (returned v) = inl (v, refl)
Outcome-cases (carried v) = inr (v, refl)

module _ (entry : Text) (allowed : List AllowSpan) where
  check_spans-returned :
      (rescued v : Verdict) (ss : List Span)
      → check_spans entry allowed rescued ss ≡ returned v
      → (v ≡ record { blocked = true; entry = entry; rescued_by = [] })
        × (s : Span) × Mem s ss
        × (covered_by s allowed ≡ none)
  unfolding check_spans
  check_spans-returned rescued v [] h = cc
  check_spans-returned rescued v (s ∷ ss) h = elim (Option-cases (covered_by s allowed)) [
    | inl free ↦ (ground arith, s, here, free)
    | inr (by, e) ↦
        let (same, s', m, free) =
          check_spans-returned
            (if text_eq rescued.entry []
              then record { blocked = false; entry = entry; rescued_by = by }
              else rescued)
            v ss (ground arith) in
        (same, s', there m, free)
  ]

  check_spans-carried :
      (rescued v : Verdict) (ss : List Span)
      → check_spans entry allowed rescued ss ≡ carried v
      → rescued.blocked ≡ false
      → (v.blocked ≡ false) × ((s : Span) → Mem s ss → covered_by s allowed ≢ none)
  unfolding check_spans
  check_spans-carried rescued v [] h b = (ground arith, λ s m. elim m [ ])
  check_spans-carried rescued v (s ∷ ss) h b = elim (Option-cases (covered_by s allowed)) [
    | inl free ↦ absurd (ground arith)
    | inr (by, e) ↦
        let next : Verdict =
          (if text_eq rescued.entry []
            then record { blocked = false; entry = entry; rescued_by = by }
            else rescued) in
        let (kept, none_free) = check_spans-carried next v ss (ground arith) (ground arith) in
        (kept, λ x m. rest_covered s x ss by e none_free m)
  ]
    where
      rest_covered :
          (s x : Span) (ss : List Span) (by : Text)
          → covered_by s allowed ≡ some by
          → ((y : Span) → Mem y ss → covered_by y allowed ≢ none)
          → Mem x (s ∷ ss)
          → covered_by x allowed ≢ none
      rest_covered s x ss by e h here = λ n. cc
      rest_covered s x ss by e h (there m) = h x m

module _ (text : Text) (allowed : List AllowSpan) where
  Hit-later :
      (e : Text) (es : List Text) (entry : Text) (s : Span)
      → Hit text allowed es entry s
      → Hit text allowed (e ∷ es) entry s
  Hit-later e es entry s h = record {
    hit_listed = there h.hit_listed;
    hit_nonempty = h.hit_nonempty;
    hit_occurs = h.hit_occurs;
    hit_free = h.hit_free;
  }

  check_entries-blocked :
      (rescued : Verdict) (es : List Text)
      → rescued.blocked ≡ false
      → (check_entries text allowed rescued es).blocked ≡ true
      → (s : Span) × Hit text allowed es (check_entries text allowed rescued es).entry s
  unfolding check_entries
  check_entries-blocked rescued [] b h = absurd (ground arith)
  check_entries-blocked rescued (e ∷ es) b h = elim (Bool-cases (text_eq e [])) [
    | inl empty ↦
        let (s, hit) = check_entries-blocked rescued es b (ground arith) in
        rw (empty, check_entries) (s, Hit-later e es _ s hit)
    | inr full ↦ elim (Outcome-cases (check_spans e allowed rescued (occurrences text e))) [
      | inl (v, ends) ↦
          let (same, s, m, free) =
            check_spans-returned e allowed rescued v (occurrences text e) ends in
          let result : (check_entries text allowed rescued (e ∷ es)).entry ≡ e = ground arith in
          rw result
            (s, record { hit_listed = here; hit_nonempty = full; hit_occurs = m; hit_free = free })
      | inr (v, goes) ↦
          let kept = (check_spans-carried e allowed rescued v (occurrences text e) goes b).0 in
          let same : check_entries text allowed rescued (e ∷ es) ≡ check_entries text allowed v es =
            ground arith in
          let (s, hit) = check_entries-blocked v es kept (rw same at h) in
          rw same (s, Hit-later e es _ s hit)
    ]
  ]

  check_entries-hit :
      (rescued : Verdict) (es : List Text) (e : Text) (s : Span)
      → rescued.blocked ≡ false
      → Mem e es
      → text_eq e [] ≡ false
      → Mem s (occurrences text e)
      → covered_by s allowed ≡ none
      → (check_entries text allowed rescued es).blocked ≡ true
  unfolding check_entries
  check_entries-hit rescued [] e s b m ne o free = elim m [ ]
  check_entries-hit rescued (x ∷ es) e s b here ne o free =
      elim (Outcome-cases (check_spans e allowed rescued (occurrences text e))) [
        | inl (v, ends) ↦
            ground (arith, (check_spans-returned e allowed rescued v (occurrences text e) ends).0)
        | inr (v, goes) ↦
            absurd
              ((check_spans-carried e allowed rescued v (occurrences text e) goes b).1 s o free)
      ]
  check_entries-hit rescued (x ∷ es) e s b (there m) ne o free =
      elim (Outcome-cases (check_spans x allowed rescued (occurrences text x))) [
        | inl (v, ends) ↦ ground (
          arith,
          (check_spans-returned x allowed rescued v (occurrences text x) ends).0,
          check_entries-hit rescued es e s b m ne o free,
        )
        | inr (v, goes) ↦ ground (
          arith,
          check_entries-hit rescued es e s b m ne o free,
          check_entries-hit v es e s
              (check_spans-carried x allowed rescued v (occurrences text x) goes b).0 m ne o free,
        )
      ]

check_both :
    (text : Text) (blacklist whitelist : List Text)
    → ((check text blacklist whitelist).blocked ≡ true
        → (i : ℕ) × Offence text blacklist whitelist (check text blacklist whitelist).entry i)
      × ((entry : Text) (i : ℕ)
          → Offence text blacklist whitelist entry i
          → (check text blacklist whitelist).blocked ≡ true)
unfolding check
check_both [] blacklist whitelist = (
  λ h. absurd (unfold text_eq in ground arith),
  λ entry i o. absurd (omega (arith, occurs_inside [] entry i o.nonempty o.occurs)),
)
check_both (c ∷ cs) blacklist whitelist = (forth, back)
  where
    allowed : List AllowSpan
    allowed = allow_spans (c ∷ cs) whitelist

    found : Verdict
    found = check_entries (c ∷ cs) allowed no_verdict (sort_keys blacklist)

    same : check (c ∷ cs) blacklist whitelist ≡ found
    same = unfold text_eq in refl

    forth :
        (check (c ∷ cs) blacklist whitelist).blocked ≡ true
        → (i : ℕ) × Offence
            (c ∷ cs)
            blacklist
            whitelist
            (check (c ∷ cs) blacklist whitelist).entry
            i
    forth h =
        let (s, hit) =
          check_entries-blocked (c ∷ cs) allowed no_verdict (sort_keys blacklist) refl
            (rw same at h) in
        let pos = length_pos found.entry hit.hit_nonempty in
        let (at, len) = (occurrences_iff (c ∷ cs) found.entry s pos).0 hit.hit_occurs in
        let e : s ≡ span_at found.entry s.start = ground arith in
        rw same (
          s.start,
          record {
            listed = (mem-sort_keys found.entry blacklist).0 hit.hit_listed;
            nonempty = pos;
            occurs = at;
            uncovered = rw e at ((Uncovered-iff (c ∷ cs) whitelist s).0 hit.hit_free);
          },
        )

    back :
        (entry : Text) (i : ℕ)
        → Offence (c ∷ cs) blacklist whitelist entry i
        → (check (c ∷ cs) blacklist whitelist).blocked ≡ true
    back entry i o = rw same (
        check_entries-hit (c ∷ cs) allowed no_verdict (sort_keys blacklist) entry (span_at entry i)
          refl ((mem-sort_keys entry blacklist).1 o.listed) (pos_ne entry o.nonempty)
          ((occurrences_iff (c ∷ cs) entry (span_at entry i) o.nonempty).1 (o.occurs, refl))
          ((Uncovered-iff (c ∷ cs) whitelist (span_at entry i)).1 o.uncovered))

-- A text is blocked exactly when some listed forbidden text stands in it at a place that no listed
-- exception covers, wherever else exceptions stand. Empty entries of either list never matter, nor
-- does the order of the lists.
pub check_iff :
    (text : Text) (blacklist whitelist : List Text)
    → ((check text blacklist whitelist).blocked ≡ true)
      ↔ ((entry : Text) × (i : ℕ) × Offence text blacklist whitelist entry i)
check_iff text blacklist whitelist =
    let (forth, back) = check_both text blacklist whitelist in
    (λ h. ((check text blacklist whitelist).entry, (forth h).0, (forth h).1), λ o. back o.0 o.1 o.2)

-- The entry that a blocking verdict names is a listed forbidden text that stands in the text at a
-- place that no exception covers.
pub check_names :
    (text : Text) (blacklist whitelist : List Text)
    → (check text blacklist whitelist).blocked ≡ true
    → (i : ℕ) × Offence text blacklist whitelist (check text blacklist whitelist).entry i
check_names text blacklist whitelist = (check_both text blacklist whitelist).0
