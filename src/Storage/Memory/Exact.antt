-- ===== src/Storage/Memory/Exact.antt =====
-- The in-process backend answers exactly as the contract of `DocStore` documents.
use miti99bot.Base.{
  ℕ, ◌+◌, ◌≤◌, ◌≡◌, refl, sym, ap, ◌∙◌, inl, inr, Option, none, some, List, [], ◌∷◌, arith, ◌==◌,
  Bool-cases, Option-cases, All, Text, text_eq, has_prefix, text_lt, text_eq_refl, text_eq→eq,
  text_eq_iff, lookup, insert, erase, lookup-insert, lookup-erase, text_eq_refl,
}
use mathlib.Core.Path.{subst}
use miti99bot.Storage.Keys.{validate_key, validate_prefix}
use miti99bot.Storage.Contract.{ok, Doc, IsDocStore}
use miti99bot.Storage.Exact.{is_some, ids, IsRefusing, IsExact}
use miti99bot.Storage.Memory.{
  Row, Rows, row_version, insert_key, sort_keys, keys_under, insert_doc, sort_docs, version_matches,
  mem_get, mem_put, mem_put_versioned, mem_delete, mem_list, scan_rows, mem_scan, memory_store,
}
use miti99bot.Storage.Memory.Order.{is_stored, mem_list_lem}
use miti99bot.Storage.Memory.Laws.{mem_view, mem_version, memory_store-IsDocStore}

module _ {V : Type 0} where
  All-map :
      {P Q : Doc V → Type 0} (xs : List (Doc V)) → ((x : Doc V) → P x → Q x) → All P xs → All Q xs
  All-map [] f h = tt
  All-map (x ∷ xs) f h = (f x h.0, All-map xs f h.1)

  ids-insert_doc :
      (d : Doc V) (ds : List (Doc V)) → ids (insert_doc d ds) ≡ insert_key d.id (ids ds)
  unfolding insert_doc insert_key
  ids-insert_doc d [] = refl
  ids-insert_doc d (c ∷ ds) = ground (arith, ids-insert_doc d ds)

  ids-sort_docs : (ds : List (Doc V)) → ids (sort_docs ds) ≡ sort_keys (ids ds)
  unfolding sort_docs sort_keys
  ids-sort_docs [] = refl
  ids-sort_docs (d ∷ ds) = ids-insert_doc d (sort_docs ds) ∙ ap (insert_key d.id) (ids-sort_docs ds)

  All-insert_doc :
      (P : Doc V → Type 0) (d : Doc V) (ds : List (Doc V))
      → P d
      → All P ds
      → All P (insert_doc d ds)
  unfolding insert_doc
  All-insert_doc P d [] h hs = (h, tt)
  All-insert_doc P d (c ∷ ds) h hs = elim (Bool-cases (text_lt c.id d.id)) [
    | inl below ↦ rw below (hs.0, All-insert_doc P d ds h hs.1)
    | inr above ↦ rw above (h, hs)
  ]

  All-sort_docs : (P : Doc V → Type 0) (ds : List (Doc V)) → All P ds → All P (sort_docs ds)
  unfolding sort_docs
  All-sort_docs P [] h = tt
  All-sort_docs P (d ∷ ds) h = All-insert_doc P d (sort_docs ds) h.0 (All-sort_docs P ds h.1)

module _ {V : Type 0} (encode : V → Option Text) (decode : Text → Option V)
    (codec_round_trip : (v : V) (c : Text) → encode v ≡ some c → decode c ≡ some v) where
  -- Rows of this type of values, each key once, with the versions that writes give.
  abbrev pub IsGood : Rows → Type 0
  IsGood [] = Unit
  IsGood ((k, r) ∷ rows) =
      (lookup k rows ≡ none)
      × (1 ≤ r.version)
      × ((v : V) × (decode r.content ≡ some v))
      × IsGood rows

  abbrev pub CanEncode : V → Type 0
  CanEncode v = (c : Text) × (encode v ≡ some c)

  lookup-good :
      (k : Text) (r : Row) (rows : Rows)
      → IsGood rows
      → lookup k rows ≡ some r
      → (1 ≤ r.version) × ((v : V) × (decode r.content ≡ some v))
  unfolding lookup
  lookup-good k r [] good h = absurd (ground (arith, h))
  lookup-good k r ((j, q) ∷ rows) good h = elim (Bool-cases (text_eq j k)) [
    | inl e ↦ let same : q ≡ r = ground (arith, h, e) in rw (sym same) (good.1, good.2)
    | inr e ↦ lookup-good k r rows good.3 (ground (arith, h, e))
  ]

  insert-IsGood :
      (k : Text) (r : Row) (v : V) (rows : Rows)
      → IsGood rows
      → 1 ≤ r.version
      → decode r.content ≡ some v
      → IsGood (insert k r rows)
  unfolding lookup insert
  insert-IsGood k r v [] good b d = (refl, b, (v, d), tt)
  insert-IsGood k r v ((j, q) ∷ rows) good b d = elim (Bool-cases (text_eq j k)) [
    | inl e ↦ rw e (ground (arith, good.0, text_eq→eq j k e), b, (v, d), good.3)
    | inr e ↦ rw e (
      ground (arith, good.0, e, text_eq_iff j k, text_eq_iff k j, lookup-insert k j r rows),
      good.1,
      good.2,
      insert-IsGood k r v rows good.3 b d,
    )
  ]

  erase-IsGood : (k : Text) (rows : Rows) → IsGood rows → IsGood (erase k rows)
  unfolding lookup erase
  erase-IsGood k [] good = tt
  erase-IsGood k ((j, q) ∷ rows) good = elim (Bool-cases (text_eq j k)) [
    | inl e ↦ rw e (erase-IsGood k rows good.3)
    | inr e ↦
        rw e (
          ground (arith, good.0, lookup-erase k j rows),
          good.1,
          good.2,
          erase-IsGood k rows good.3,
        )
  ]

  scan_rows_lem :
      (p : Text) (rows : Rows)
      → IsGood rows
      → (docs : List (Doc V)) × (scan_rows encode decode p rows ≡ ok docs)
        × (ids docs ≡ keys_under p rows)
        × All (λ doc. mem_view decode rows doc.id ≡ some doc.val) docs
  unfolding scan_rows keys_under lookup
  scan_rows_lem p [] good = ([], refl, refl, tt)
  scan_rows_lem p ((k, r) ∷ rows) (fresh, b, (v, d), good) =
      let (docs, e, same, held) = scan_rows_lem p rows good in
      let later : All (λ doc. mem_view decode ((k, r) ∷ rows) doc.id ≡ some doc.val) docs =
        All-map docs (λ doc h. ground (arith, h, fresh, text_eq_iff k doc.id)) held in
      elim (Bool-cases (has_prefix k p)) [
        | inr out ↦ (docs, ground (arith, e, out), ground (arith, same, out), later)
        | inl under ↦ (
          record { id = k; val = v } ∷ docs,
          ground (arith, e, d, under),
          ground (arith, same, under),
          (ground (arith, d, text_eq_refl k), later),
        )
      ]

  view-stored :
      (k : Text) (rows : Rows) → IsGood rows → is_some (mem_view decode rows k) ≡ is_stored k rows
  unfolding is_stored
  view-stored k rows good = elim (Option-cases (lookup k rows)) [
    | inl e ↦ ground (arith, e)
    | inr (r, e) ↦ let (b, (v, d)) = lookup-good k r rows good e in ground (arith, e, d)
  ]

  version-found :
      (k : Text) (n : ℕ) (rows : Rows)
      → IsGood rows
      → version_matches n (lookup k rows) ≡ (n == mem_version rows k)
  unfolding version_matches
  version-found k n rows good = elim (Option-cases (lookup k rows)) [
    | inl e ↦ ground (arith, e)
    | inr (r, e) ↦ let (b, (v, d)) = lookup-good k r rows good e in ground (arith, e, b)
  ]

  put-IsGood :
      (k : Text) (v : V) (s : Rows)
      → IsGood s
      → validate_key k ≡ none
      → CanEncode v
      → ((mem_put encode decode k v s).0 ≡ ok tt) × IsGood (mem_put encode decode k v s).1
  unfolding mem_put
  put-IsGood k v s good valid (c, e) =
      let row : Row = record { version = row_version (lookup k s) + 1; content = c } in
      let run : mem_put encode decode k v s ≡ (ok tt, insert k row s) = ground (arith, valid, e) in
      (
        ap (λ x. x.0) run,
        subst (λ x. IsGood x.1) (sym run)
            (insert-IsGood k row v s good (omega arith) (codec_round_trip v c e)),
      )

  put_versioned-IsGood :
      (k : Text) (v : V) (s : Rows)
      → IsGood s
      → validate_key k ≡ none
      → CanEncode v
      → let result = mem_put_versioned encode decode k (mem_version s k) v s in
        (result.0 ≡ ok tt) × IsGood result.1
  unfolding mem_put_versioned
  put_versioned-IsGood k v s good valid (c, e) =
      let row : Row = record { version = row_version (lookup k s) + 1; content = c } in
      let run : mem_put_versioned encode decode k (mem_version s k) v s ≡ (ok tt, insert k row s) =
        ground (arith, valid, e, version-found k (mem_version s k) s good) in
      (
        ap (λ x. x.0) run,
        subst (λ x. IsGood x.1) (sym run)
            (insert-IsGood k row v s good (omega arith) (codec_round_trip v c e)),
      )

  delete-IsGood :
      (k : Text) (s : Rows)
      → IsGood s
      → validate_key k ≡ none
      → ((mem_delete k s).0 ≡ ok tt) × IsGood (mem_delete k s).1
  unfolding mem_delete
  delete-IsGood k s good valid =
      let run : mem_delete k s ≡ (ok tt, erase k s) = ground (arith, valid) in
      (ap (λ x. x.0) run, subst (λ x. IsGood x.1) (sym run) (erase-IsGood k s good))

  scan-good :
      (p : Text) (s : Rows)
      → IsGood s
      → validate_prefix p ≡ none
      → (docs : List (Doc V)) × (mem_scan encode decode p s ≡ ok docs)
        × (mem_list p s ≡ ok (ids docs))
        × All (λ doc. mem_view decode s doc.id ≡ some doc.val) docs
  unfolding mem_scan mem_list
  scan-good p s good valid =
      let (docs, e, same, held) = scan_rows_lem p s good in
      (
        sort_docs docs,
        ground (arith, valid, e),
        ground (arith, valid, same, ids-sort_docs docs),
        All-sort_docs (λ doc. mem_view decode s doc.id ≡ some doc.val) docs held,
      )

  memory_store-IsRefusing : IsRefusing (memory_store encode decode)
  unfolding mem_get mem_put mem_put_versioned mem_delete
  memory_store-IsRefusing k n v s x h =
      (ground (arith, h), ground (arith, h), ground (arith, h), ground (arith, h))

  memory_store-IsExact :
      IsExact (memory_store encode decode) (mem_view decode) mem_version IsGood CanEncode
  unfolding mem_get mem_put_versioned
  memory_store-IsExact = record {
    get_held = λ k v s good valid h. elim (Option-cases (lookup k s)) [
      | inl e ↦ absurd (ground (arith, h, e))
      | inr (r, e) ↦ ground (arith, valid, h, e)
    ];
    get_absent = λ k s good valid h. elim (Option-cases (lookup k s)) [
      | inl e ↦ ground (arith, valid, e)
      | inr (r, e) ↦ let (b, (v, d)) = lookup-good k r s good e in absurd (ground (arith, h, e, d))
    ];
    put_done = put-IsGood;
    put_versioned_done = put_versioned-IsGood;
    put_versioned_conflict = λ k n v s good valid (c, e) other.
        ground (arith, valid, e, version-found k n s good, other);
    delete_done = delete-IsGood;
    list_all = λ p s good valid.
        (let (ks, e, ascending, members) = mem_list_lem p s valid in
          (ks, e, ascending, λ k. ground (arith, members k, view-stored k s good)));
    scan_all = scan-good;
  }

  -- Provided that decoding gives back what was encoded, the in-process backend keeps the
  -- `DocStore` contract. Whatever the state: a read returns what is stored with its version; a
  -- plain and a versioned write that succeed store the value and raise the version of the key by
  -- one, and a versioned one only at the version it names; a delete clears the key; no write
  -- changes another key, nor a failed one any; and an invalid key is refused by every operation
  -- on it. In states whose rows decode, each key having one, with a version of at least 1, which
  -- the operations keep: a valid key is read if it is stored, and else is `ErrNotFound`; a plain
  -- write of a value that encodes and a delete succeed; a versioned write succeeds at the version
  -- of its key, 0 if it has none, and is `ErrConflict` at every other; and a list and a scan of a
  -- valid prefix give exactly the stored keys under it, in ascending order, the scan with their
  -- values.
  pub memory_store_lem :
      IsDocStore (memory_store encode decode) (mem_view decode) mem_version
      × IsRefusing (memory_store encode decode)
      × IsExact (memory_store encode decode) (mem_view decode) mem_version IsGood CanEncode
  memory_store_lem = (
    memory_store-IsDocStore encode decode codec_round_trip,
    memory_store-IsRefusing,
    memory_store-IsExact,
  )
