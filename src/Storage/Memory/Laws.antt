-- ===== src/Storage/Memory/Laws.antt =====
-- The in-process backend keeps the `DocStore` contract.
use miti99bot.Base.{
  ℕ, suc, ◌+◌, ◌≡◌, inl, inr, Option, none, some, arith, if◌then◌else◌, Option-cases, Text, text_eq,
  text_eq_iff, lookup, lookup-insert, lookup-erase,
}
use miti99bot.Storage.Contract.{ok, IsDocStore, IsFramed}
use miti99bot.Storage.Memory.{
  Rows, row_version, mem_get, mem_put, mem_put_versioned, mem_delete, memory_store,
}

-- The value of a key, decoded.
abbrev pub mem_view : {V : Type 0} → (Text → Option V) → Rows → Text → Option V
mem_view decode rows k = elim (lookup k rows) [ none ↦ none | some r ↦ decode r.content ]

abbrev pub mem_version : Rows → Text → ℕ
mem_version rows k = row_version (lookup k rows)

module _ {V : Type 0} (encode : V → Option Text) (decode : Text → Option V)
    (codec_round_trip : (v : V) (c : Text) → encode v ≡ some c → decode c ≡ some v) where
  mem_put_ok :
      (k j : Text) (v : V) (s : Rows)
      → (mem_put encode decode k v s).0 ≡ ok tt
      → (mem_view decode (mem_put encode decode k v s).1 j
          ≡ (if text_eq k j then some v else mem_view decode s j))
        × (mem_version (mem_put encode decode k v s).1 j
            ≡ (if text_eq k j then suc (mem_version s k) else mem_version s j))
  unfolding mem_put
  mem_put_ok k j v s h = elim (Option-cases (encode v)) [
    | inl failed ↦ ground arith
    | inr (c, e) ↦ ground (
      arith,
      codec_round_trip v c,
      lookup-insert k j (record { version = row_version (lookup k s) + 1; content = c }) s,
    )
  ]

  mem_put_versioned_ok :
      (k j : Text) (n : ℕ) (v : V) (s : Rows)
      → (mem_put_versioned encode decode k n v s).0 ≡ ok tt
      → (mem_version s k ≡ n)
        × (mem_view decode (mem_put_versioned encode decode k n v s).1 j
            ≡ (if text_eq k j then some v else mem_view decode s j))
        × (mem_version (mem_put_versioned encode decode k n v s).1 j
            ≡ (if text_eq k j then suc (mem_version s k) else mem_version s j))
  unfolding mem_put_versioned
  mem_put_versioned_ok k j n v s h = elim (Option-cases (encode v)) [
    | inl failed ↦ ground arith
    | inr (c, e) ↦ ground (
      arith,
      codec_round_trip v c,
      lookup-insert k j (record { version = row_version (lookup k s) + 1; content = c }) s,
    )
  ]

  -- Provided that decoding gives back what was encoded, the laws of `IsDocStore` hold in every
  -- state.
  pub memory_store-IsDocStore :
      IsDocStore (memory_store encode decode) (mem_view decode) mem_version
  unfolding mem_get mem_put mem_put_versioned mem_delete
  memory_store-IsDocStore = record {
    get_ok = λ k s v n h. ground arith;
    get_missing = λ k s h. ground arith;
    put_ok = mem_put_ok;
    put_err = λ k v s e h. ground arith;
    put_versioned_ok = mem_put_versioned_ok;
    put_versioned_err = λ k n v s e h. ground arith;
    delete_ok = λ k j s h. ground (arith, lookup-erase k j s);
    delete_err = λ k s e h. ground arith;
  }

-- A put or a delete through one typed view changes no other key of another typed view of the
-- collection.
pub memory_store-IsFramed :
    {V W : Type 0} (encode : V → Option Text) (decode : Text → Option V) (decode' : Text → Option W)
    → IsFramed (memory_store encode decode) (mem_view decode')
unfolding mem_put mem_delete
memory_store-IsFramed encode decode decode' = record {
  put_other = λ k j v s h. elim (Option-cases (encode v)) [
    | inl failed ↦ ground arith
    | inr (c, e) ↦ ground (
      arith,
      text_eq_iff k j,
      lookup-insert k j (record { version = row_version (lookup k s) + 1; content = c }) s,
    )
  ];
  delete_other = λ k j s h. ground (arith, text_eq_iff k j, lookup-erase k j s);
}
