-- ===== src/Storage/Table.antt =====
-- The plainest store that keeps the contract: a table of values with versions somewhere in the
-- state. It never fails, and serves as the concrete store of tests.
use miti99bot.Base.{
  ℕ, suc, ◌≡◌, ap, inl, inr, Option, none, some, List, [], ◌∷◌, arith, ◌==◌, if◌then◌else◌,
  Bool-cases, Mem, here, there, Text, text_eq, has_prefix, text_eq→eq, Dict, lookup, insert, erase,
  lookup-insert, lookup-erase,
}
use miti99bot.Storage.Contract.{
  not_found, conflict, Result, ok, err, DocStore, IsDocStore, IsFramed,
}

abbrev pub Table : Type 0 → Type 0
Table V = Dict (V × ℕ)

abbrev pub entry_version : {V : Type 0} → Option (V × ℕ) → ℕ
entry_version none = 0
entry_version (some (v, n)) = n

abbrev pub entry_value : {V : Type 0} → Option (V × ℕ) → Option V
entry_value none = none
entry_value (some (v, n)) = some v

abbrev found : {V : Type 0} → Option (V × ℕ) → Result (V × ℕ)
found none = err not_found
found (some e) = ok e

-- The keys under a prefix, in the order of the table
unfoldable pub table_keys : {A : Type 0} → Text → Dict A → List Text
table_keys p [] = []
table_keys p ((k, a) ∷ t) = let rest = table_keys p t in if has_prefix k p then k ∷ rest else rest

pub table_keys_lem :
    {A : Type 0} (k : Text) (a : A) (t : Dict A) → lookup k t ≡ some a → Mem k (table_keys [] t)
unfolding lookup table_keys has_prefix
table_keys_lem k a [] h = absurd (ground (arith, h))
table_keys_lem k a ((j, b) ∷ t) h = elim (Bool-cases (text_eq j k)) [
  | inl e ↦ rw (text_eq→eq j k e) here
  | inr e ↦ there (table_keys_lem k a t (ground (arith, h, e)))
]

module _ {S V : Type 0} (table : S → Table V) (set_table : Table V → S → S) where
  abbrev pub table_view : S → Text → Option V
  table_view s k = entry_value (lookup k (table s))

  abbrev pub table_version : S → Text → ℕ
  table_version s k = entry_version (lookup k (table s))

  abbrev pub table_put : Text → V → S → S
  table_put k v s = set_table (insert k (v, suc (table_version s k)) (table s)) s

  abbrev pub table_store : DocStore S V
  table_store = record {
    get = λ k s. found (lookup k (table s));
    put = λ k v s. (ok tt, table_put k v s);
    put_versioned =
        λ k n v s. if table_version s k == n then (ok tt, table_put k v s) else (err conflict, s);
    delete = λ k s. (ok tt, set_table (erase k (table s)) s);
    list = λ p s. ok (table_keys p (table s));
    scan = λ p s. err not_found;
  }

  module _ (table-set : (t : Table V) (s : S) → table (set_table t s) ≡ t) where
    table_put_lem :
        (k j : Text) (v : V) (s : S)
        → (table_view (table_put k v s) j ≡ (if text_eq k j then some v else table_view s j))
          × (table_version (table_put k v s) j
              ≡ (if text_eq k j then suc (table_version s k) else table_version s j))
    table_put_lem k j v s = ground (
      arith,
      table-set (insert k (v, suc (table_version s k)) (table s)) s,
      lookup-insert k j (v, suc (table_version s k)) (table s),
    )

    pub table_store-IsDocStore : IsDocStore table_store table_view table_version
    table_store-IsDocStore = record {
      get_ok = λ k s v n h. ground arith;
      get_missing = λ k s h. ground arith;
      put_ok = λ k j v s h. table_put_lem k j v s;
      put_err = λ k v s e h. cc;
      put_versioned_ok = λ k j n v s h. ground (arith, table_put_lem k j v s);
      put_versioned_err = λ k n v s e h. ground arith;
      delete_ok =
          λ k j s h. ground (arith, table-set (erase k (table s)) s, lookup-erase k j (table s));
      delete_err = λ k s e h. cc;
    }

  pub table_store-IsFramed :
      {W : Type 0} (view : S → Text → Option W)
      → ((t : Table V) (s : S) → view (set_table t s) ≡ view s)
      → IsFramed table_store view
  table_store-IsFramed view same = record {
    put_other = λ k j v s h. ap (λ f. f j) (same _ s);
    delete_other = λ k j s h. ap (λ f. f j) (same _ s);
  }
