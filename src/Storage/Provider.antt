-- ===== src/Storage/Provider.antt =====
-- Collections of modules (internal/storage/memory_provider.go, doc_store.go): one map of rows for
-- each module name, and a store that refuses everything for a name outside the alphabet.
use miti99bot.Base.{
  ℕ, ◌≡◌, refl, sym, ◌∙◌, ◌≢◌, Option, none, some, [], arith, if◌then◌else◌, Text, text_eq_iff,
  Dict, lookup, insert, lookup-insert,
}
use miti99bot.Storage.Contract.{invalid_module_name, err, DocStore}
use miti99bot.Storage.Memory.{
  Rows, mem_get, mem_put, mem_put_versioned, mem_delete, mem_list, mem_scan, is_collection_name,
}

-- `MemoryProvider.cols`
abbrev pub Provider : Type 0
Provider = Dict Rows

-- `memoryCollection` by its module name, and `invalidCollection`.
pub data Collection : Type 0 where
  memory invalid : Text → Collection

abbrev no_rows : Rows
no_rows = []

-- The rows of a module; none before its first use.
abbrev pub rows_of : Text → Provider → Rows
rows_of name cols = elim (lookup name cols) [ none ↦ [] | some rows ↦ rows ]

-- `MemoryProvider.Collection`
pub open_collection : Text → Provider → Collection × Provider
open_collection name cols =
    if is_collection_name name
    then elim (lookup name cols) [
      | none ↦ (memory name, insert name [] cols)
      | some rows ↦ (memory name, cols)
    ]
    else (invalid name, cols)

-- A write of one module's rows inside the provider.
abbrev pub within {ℓ} : {A : Type ℓ} → Text → (Rows → A × Rows) → Provider → A × Provider
within name f cols = let (r, rows) = f (rows_of name cols) in (r, insert name rows cols)

rows_of-insert_ne :
    (name other : Text) (rows : Rows) (cols : Provider)
    → name ≢ other
    → rows_of other (insert name rows cols) ≡ rows_of other cols
rows_of-insert_ne name other rows cols h =
    ground (arith, lookup-insert name other rows cols, text_eq_iff name other)

-- Taking a collection changes what no module sees.
pub open_collection-rows_of :
    (name other : Text) (cols : Provider)
    → rows_of other (open_collection name cols).1 ≡ rows_of other cols
unfolding open_collection
open_collection-rows_of name other cols =
    ground (arith, lookup-insert name other (no_rows) cols, text_eq_iff name other)

-- The collection that a name gets is its own, or refuses everything.
IsOwn : Text → Collection → Type 0
IsOwn name (memory m) = m ≡ name
IsOwn name (invalid m) = Unit

open_collection-IsOwn : (name : Text) (cols : Provider) → IsOwn name (open_collection name cols).0
unfolding open_collection IsOwn
open_collection-IsOwn name cols = ground arith

module _ {V : Type 0} (encode : V → Option Text) (decode : Text → Option V) where
  -- `invalidDocStore`
  abbrev pub invalid_store : DocStore Provider V
  invalid_store = record {
    get = λ k s. err invalid_module_name;
    put = λ k v s. (err invalid_module_name, s);
    put_versioned = λ k n v s. (err invalid_module_name, s);
    delete = λ k s. (err invalid_module_name, s);
    list = λ p s. err invalid_module_name;
    scan = λ p s. err invalid_module_name;
  }

  -- `Typed`
  pub typed : Collection → DocStore Provider V
  typed (invalid name) = invalid_store
  typed (memory name) = record {
    get = λ k s. mem_get encode decode k (rows_of name s);
    put = λ k v. within name (mem_put encode decode k v);
    put_versioned = λ k n v. within name (mem_put_versioned encode decode k n v);
    delete = λ k. within name (mem_delete k);
    list = λ p s. mem_list p (rows_of name s);
    scan = λ p s. mem_scan encode decode p (rows_of name s);
  }

  typed_other :
      (c : Collection) (name other : Text) (cols : Provider) (k : Text) (n : ℕ) (v : V)
      → IsOwn name c
      → name ≢ other
      → (rows_of other ((typed c).put k v cols).1 ≡ rows_of other cols)
        × (rows_of other ((typed c).put_versioned k n v cols).1 ≡ rows_of other cols)
        × (rows_of other ((typed c).delete k cols).1 ≡ rows_of other cols)
  unfolding typed IsOwn
  typed_other (invalid m) name other cols k n v own h = (refl, refl, refl)
  typed_other (memory m) name other cols k n v own h =
      let ne : m ≢ other = λ e. h (sym own ∙ e) in
      (
        rows_of-insert_ne m other _ cols ne,
        rows_of-insert_ne m other _ cols ne,
        rows_of-insert_ne m other _ cols ne,
      )

  -- What one module writes, in any way, leaves the rows of every other module as they were, whether
  -- the module's own name is a valid collection name or not.
  pub module_isolation :
      (name other : Text) (cols : Provider) (k : Text) (n : ℕ) (v : V)
      → name ≢ other
      → let (c, cols') = open_collection name cols in
        (rows_of other ((typed c).put k v cols').1 ≡ rows_of other cols)
        × (rows_of other ((typed c).put_versioned k n v cols').1 ≡ rows_of other cols)
        × (rows_of other ((typed c).delete k cols').1 ≡ rows_of other cols)
  module_isolation name other cols k n v h =
      let (c, cols') = open_collection name cols in
      let (p, q, r) = typed_other c name other cols' k n v (open_collection-IsOwn name cols) h in
      let e = open_collection-rows_of name other cols in (p ∙ e, q ∙ e, r ∙ e)
