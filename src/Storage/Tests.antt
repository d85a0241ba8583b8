-- ===== src/Storage/Tests.antt =====
-- The storage theorems at concrete inputs. Values are texts, stored as they are.
use miti99bot.Base.{
  ◌≡◌, refl, sym, not, ◌&&◌, some, List, [], ◌∷◌, arith, Text, codes, text_eq, has_prefix, text_lt,
  lookup,
}
use miti99bot.Storage.Contract.{not_found, ok, err, IsDocStore}
use miti99bot.Storage.Keys.{prefix_successor, validate_key, validate_prefix}
use miti99bot.Storage.Keys.Range.{has_low_byte, prefix_successor_range}
use miti99bot.Storage.Memory.{Row, Rows, mem_get, mem_list, memory_store}
use miti99bot.Storage.Memory.Order.{IsAscending, text_mem, is_stored, mem_list_lem}
use miti99bot.Storage.Memory.Laws.{mem_view, mem_version}
use miti99bot.Storage.Memory.Exact.{IsGood, CanEncode, memory_store_lem}
use miti99bot.Storage.Exact.{IsRefusing, IsExact}
use miti99bot.Storage.Provider.{Provider, open_collection, rows_of, typed, module_isolation}

prefix_successor_range_example :
    (not (text_lt (codes "abc") (codes "ab"))
      && text_lt (codes "abc") (prefix_successor (codes "ab")))
    ≡ (has_low_byte (codes "ab") && has_prefix (codes "abc") (codes "ab"))
prefix_successor_range_example =
    prefix_successor_range (codes "ab") (codes "abc") (omega arith, (omega arith, tt))
      (omega arith, (omega arith, (omega arith, tt)))

abbrev row : Row
row = record { version = 1; content = codes "x" }

abbrev rows : Rows
rows = (codes "b:2", row) ∷ (codes "b:1", row) ∷ (codes "w:1", row) ∷ []

mem_list_example :
    (ks : List Text) × (mem_list (codes "b:") rows ≡ ok ks)
    × IsAscending ks
    × ((a : Text) → text_mem a ks ≡ (has_prefix a (codes "b:") && is_stored a rows))
unfolding validate_prefix
mem_list_example = mem_list_lem (codes "b:") rows refl

abbrev round_trip : (v : Text) (c : Text) → some v ≡ some c → some c ≡ some v
round_trip v c h = sym h

memory_store_example :
    IsDocStore (memory_store {V = Text} some some) (mem_view some) mem_version
    × IsRefusing (memory_store {V = Text} some some)
    × IsExact
        (memory_store {V = Text} some some)
        (mem_view some)
        mem_version
        (IsGood some some round_trip)
        (CanEncode some some round_trip)
memory_store_example = memory_store_lem some some round_trip

rows-IsGood : IsGood some some round_trip rows
unfolding lookup text_eq
rows-IsGood =
    let one : (v : Text) × (some (codes "x") ≡ some v) = (codes "x", refl) in
    (refl, omega arith, one, (refl, omega arith, one, (refl, omega arith, one, tt)))

reads_missing : mem_get {V = Text} some some (codes "b:3") rows ≡ err not_found
unfolding mem_get lookup text_eq validate_key
reads_missing = refl

abbrev no_collections : Provider
no_collections = []

module_isolation_example :
    let (c, cols) = open_collection (codes "wordle") no_collections in
    (rows_of (codes "stats") ((typed {V = Text} some some c).put (codes "k") (codes "v") cols).1
      ≡ rows_of (codes "stats") no_collections)
    × (rows_of
          (codes "stats")
          ((typed {V = Text} some some c).put_versioned (codes "k") 0 (codes "v") cols).1
        ≡ rows_of (codes "stats") no_collections)
    × (rows_of (codes "stats") ((typed {V = Text} some some c).delete (codes "k") cols).1
        ≡ rows_of (codes "stats") no_collections)
module_isolation_example =
    module_isolation some some (codes "wordle") (codes "stats") no_collections (codes "k") 0
      (codes "v") (λ e. ground arith)
