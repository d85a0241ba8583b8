-- ===== src/Storage/Memory.antt =====
-- The in-process backend (internal/storage/memory_provider.go). A collection is a map from keys to
-- versioned rows, each holding the encoded value; the codec (encoding/json) is a parameter. Every
-- operation runs under the collection's lock, so it is one step on the rows.
pub mod Order
pub mod Laws
pub mod Exact
use miti99bot.Base.{
  ℕ, suc, ◌+◌, Bool, true, false, ◌&&◌, ◌||◌, List, [], ◌∷◌, Option, none, some, Text, codes, Dict,
  lookup, insert, erase, has_prefix, text_lt, ltb, leb, ◌==◌, if◌then◌else◌, length,
}
use miti99bot.Storage.Keys.{validate_key, validate_prefix}
use miti99bot.Storage.Contract.{
  Failure, not_found, conflict, invalid_module_name, codec, bad_key, Result, ok, err, ◌>>=◌, ◌>>◌,
  Doc, DocStore,
}

-- `memoryRow`
pub record Row : Type 0 where
  pub version : ℕ
  pub content : Text

abbrev pub Rows : Type 0
Rows = Dict Row

-- The version in Go's zero row for a missing key.
abbrev pub row_version : Option Row → ℕ
row_version none = 0
row_version (some r) = r.version

-- A write with a check in front: on an error the rows stay.
abbrev pub commit : Result Rows → Rows → Result (Unit {0}) × Rows
commit (ok rows') rows = (ok tt, rows')
commit (err e) rows = (err e, rows)

abbrev pub checked_key : Text → Result (Unit {0})
checked_key id = elim (validate_key id) [ none ↦ ok tt | some e ↦ err (bad_key e) ]

abbrev pub checked_prefix : Text → Result (Unit {0})
checked_prefix p = elim (validate_prefix p) [ none ↦ ok tt | some e ↦ err (bad_key e) ]

abbrev pub or_err {ℓ} : {A : Type ℓ} → Option A → Failure → Result A
or_err none e = err e
or_err (some a) e = ok a

-- `sort.Strings`
pub insert_key : Text → List Text → List Text
insert_key k [] = k ∷ []
insert_key k (j ∷ ks) = let rest = insert_key k ks in if text_lt j k then j ∷ rest else k ∷ j ∷ ks

unfoldable pub sort_keys : List Text → List Text
unfolding insert_key
sort_keys [] = []
sort_keys (k ∷ ks) = insert_key k (sort_keys ks)

-- The keys under a prefix, in the order of the map.
unfoldable pub keys_under : Text → Rows → List Text
keys_under p [] = []
keys_under p ((k, r) ∷ rows) =
    let rest = keys_under p rows in if has_prefix k p then k ∷ rest else rest

module _ {V : Type 0} where
  -- `sort.Slice` by id
  pub insert_doc : Doc V → List (Doc V) → List (Doc V)
  insert_doc d [] = d ∷ []
  insert_doc d (c ∷ ds) =
      let rest = insert_doc d ds in if text_lt c.id d.id then c ∷ rest else d ∷ c ∷ ds

  unfoldable pub sort_docs : List (Doc V) → List (Doc V)
  unfolding insert_doc
  sort_docs [] = []
  sort_docs (d ∷ ds) = insert_doc d (sort_docs ds)

-- The version test of `PutVersioned`.
unfoldable pub version_matches : ℕ → Option Row → Bool
version_matches expected none = expected == 0
version_matches expected (some r) = if expected == 0 then false else r.version == expected

unfoldable pub mem_delete : Text → Rows → Result (Unit {0}) × Rows
mem_delete id rows = commit (do checked_key id; ok (erase id rows)) rows

unfoldable pub mem_list : Text → Rows → Result (List Text)
unfolding sort_keys keys_under
mem_list p rows = do checked_prefix p; ok (sort_keys (keys_under p rows))

module _ {V : Type 0} (encode : V → Option Text) (decode : Text → Option V) where
  unfoldable pub mem_get : Text → Rows → Result (V × ℕ)
  mem_get id rows = do
    checked_key id
    row ← or_err (lookup id rows) not_found
    out ← or_err (decode row.content) codec
    ok (out, row.version)

  unfoldable pub mem_put : Text → V → Rows → Result (Unit {0}) × Rows
  mem_put id val rows =
      commit
        (do
          checked_key id
          content ← or_err (encode val) codec
          ok (
              insert id (record { version = row_version (lookup id rows) + 1; content = content })
                rows))
        rows

  unfoldable pub mem_put_versioned : Text → ℕ → V → Rows → Result (Unit {0}) × Rows
  unfolding version_matches
  mem_put_versioned id expected val rows =
      commit
        (do
          checked_key id
          content ← or_err (encode val) codec
          if version_matches expected (lookup id rows)
              then ok (
                  insert id
                    (record { version = row_version (lookup id rows) + 1; content = content }) rows)
              else err conflict)
        rows

  unfoldable pub scan_rows : Text → Rows → Result (List (Doc V))
  scan_rows p [] = ok []
  scan_rows p ((k, r) ∷ rows) =
      let rest = scan_rows p rows in
      if has_prefix k p
      then (do
        val ← or_err (decode r.content) codec
        docs ← rest
        ok (record { id = k; val = val } ∷ docs))
      else rest

  unfoldable pub mem_scan : Text → Rows → Result (List (Doc V))
  unfolding scan_rows sort_docs
  mem_scan p rows = do checked_prefix p; docs ← scan_rows p rows; ok (sort_docs docs)

  -- `memoryDocStore`
  abbrev pub memory_store : DocStore Rows V
  memory_store = record {
    get = mem_get;
    put = mem_put;
    put_versioned = mem_put_versioned;
    delete = mem_delete;
    list = mem_list;
    scan = mem_scan;
  }

-- `collectionNameRe`, ^[a-z0-9_-]{1,32}$
name_char : ℕ → Bool
name_char c = (leb b'a' c && leb c b'z') || (leb b'0' c && leb c b'9') || (c == b'_') || (c == b'-')

all_name_chars : Text → Bool
unfolding name_char
all_name_chars [] = true
all_name_chars (c ∷ cs) = name_char c && all_name_chars cs

unfoldable pub is_collection_name : Text → Bool
unfolding all_name_chars
is_collection_name s = leb 1 (length s) && leb (length s) 32 && all_name_chars s
