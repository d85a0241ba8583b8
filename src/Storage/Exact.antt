-- ===== src/Storage/Exact.antt =====
-- What a store answers that has no backend to fail it (internal/storage/doc_store.go, the
-- contract of `DocStore`).
use miti99bot.Base.{
  ℕ, ◌≡◌, ◌≢◌, Bool, true, false, ◌&&◌, Option, none, some, List, [], ◌∷◌, All, Text, has_prefix,
}
use miti99bot.Storage.Keys.{KeyError, validate_key, validate_prefix}
use miti99bot.Storage.Contract.{not_found, conflict, bad_key, ok, err, Doc, DocStore}
use miti99bot.Storage.Memory.Order.{IsAscending, text_mem}

abbrev pub is_some : {A : Type 0} → Option A → Bool
is_some none = false
is_some (some a) = true

abbrev pub ids : {V : Type 0} → List (Doc V) → List Text
ids [] = []
ids (d ∷ ds) = d.id ∷ ids ds

-- A key that is not valid is refused by every operation on it, and changes nothing.
abbrev pub IsRefusing : {S V : Type 0} → DocStore S V → Type 0
IsRefusing {S} {V} d =
    (k : Text) (n : ℕ) (v : V) (s : S) (e : KeyError)
    → validate_key k ≡ some e
    → (d.get k s ≡ err (bad_key e))
      × (d.put k v s ≡ (err (bad_key e), s))
      × (d.put_versioned k n v s ≡ (err (bad_key e), s))
      × (d.delete k s ≡ (err (bad_key e), s))

-- The answers to valid keys and prefixes, in the states `IsGood` and for the values `CanHold`.
-- The operations keep the states good.
pub record IsExact {S V : Type 0} (d : DocStore S V) (view : S → Text → Option V)
    (version : S → Text → ℕ) (IsGood : S → Type 0) (CanHold : V → Type 0) : Type 0 where
  pub get_held :
      (k : Text) (v : V) (s : S)
      → IsGood s
      → validate_key k ≡ none
      → view s k ≡ some v
      → d.get k s ≡ ok (v, version s k)
  pub get_absent :
      (k : Text) (s : S)
      → IsGood s
      → validate_key k ≡ none
      → view s k ≡ none
      → d.get k s ≡ err not_found
  pub put_done :
      (k : Text) (v : V) (s : S)
      → IsGood s
      → validate_key k ≡ none
      → CanHold v
      → ((d.put k v s).0 ≡ ok tt) × IsGood (d.put k v s).1
  pub put_versioned_done :
      (k : Text) (v : V) (s : S)
      → IsGood s
      → validate_key k ≡ none
      → CanHold v
      → ((d.put_versioned k (version s k) v s).0 ≡ ok tt)
        × IsGood (d.put_versioned k (version s k) v s).1
  pub put_versioned_conflict :
      (k : Text) (n : ℕ) (v : V) (s : S)
      → IsGood s
      → validate_key k ≡ none
      → CanHold v
      → n ≢ version s k
      → d.put_versioned k n v s ≡ (err conflict, s)
  pub delete_done :
      (k : Text) (s : S)
      → IsGood s
      → validate_key k ≡ none
      → ((d.delete k s).0 ≡ ok tt) × IsGood (d.delete k s).1
  pub list_all :
      (p : Text) (s : S)
      → IsGood s
      → validate_prefix p ≡ none
      → (ks : List Text) × (d.list p s ≡ ok ks)
        × IsAscending ks
        × ((k : Text) → text_mem k ks ≡ (has_prefix k p && is_some (view s k)))
  pub scan_all :
      (p : Text) (s : S)
      → IsGood s
      → validate_prefix p ≡ none
      → (docs : List (Doc V)) × (d.scan p s ≡ ok docs)
        × (d.list p s ≡ ok (ids docs))
        × All (λ doc. view s doc.id ≡ some doc.val) docs
