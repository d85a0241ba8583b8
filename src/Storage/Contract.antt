-- ===== src/Storage/Contract.antt =====
-- The `DocStore` contract (internal/storage/doc_store.go): the operations that a typed view of a
-- collection offers, and the laws that its clients rely on.
use miti99bot.Base.{ℕ, suc, ◌≡◌, ◌≢◌, Option, none, some, List, if◌then◌else◌, Text, text_eq}
use miti99bot.Storage.Keys.{KeyError}

-- The error values that reach a handler's caller: `ErrNotFound`, `ErrConflict`,
-- `ErrInvalidModuleName`, the refusals of `validateKey`, what a codec or a backend reports, the
-- empty word list of Wordle, and a panic on an index out of range.
pub data Failure : Type 0 where
  not_found conflict invalid_module_name codec backend empty_word_list index_panic : Failure
  bad_key : KeyError → Failure

pub data Result {ℓ} (A : Type ℓ) : Type ℓ where
  ok : A → Result A
  err : Failure → Result A

-- An error stops a chain.
infixl 5 ◌>>=◌
abbrev pub ◌>>=◌ : {A B : Type 0} → Result A → (A → Result B) → Result B
err e >>= next = err e
ok a >>= next = next a

infixl 5 ◌>>◌
abbrev pub ◌>>◌ : {B : Type 0} → Result (Unit {0}) → Result B → Result B
first >> second = first >>= λ _. second

-- `Doc`: one key with its value.
pub record Doc (V : Type 0) : Type 0 where
  pub id : Text
  pub val : V

-- The interface over the states `S` of a collection. A read may fail; a write returns the state
-- that it leaves behind, also when it fails.
pub record DocStore (S V : Type 0) : Type 0 where
  pub get : Text → S → Result (V × ℕ)
  pub put : Text → V → S → Result (Unit {0}) × S
  pub put_versioned : Text → ℕ → V → S → Result (Unit {0}) × S
  pub delete : Text → S → Result (Unit {0}) × S
  pub list : Text → S → Result (List Text)
  pub scan : Text → S → Result (List (Doc V))

-- The version under which a key would be written next: 0 means that it has none.
abbrev pub version_of : {V : Type 0} → Option (V × ℕ) → ℕ
version_of none = 0
version_of (some (v, n)) = n

-- What the handlers rely on, whichever calls a backend fails, over what a state holds: `view`
-- gives the value of a key, `version` the version under which it is stored, 0 if it is not. A
-- failed write leaves the state alone.
pub record IsDocStore {S V : Type 0} (d : DocStore S V) (view : S → Text → Option V)
    (version : S → Text → ℕ) : Type 0 where
  pub get_ok :
      (k : Text) (s : S) (v : V) (n : ℕ)
      → d.get k s ≡ ok (v, n)
      → (view s k ≡ some v) × (version s k ≡ n)
  pub get_missing :
      (k : Text) (s : S) → d.get k s ≡ err not_found → (view s k ≡ none) × (version s k ≡ 0)
  pub put_ok :
      (k j : Text) (v : V) (s : S)
      → (d.put k v s).0 ≡ ok tt
      → (view (d.put k v s).1 j ≡ (if text_eq k j then some v else view s j))
        × (version (d.put k v s).1 j ≡ (if text_eq k j then suc (version s k) else version s j))
  pub put_err :
      (k : Text) (v : V) (s : S) (e : Failure) → (d.put k v s).0 ≡ err e → (d.put k v s).1 ≡ s
  pub put_versioned_ok :
      (k j : Text) (n : ℕ) (v : V) (s : S)
      → (d.put_versioned k n v s).0 ≡ ok tt
      → (version s k ≡ n)
        × (view (d.put_versioned k n v s).1 j ≡ (if text_eq k j then some v else view s j))
        × (version (d.put_versioned k n v s).1 j
            ≡ (if text_eq k j then suc (version s k) else version s j))
  pub put_versioned_err :
      (k : Text) (n : ℕ) (v : V) (s : S) (e : Failure)
      → (d.put_versioned k n v s).0 ≡ err e
      → (d.put_versioned k n v s).1 ≡ s
  pub delete_ok :
      (k j : Text) (s : S)
      → (d.delete k s).0 ≡ ok tt
      → (view (d.delete k s).1 j ≡ (if text_eq k j then none else view s j))
        × (version (d.delete k s).1 j ≡ (if text_eq k j then 0 else version s j))
  pub delete_err :
      (k : Text) (s : S) (e : Failure) → (d.delete k s).0 ≡ err e → (d.delete k s).1 ≡ s

-- Two typed views of one collection: a put or a delete of one leaves what the other holds at every
-- other key.
pub record IsFramed {S V W : Type 0} (d : DocStore S V) (view : S → Text → Option W) : Type 0 where
  pub put_other : (k j : Text) (v : V) (s : S) → k ≢ j → view (d.put k v s).1 j ≡ view s j
  pub delete_other : (k j : Text) (s : S) → k ≢ j → view (d.delete k s).1 j ≡ view s j

-- A read for which a missing key is no error, as in `loadGame`.
abbrev pub found_or_none : {V : Type 0} → Result (V × ℕ) → Result (Option V)
found_or_none (ok (v, n)) = ok (some v)
found_or_none (err not_found) = ok none
found_or_none (err e) = err e
