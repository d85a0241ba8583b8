-- ===== src/Storage/Memory/Order.antt =====
-- Listing a collection: the keys come in ascending order, and they are the stored ones.
use miti99bot.Base.{
  ◌≡◌, refl, sym, ◌∙◌, ◌↔◌, inl, inr, Bool, true, false, ◌&&◌, ◌||◌, none, some, List, [], ◌∷◌,
  arith, Bool-cases, Mem, here, there, Text, text_eq, has_prefix, text_lt, text_eq_refl, text_eq→eq,
  text_eq_iff, lookup,
}
use miti99bot.Storage.Keys.{validate_prefix}
use miti99bot.Storage.Contract.{ok}
use miti99bot.Storage.Memory.{Rows, insert_key, sort_keys, keys_under, mem_list}

-- `k` is one of the keys.
pub text_mem : Text → List Text → Bool
text_mem k [] = false
text_mem k (j ∷ ks) = text_eq j k || text_mem k ks

-- `_, ok := rows[k]`
unfoldable pub is_stored : Text → Rows → Bool
is_stored k rows = elim (lookup k rows) [ none ↦ false | some r ↦ true ]

-- No key is below the one in front of it.
abbrev pub IsAscending : List Text → Type 0
IsAscending [] = Unit
IsAscending (k ∷ []) = Unit
IsAscending (k ∷ j ∷ ks) = (text_lt j k ≡ false) × IsAscending (j ∷ ks)

text_lt_asymm : (s t : Text) → text_lt s t ≡ true → text_lt t s ≡ false
unfolding text_lt
text_lt_asymm [] [] h = refl
text_lt_asymm [] (y ∷ ys) h = refl
text_lt_asymm (x ∷ xs) [] h = cc
text_lt_asymm (x ∷ xs) (y ∷ ys) h = ground (arith, text_lt_asymm xs ys)

-- Inserting below a head that is not above the new key keeps the head in place.
insert_key-under :
    (j k : Text) (ks : List Text)
    → text_lt k j ≡ false
    → IsAscending (j ∷ ks)
    → IsAscending (insert_key k ks)
    → IsAscending (j ∷ insert_key k ks)
unfolding insert_key
insert_key-under j k [] lt h ih = (lt, tt)
insert_key-under j k (i ∷ ks) lt h ih = ground (arith)

insert_key-IsAscending :
    (k : Text) (ks : List Text) → IsAscending ks → IsAscending (insert_key k ks)
unfolding insert_key
insert_key-IsAscending k [] h = tt
insert_key-IsAscending k (j ∷ []) h = ground (arith, text_lt_asymm j k)
insert_key-IsAscending k (j ∷ i ∷ ks) h =
    let ih : IsAscending (insert_key k (i ∷ ks)) = insert_key-IsAscending k (i ∷ ks) h.1 in
    elim (Bool-cases (text_lt j k)) [
      | inl below ↦ rw below (insert_key-under j k (i ∷ ks) (text_lt_asymm j k below) h ih)
      | inr above ↦ rw above (above, h)
    ]

sort_keys-IsAscending : (ks : List Text) → IsAscending (sort_keys ks)
unfolding sort_keys
sort_keys-IsAscending [] = tt
sort_keys-IsAscending (k ∷ ks) = insert_key-IsAscending k (sort_keys ks) (sort_keys-IsAscending ks)

text_mem-insert_key :
    (a k : Text) (ks : List Text) → text_mem a (insert_key k ks) ≡ (text_eq k a || text_mem a ks)
unfolding text_mem insert_key
text_mem-insert_key a k [] = refl
text_mem-insert_key a k (j ∷ ks) = ground (arith, text_mem-insert_key a k ks)

text_mem-sort_keys : (a : Text) (ks : List Text) → text_mem a (sort_keys ks) ≡ text_mem a ks
unfolding text_mem sort_keys
text_mem-sort_keys a [] = refl
text_mem-sort_keys a (k ∷ ks) =
    ground (arith, text_mem-sort_keys a ks, text_mem-insert_key a k (sort_keys ks))

text_mem-mem : (a : Text) (ks : List Text) → text_mem a ks ≡ true → Mem a ks
unfolding text_mem
text_mem-mem a [] h = cc
text_mem-mem a (k ∷ ks) h = elim (Bool-cases (text_eq k a)) [
  | inl e ↦ rw (text_eq→eq k a e) here
  | inr e ↦ there (text_mem-mem a ks (ground arith))
]

mem-text_mem : {a : Text} {ks : List Text} → Mem a ks → text_mem a ks ≡ true
unfolding text_mem
mem-text_mem {a} here = ground (arith, text_eq_refl a)
mem-text_mem (there m) = ground (arith, mem-text_mem m)

-- Sorting keeps the elements.
pub mem-sort_keys : (a : Text) (ks : List Text) → Mem a (sort_keys ks) ↔ Mem a ks
mem-sort_keys a ks = (
  λ m. text_mem-mem a ks (sym (text_mem-sort_keys a ks) ∙ mem-text_mem m),
  λ m. text_mem-mem a (sort_keys ks) (text_mem-sort_keys a ks ∙ mem-text_mem m),
)

text_mem-keys_under :
    (a p : Text) (rows : Rows)
    → text_mem a (keys_under p rows) ≡ (has_prefix a p && is_stored a rows)
unfolding text_mem keys_under is_stored lookup
text_mem-keys_under a p [] = ground arith
text_mem-keys_under a p ((k, r) ∷ rows) =
    ground (arith, text_mem-keys_under a p rows, text_eq_iff k a)

-- Listing a valid prefix succeeds. The keys come in ascending byte order, and a key is among them
-- exactly when it is stored and has the prefix.
pub mem_list_lem :
    (p : Text) (rows : Rows)
    → validate_prefix p ≡ none
    → (ks : List Text) × (mem_list p rows ≡ ok ks)
      × IsAscending ks
      × ((a : Text) → text_mem a ks ≡ (has_prefix a p && is_stored a rows))
unfolding mem_list
mem_list_lem p rows h = (
  sort_keys (keys_under p rows),
  ground arith,
  sort_keys-IsAscending (keys_under p rows),
  λ a. text_mem-sort_keys a (keys_under p rows) ∙ text_mem-keys_under a p rows,
)
