-- ===== src/Storage/Keys.antt =====
-- Key rules and the half-open key range of a prefix (internal/storage/keys.go).
pub mod Range
use miti99bot.Base.{
  ℕ, zero, suc, ◌+◌, ◌-◌, Bool, true, false, ◌&&◌, ◌||◌, List, [], ◌∷◌, ◌++◌, Option, none, some,
  Text, codes, text_eq, has_prefix, ltb, leb, ◌==◌, if◌then◌else◌, length, get_elem?, take, drop,
}

-- The five reasons of `validateKey`.
pub data KeyError : Type 0 where
  empty too_long has_slash reserved reserved_namespace : KeyError

abbrev pub max_key_len : ℕ
max_key_len = 1500

-- `strings.Contains` of a one-byte text
unfoldable pub contains_byte : ℕ → Text → Bool
contains_byte c [] = false
contains_byte c (x ∷ xs) = (x == c) || contains_byte c xs

-- `strings.HasSuffix`
unfoldable pub has_suffix : Text → Text → Bool
has_suffix s p = leb (length p) (length s) && text_eq (drop (length s - length p) s) p

-- `none` is Go's nil error
unfoldable pub validate_key : Text → Option KeyError
unfolding contains_byte has_suffix has_prefix text_eq
validate_key [] = some empty
validate_key (c ∷ cs) =
    let key = c ∷ cs in
    if ltb max_key_len (length key)
    then some too_long
    else if contains_byte b'/' key
    then some has_slash
    else if text_eq key (codes ".") || text_eq key (codes "..")
    then some reserved
    else if has_prefix key (codes "__") && has_suffix key (codes "__")
    then some reserved_namespace
    else none

unfoldable pub validate_prefix : Text → Option KeyError
unfolding validate_key
validate_prefix [] = none
validate_prefix (c ∷ cs) = validate_key (c ∷ cs)

-- The loop of `prefixSuccessor`, for the `suc i` bytes from the start that are left to look at.
pub bump_last : Text → ℕ → Option Text
bump_last b zero = none
bump_last b (suc i) =
    let rest = bump_last b i in
    elim (get_elem? b i) [
      | none ↦ rest
      | some c ↦ if ltb c 255 then some (take i b ++ (c + 1) ∷ []) else rest
    ]

pub prefix_successor : Text → Text
prefix_successor p = elim (bump_last p (length p)) [ none ↦ p | some q ↦ q ]
