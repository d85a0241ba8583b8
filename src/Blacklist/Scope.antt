-- ===== src/Blacklist/Scope.antt =====
-- The storage keys of the rules (internal/modules/blacklist/scope.go).
pub mod Escape
pub mod Prefix
use miti99bot.Base.{
  ℕ, zero, suc, ◌-◌, [], ◌∷◌, ◌++◌, if◌then◌else◌, length, Text, codes, has_prefix, ℤ, format_int,
}

-- The two list tags
pub data ListTag : Type 0 where
  list_black list_white : ListTag

abbrev pub tag_text : ListTag → Text
tag_text list_black = codes "b"
tag_text list_white = codes "w"

abbrev pub max_entry_bytes : ℕ
max_entry_bytes = 200

-- `strings.ReplaceAll` for a non-empty `old`: from the left, the bytes of an occurrence are passed
-- over. The number counts the bytes that are still to be passed.
pub replace_from : Text → Text → ℕ → Text → Text
replace_from old new skip [] = []
replace_from old new (suc k) (x ∷ s) = replace_from old new k s
replace_from old new zero (x ∷ s) =
    let replaced = new ++ replace_from old new (length old - 1) s in
    let kept = x ∷ replace_from old new 0 s in if has_prefix (x ∷ s) old then replaced else kept

abbrev pub replace_all : Text → Text → Text → Text
replace_all s old new = replace_from old new 0 s

unfoldable pub encode_key_text : Text → Text
unfolding replace_from
encode_key_text s = replace_all (replace_all s (codes "%") (codes "%25")) (codes "/") (codes "%2F")

unfoldable pub decode_key_text : Text → Text
unfolding replace_from
decode_key_text s = replace_all (replace_all s (codes "%2F") (codes "/")) (codes "%25") (codes "%")

unfoldable pub scope_prefix : ℤ → ℤ → ListTag → Text
scope_prefix chat_id thread_id list =
    format_int chat_id
    ++ (codes ":" ++ (format_int thread_id ++ (codes ":" ++ (tag_text list ++ codes ":"))))

unfoldable pub entry_key : ℤ → ℤ → ListTag → Text → Text
unfolding encode_key_text
entry_key chat_id thread_id list norm_text =
    scope_prefix chat_id thread_id list ++ encode_key_text norm_text
