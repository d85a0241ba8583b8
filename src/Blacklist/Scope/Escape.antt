-- ===== src/Blacklist/Scope/Escape.antt =====
-- Escaping a text for a key, and back.
use miti99bot.Base.{◌≡◌, refl, false, [], ◌∷◌, arith, ◌==◌, if◌then◌else◌, Text, codes, has_prefix}
use miti99bot.Storage.Keys.{contains_byte}
use miti99bot.Blacklist.Scope.{replace_from, encode_key_text, decode_key_text}

-- '%' escaped, byte by byte.
escape_percent : Text → Text
escape_percent [] = []
escape_percent (c ∷ s) =
    let rest = escape_percent s in if c == b'%' then b'%' ∷ b'2' ∷ b'5' ∷ rest else c ∷ rest

-- '%' and '/' escaped, byte by byte.
pub escape_both : Text → Text
escape_both [] = []
escape_both (c ∷ s) =
    let rest = escape_both s in
    if c == b'%'
    then b'%' ∷ b'2' ∷ b'5' ∷ rest
    else if c == b'/'
    then b'%' ∷ b'2' ∷ b'F' ∷ rest
    else c ∷ rest

replace_percent : (s : Text) → replace_from (codes "%") (codes "%25") 0 s ≡ escape_percent s
unfolding replace_from has_prefix escape_percent
replace_percent [] = refl
replace_percent (c ∷ s) = ground (arith, replace_percent s)

replace_slash :
    (s : Text) → replace_from (codes "/") (codes "%2F") 0 (escape_percent s) ≡ escape_both s
unfolding replace_from has_prefix escape_percent escape_both
replace_slash [] = refl
replace_slash (c ∷ s) = ground (arith, replace_slash s)

restore_slash :
    (s : Text) → replace_from (codes "%2F") (codes "/") 0 (escape_both s) ≡ escape_percent s
unfolding replace_from has_prefix escape_percent escape_both
restore_slash [] = refl
restore_slash (c ∷ s) = ground (arith, restore_slash s)

restore_percent : (s : Text) → replace_from (codes "%25") (codes "%") 0 (escape_percent s) ≡ s
unfolding replace_from has_prefix escape_percent
restore_percent [] = refl
restore_percent (c ∷ s) = ground (arith, restore_percent s)

pub encode_key_text-escape_both : (s : Text) → encode_key_text s ≡ escape_both s
unfolding encode_key_text
encode_key_text-escape_both s = rw (replace_percent s) (replace_slash s)

no_slash : (s : Text) → contains_byte b'/' (escape_both s) ≡ false
unfolding contains_byte escape_both
no_slash [] = refl
no_slash (c ∷ s) = ground (arith, no_slash s)

-- Decoding a key gives back the text that was encoded, whatever percent signs, slashes and texts
-- that look like escapes it holds; and the encoded text holds no slash.
pub decode-encode_key_text :
    (s : Text)
    → (decode_key_text (encode_key_text s) ≡ s) × (contains_byte b'/' (encode_key_text s) ≡ false)
unfolding decode_key_text
decode-encode_key_text s =
    rw (encode_key_text-escape_both s) (rw (restore_slash s) (restore_percent s), no_slash s)
