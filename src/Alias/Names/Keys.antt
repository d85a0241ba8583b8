-- ===== src/Alias/Names/Keys.antt =====
-- The key of a name that was accepted.
use miti99bot.Base.{
  ℕ, zero, suc, ◌≤◌, ◌<◌, ◌≡◌, refl, ap, ◌∙◌, ◌≢◌, inl, inr, true, false, ◌&&◌, none, some, List,
  [], ◌∷◌, ◌++◌, arith, ltb, Bool-cases, &&-true, length, Text, codes, text_eq, has_prefix,
}
use mathlib.Core.List.{append_assoc}
use miti99bot.Storage.Keys.{validate_key, contains_byte}
use miti99bot.Modules.Validate.{is_command_name, is_command_char, all_command_chars}
use miti99bot.Blacklist.Handlers.{fields, fields_from, trim_prefix}
use miti99bot.Chat.{leading_space}
use miti99bot.Alias.Names.{
  is_letter, is_name_char, all_name_chars, matches_name, lower_byte, lower_ascii, name_of_word,
  parse_name,
}

length-lower : (s : Text) → length (lower_ascii s) ≡ length s
unfolding lower_ascii
length-lower [] = refl
length-lower (c ∷ s) = omega (arith, length-lower s)

char-lower : (c : ℕ) → is_name_char c ≡ true → is_command_char (lower_byte c) ≡ true
unfolding is_name_char is_letter is_command_char lower_byte
char-lower c h = ground arith

letter-lower : (c : ℕ) → is_letter c ≡ true → (97 ≤ lower_byte c) × (lower_byte c ≤ 122)
unfolding is_letter lower_byte
letter-lower c h = ground arith

chars-lower : (s : Text) → all_name_chars s ≡ true → all_command_chars (lower_ascii s) ≡ true
unfolding all_name_chars all_command_chars lower_ascii
chars-lower [] h = refl
chars-lower (c ∷ s) h =
    let (first, rest) = &&-true (is_name_char c) (all_name_chars s) h in
    ground (arith, char-lower c first, chars-lower s rest)

-- No slash in a command name
no_slash : (s : Text) → all_command_chars s ≡ true → contains_byte b'/' s ≡ false
unfolding all_command_chars contains_byte is_command_char
no_slash [] h = refl
no_slash (c ∷ s) h = ground (arith, no_slash s)

-- A text that begins with a letter, and has no slash, is a key.
letter_key :
    (c : ℕ) (s : Text)
    → (97 ≤ c) × (c ≤ 122)
    → length (c ∷ s) ≤ 32
    → contains_byte b'/' (c ∷ s) ≡ false
    → validate_key (c ∷ s) ≡ none
unfolding validate_key text_eq has_prefix
letter_key c s letter short slash = ground (arith, letter, short, slash)

-- White space does not begin at a byte of a command name.
no_space : (c : ℕ) (s : Text) → is_command_char c ≡ true → leading_space (c ∷ s) ≡ 0
unfolding is_command_char leading_space
no_space c s h = ground arith

longer_word :
    (f : ℕ) (word : Text) (c : ℕ) (s : Text)
    → is_command_char c ≡ true
    → fields_from (suc f) word (c ∷ s) ≡ fields_from f (word ++ c ∷ []) s
unfolding fields_from
longer_word f word c s h = ground (arith, no_space c s h)

last_word :
    (f : ℕ) (word : Text) (c : ℕ) → fields_from (suc f) (word ++ c ∷ []) [] ≡ (word ++ c ∷ []) ∷ []
unfolding fields_from text_eq
last_word f [] c = refl
last_word f (x ∷ word) c = refl

one_word :
    (f : ℕ) (word : Text) (c : ℕ) (s : Text)
    → length s < f
    → all_command_chars (c ∷ s) ≡ true
    → fields_from (suc f) word (c ∷ s) ≡ (word ++ c ∷ s) ∷ []
unfolding all_command_chars
one_word zero word c s h chars = absurd (omega arith)
one_word (suc f) word c [] h chars =
    longer_word (suc f) word c [] (ground (arith, chars)) ∙ last_word f word c
one_word (suc f) word c (d ∷ s) h chars =
    let (first, rest) = &&-true (is_command_char c) (all_command_chars (d ∷ s)) chars in
    longer_word (suc f) word c (d ∷ s) first
    ∙ one_word f (word ++ c ∷ []) d s (omega arith) rest
    ∙ ap (λ w. w ∷ []) (append_assoc word (c ∷ []) (d ∷ s))

word_fields : (s : Text) → s ≢ [] → all_command_chars s ≡ true → fields s ≡ s ∷ []
unfolding fields
word_fields [] h chars = absurd (h refl)
word_fields (c ∷ s) h chars = one_word (suc (length s)) [] c s (omega arith) chars

letter-again :
    (c : ℕ)
    → is_letter c ≡ true
    → (is_letter (lower_byte c) ≡ true) × (lower_byte (lower_byte c) ≡ lower_byte c)
unfolding is_letter lower_byte
letter-again c h = ground arith

char-again :
    (c : ℕ)
    → is_name_char c ≡ true
    → (is_name_char (lower_byte c) ≡ true) × (lower_byte (lower_byte c) ≡ lower_byte c)
unfolding is_name_char is_letter lower_byte
char-again c h = ground arith

chars-again :
    (s : Text)
    → all_name_chars s ≡ true
    → (all_name_chars (lower_ascii s) ≡ true) × (lower_ascii (lower_ascii s) ≡ lower_ascii s)
unfolding all_name_chars lower_ascii
chars-again [] h = (refl, refl)
chars-again (c ∷ s) h =
    let (first, rest) = &&-true (is_name_char c) (all_name_chars s) h in
    ground (arith, char-again c first, chars-again s rest)

abbrev IsKeyName : Text → Type 0
IsKeyName k = (validate_key k ≡ none) × (is_command_name k ≡ true) × (parse_name k ≡ some (k, k))

trim_letter : (c : ℕ) (s : Text) → is_letter c ≡ true → trim_prefix (c ∷ s) (codes "@") ≡ c ∷ s
unfolding is_letter has_prefix
trim_letter c s h = ground arith

name_of_word-again :
    (c : ℕ) (s : Text)
    → is_letter c ≡ true
    → all_name_chars s ≡ true
    → length (c ∷ s) ≤ 32
    → lower_ascii (c ∷ s) ≡ c ∷ s
    → name_of_word (c ∷ s) ≡ some (c ∷ s, c ∷ s)
unfolding name_of_word matches_name text_eq
name_of_word-again c s letter chars short same =
    ground (arith, letter, chars, short, same, trim_letter c s letter)

parse_one_word : (s : Text) → s ≢ [] → all_command_chars s ≡ true → parse_name s ≡ name_of_word s
unfolding parse_name
parse_one_word s h chars = ground (arith, word_fields s h chars)

accepted :
    (c : ℕ) (s : Text)
    → is_letter c ≡ true
    → all_name_chars s ≡ true
    → length (c ∷ s) ≤ 32
    → IsKeyName (lower_ascii (c ∷ s))
unfolding lower_ascii is_command_name all_command_chars all_name_chars is_name_char
accepted c s letter chars short =
    let whole : all_command_chars (lower_ascii (c ∷ s)) ≡ true =
      chars-lower (c ∷ s) (ground (arith, letter, chars)) in
    let len = length-lower s in
    let (first, fixed) = letter-again c letter in
    let (rest, fixed_rest) = chars-again s chars in
    (
      letter_key (lower_byte c) (lower_ascii s) (letter-lower c letter) (omega arith)
          (no_slash (lower_ascii (c ∷ s)) whole),
      ground (arith, whole, len, short),
      parse_one_word (lower_byte c ∷ lower_ascii s) (λ e. cc) whole
          ∙ name_of_word-again (lower_byte c) (lower_ascii s) first rest (omega arith) (
              ap (λ x. x ∷ lower_ascii (lower_ascii s)) fixed
              ∙ ap (λ x. lower_byte c ∷ x) fixed_rest),
    )

name_of_word-IsKeyName :
    (word display key : Text) → name_of_word word ≡ some (display, key) → IsKeyName key
unfolding name_of_word matches_name text_eq
name_of_word-IsKeyName word display key h = go (trim_prefix word (codes "@")) refl
  where
    go : (name : Text) → trim_prefix word (codes "@") ≡ name → IsKeyName key
    go [] e = absurd (ground (arith, h, e))
    go (c ∷ s) e = elim (Bool-cases (is_letter c && all_name_chars s)) [
      | inr odd ↦ absurd (ground (arith, h, e, odd))
      | inl fits ↦ elim (Bool-cases (ltb 32 (length (c ∷ s)))) [
        | inl long ↦ absurd (ground (arith, h, e, fits, long))
        | inr short ↦
            let (first, rest) = &&-true (is_letter c) (all_name_chars s) fits in
            let same : key ≡ lower_ascii (c ∷ s) = ground (arith, h, e, fits, short) in
            rw same (accepted c s first rest (ground (arith, short)))
      ]
    ]

-- A name that `parseName` accepts has a key that the store takes, that is a command name of
-- Telegram, and that `parseName` accepts again and keeps as it is.
pub parse_name-key :
    (raw display key : Text)
    → parse_name raw ≡ some (display, key)
    → (validate_key key ≡ none) × (is_command_name key ≡ true) × (parse_name key ≡ some (key, key))
unfolding parse_name
parse_name-key raw display key h = go (fields raw) refl
  where
    go : (words : List Text) → fields raw ≡ words → IsKeyName key
    go [] e = absurd (ground (arith, h, e))
    go (word ∷ []) e = name_of_word-IsKeyName word display key (ground (arith, h, e))
    go (word ∷ v ∷ vs) e = absurd (ground (arith, h, e))
