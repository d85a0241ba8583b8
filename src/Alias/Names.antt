-- ===== src/Alias/Names.antt =====
-- The names of saved messages (`parseName` of internal/modules/alias/handlers.go).
pub mod Keys
use miti99bot.Base.{
  ℕ, ◌+◌, Bool, true, false, not, ◌&&◌, ◌||◌, Option, none, some, [], ◌∷◌, ltb, leb, ◌==◌,
  if◌then◌else◌, length, here, Text, codes, text_eq,
}
use miti99bot.Blacklist.Handlers.{fields, trim_prefix}

abbrev pub max_name_len : ℕ
max_name_len = 32

pub is_letter : ℕ → Bool
is_letter c = (leb 97 c && leb c 122) || (leb 65 c && leb c 90)

pub is_name_char : ℕ → Bool
unfolding is_letter
is_name_char c = is_letter c || (leb 48 c && leb c 57) || c == 95

unfoldable pub all_name_chars : Text → Bool
unfolding is_name_char
all_name_chars [] = true
all_name_chars (c ∷ s) = is_name_char c && all_name_chars s

-- `nameRe`
unfoldable pub matches_name : Text → Bool
unfolding is_letter all_name_chars
matches_name [] = false
matches_name (c ∷ s) = is_letter c && all_name_chars s

unfoldable pub lower_byte : ℕ → ℕ
lower_byte c = if leb 65 c && leb c 90 then c + 32 else c

-- `strings.ToLower` of an ASCII text, which a name is here
unfoldable pub lower_ascii : Text → Text
unfolding lower_byte
lower_ascii [] = []
lower_ascii (c ∷ s) = lower_byte c ∷ lower_ascii s

-- The name of one word
unfoldable pub name_of_word : Text → Option (Text × Text)
unfolding matches_name lower_ascii
name_of_word word =
    let name = trim_prefix word (codes "@") in
    if text_eq name [] || ltb max_name_len (length name) || not (matches_name name)
    then none
    else some (name, lower_ascii name)

-- `parseName`: the display form and the key
unfoldable pub parse_name : Text → Option (Text × Text)
unfolding name_of_word
parse_name raw = elim (fields raw) [
  | [] ↦ none
  | word ∷ words ↦ elim words [ [] ↦ name_of_word word | _ ∷ _ ↦ none ]
]
