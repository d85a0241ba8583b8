-- ===== src/Modules/Validate.antt =====
-- What the registry accepts (internal/modules/validate.go and command_presentation.go).
use miti99bot.Base.{
  ℕ, zero, suc, Bool, true, false, not, ◌&&◌, ◌||◌, Option, none, some, List, [], ◌∷◌, ◌++◌, ltb,
  leb, ◌==◌, if◌then◌else◌, length, drop, Text, codes, text_eq,
}
use miti99bot.Storage.Keys.{has_suffix}
use miti99bot.Chat.{trim_space}
use miti99bot.Modules.{Visibility, visibility_public, other_visibility, Command, Cron, Callback}

-- `commandNameRe`: 1 to 32 bytes of a-z, 0-9 and _
unfoldable pub is_command_char : ℕ → Bool
is_command_char c = (leb 97 c && leb c 122) || (leb 48 c && leb c 57) || c == 95

unfoldable pub all_command_chars : Text → Bool
all_command_chars [] = true
all_command_chars (c ∷ s) = is_command_char c && all_command_chars s

unfoldable pub is_command_name : Text → Bool
unfolding all_command_chars is_command_char
is_command_name s = leb 1 (length s) && leb (length s) 32 && all_command_chars s

-- `strings.ContainsAny` for a set of ASCII bytes
pub contains_any_byte : Text → (ℕ → Bool) → Bool
contains_any_byte [] p = false
contains_any_byte (c ∷ s) p = p c || contains_any_byte s p

abbrev is_line_break : ℕ → Bool
is_line_break c = c == 13 || c == 10

abbrev pub is_known_visibility : Visibility → Bool
is_known_visibility (other_visibility n) = false
is_known_visibility _ = true

-- `withTerminalPunctuation`
unfoldable pub with_terminal_punctuation : Text → Text
with_terminal_punctuation value =
    let v = trim_space value in
    if text_eq v []
    then []
    else if has_suffix v (codes ".") || has_suffix v (codes "!") || has_suffix v (codes "?")
    then v
    else v ++ codes "."

module _ {H : Type 0} where
  -- `TelegramMenuDescription`, with `SummarySentence`
  unfoldable pub telegram_menu_description : Command H → Text
  unfolding with_terminal_punctuation
  telegram_menu_description c =
      let parameters = trim_space c.parameters in
      (if text_eq parameters [] then [] else with_terminal_punctuation parameters ++ codes " ")
      ++ with_terminal_punctuation c.description

abbrev in_range : ℕ → ℕ → ℕ → Bool
in_range lo hi c = leb lo c && leb c hi

byte_from : Text → ℕ → ℕ
byte_from [] i = 0
byte_from (x ∷ s) zero = x
byte_from (x ∷ s) (suc i) = byte_from s i

-- The bytes of the code point that a text begins with, as Go decodes UTF-8: an invalid byte stands
-- alone.
rune_width : Text → ℕ
unfolding byte_from
rune_width s =
    let a = byte_from s 0 in
    let b = byte_from s 1 in
    let c = in_range 0x80 0xBF (byte_from s 2) in
    let d = in_range 0x80 0xBF (byte_from s 3) in
    let second_of_three =
      if a == 0xE0
      then in_range 0xA0 0xBF b
      else if a == 0xED
      then in_range 0x80 0x9F b
      else in_range 0x80 0xBF b in
    let second_of_four =
      if a == 0xF0
      then in_range 0x90 0xBF b
      else if a == 0xF4
      then in_range 0x80 0x8F b
      else in_range 0x80 0xBF b in
    if in_range 0xC2 0xDF a && in_range 0x80 0xBF b
    then 2
    else if in_range 0xE0 0xEF a && second_of_three && c
    then 3
    else if in_range 0xF0 0xF4 a && second_of_four && c && d
    then 4
    else 1

-- The count, with a bound on its rounds.
runes_from : ℕ → Text → ℕ
runes_from zero s = 0
runes_from (suc f) [] = 0
runes_from (suc f) (x ∷ s) = suc (runes_from f (drop (rune_width (x ∷ s)) (x ∷ s)))

-- `utf8.RuneCountInString`; a code point has at least one byte, so the length bounds the rounds.
unfoldable pub rune_count_in_string : Text → ℕ
unfolding runes_from rune_width
rune_count_in_string s = runes_from (length s) s

abbrev pub telegram_command_description_max_runes : ℕ
telegram_command_description_max_runes = 256

-- What a registration is refused for.
pub data ItemError : Type 0 where
  bad_command_name unknown_visibility no_description multi_line_description multi_line_parameters
        long_menu_description nil_handler no_cron_name no_prefix bad_prefix :
      ItemError

-- The conditions of `if` statements that return in turn
abbrev pub first_error : List (Bool × ItemError) → Option ItemError
first_error [] = none
first_error ((b, e) ∷ rest) = if b then some e else first_error rest

abbrev pub is_nil {ℓ} : {A : Type ℓ} → Option A → Bool
is_nil none = true
is_nil (some a) = false

abbrev pub is_public : Visibility → Bool
is_public visibility_public = true
is_public _ = false

module _ {H : Type 0} where
  -- `validateCommand`
  unfoldable pub validate_command : Command H → Option ItemError
  unfolding telegram_menu_description rune_count_in_string contains_any_byte is_command_name
  validate_command c = first_error (
      (not (is_command_name c.name), bad_command_name)
      ∷ (not (is_known_visibility c.visibility), unknown_visibility)
      ∷ (text_eq (trim_space c.description) [], no_description)
      ∷ (contains_any_byte c.description is_line_break, multi_line_description)
      ∷ (contains_any_byte c.parameters is_line_break, multi_line_parameters)
      ∷ (
        is_public c.visibility
            && ltb telegram_command_description_max_runes
                (rune_count_in_string (telegram_menu_description c)),
        long_menu_description,
      )
      ∷ (is_nil c.handler, nil_handler)
      ∷ [])

  -- `validateCron`
  unfoldable pub validate_cron : Cron H → Option ItemError
  validate_cron c =
      first_error ((text_eq c.name [], no_cron_name) ∷ (is_nil c.handler, nil_handler) ∷ [])

  -- `validateCallback`
  unfoldable pub validate_callback : Callback H → Option ItemError
  unfolding contains_any_byte
  validate_callback c = first_error (
      (text_eq (trim_space c.prefix) [], no_prefix)
      ∷ (
        ltb 32 (length c.prefix) || contains_any_byte c.prefix (λ b. is_line_break b || b == 0),
        bad_prefix,
      )
      ∷ (not (is_known_visibility c.visibility), unknown_visibility)
      ∷ (is_nil c.handler, nil_handler)
      ∷ [])
