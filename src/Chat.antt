-- ===== src/Chat.antt =====
-- Reading a Telegram message (internal/modules/util/chathelper/chathelper.go).
use miti99bot.Base.{
  ℕ, zero, suc, ◌+◌, ◌≡◌, refl, Bool, ◌&&◌, ◌||◌, Option, none, some, [], ◌∷◌, leb, ◌==◌,
  if◌then◌else◌, length, drop, Text, codes, ℤ, pos, negsuc, format_int,
}
use mathlib.Core.Option
use mathlib.Core.List.{reverse}

-- `models.ChatType`
pub data ChatType : Type 0 where
  private_chat group supergroup channel : ChatType

-- The parts of `models.Message` that the handlers read.
pub record Message : Type 0 where
  pub chat_type : ChatType
  pub chat_id : ℤ
  pub sender : Option ℤ
  pub text : Text

-- `SubjectFor`; the empty text when there is no subject.
unfoldable pub subject_for : Message → Text
subject_for msg =
    let by_chat : Text = format_int msg.chat_id in
    let by_sender : Text = elim msg.sender [ none ↦ [] | some id ↦ format_int id ] in
    elim msg.chat_type [ group ↦ by_chat | supergroup ↦ by_chat | _ ↦ by_sender ]

-- `strings.IndexByte`
unfoldable pub index_byte : Text → ℕ → Option ℕ
index_byte [] c = none
index_byte (x ∷ xs) c =
    let rest = Option.map suc (index_byte xs c) in if x == c then some 0 else rest

-- The byte at a position, 0 past the end.
abbrev byte_at : Text → ℕ → ℕ
byte_at [] i = 0
byte_at (x ∷ xs) zero = x
byte_at (x ∷ xs) (suc i) = byte_at xs i

-- '\t', '\n', '\v', '\f', '\r' and ' '
pub is_ascii_space : ℕ → Bool
is_ascii_space c = (leb 9 c && leb c 13) || c == 32

-- U+0085 and U+00A0 in UTF-8
is_latin_space : ℕ → ℕ → Bool
is_latin_space a b = a == 0xC2 && (b == 0x85 || b == 0xA0)

-- U+1680, U+2000 to U+200A, U+2028, U+2029, U+202F, U+205F and U+3000 in UTF-8
is_wide_space : ℕ → ℕ → ℕ → Bool
is_wide_space a b c =
    (a == 0xE1 && b == 0x9A && c == 0x80)
    || (a == 0xE2
        && b == 0x80
        && ((leb 0x80 c && leb c 0x8A) || c == 0xA8 || c == 0xA9 || c == 0xAF))
    || (a == 0xE2 && b == 0x81 && c == 0x9F)
    || (a == 0xE3 && b == 0x80 && c == 0x80)

-- The number of bytes of the white space that a text begins with; 0 if it begins otherwise.
unfoldable pub leading_space : Text → ℕ
unfolding is_ascii_space is_latin_space is_wide_space
leading_space s =
    let a = byte_at s 0 in
    let b = byte_at s 1 in
    let c = byte_at s 2 in
    if is_ascii_space a
    then 1
    else if is_latin_space a b
    then 2
    else if is_wide_space a b c
    then 3
    else 0

-- The same for a text whose bytes are reversed.
trailing_space : Text → ℕ
trailing_space s =
    let a = byte_at s 0 in
    let b = byte_at s 1 in
    let c = byte_at s 2 in
    if is_ascii_space a
    then 1
    else if is_latin_space b a
    then 2
    else if is_wide_space c b a
    then 3
    else 0

-- Drops runs of white space from the front, at most as many as the first argument.
trim_with : (Text → ℕ) → ℕ → Text → Text
trim_with space zero s = s
trim_with space (suc f) s =
    let n = space s in let rest = trim_with space f (drop n s) in if n == 0 then s else rest

-- `strings.TrimSpace`
unfoldable pub trim_space : Text → Text
unfolding trim_with leading_space trailing_space is_ascii_space is_latin_space is_wide_space
trim_space s =
    let front = trim_with leading_space (length s) s in
    reverse (trim_with trailing_space (length front) (reverse front))

-- `ArgAfterCommand`
unfoldable pub arg_after_command : Text → Text
unfolding index_byte trim_space
arg_after_command [] = []
arg_after_command (c ∷ cs) = elim (index_byte (c ∷ cs) b' ') [
  | none ↦ []
  | some idx ↦ trim_space (drop (idx + 1) (c ∷ cs))
]

arg_of_guess : arg_after_command (codes "/wordle   crane ") ≡ codes "crane"
unfolding arg_after_command
arg_of_guess = refl

subject_of_group :
    subject_for
      (record { chat_type = group; chat_id = negsuc 99; sender = some (pos 7); text = [] })
    ≡ codes "-100"
unfolding subject_for format_int
subject_of_group = refl
