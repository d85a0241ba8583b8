-- ===== src/Modules/Dispatcher.antt =====
-- Who may run a command, and which command an update asks for (internal/modules/dispatcher.go).
pub mod Access
pub mod Unique
use miti99bot.Base.{
  ℕ, ◌+◌, ◌-◌, Bool, true, false, not, ◌&&◌, ◌||◌, Option, none, some, List, [], ◌∷◌, map, ltb, leb,
  ◌==◌, if◌then◌else◌, length, take, drop, Text, text_eq, ℤ, pos, negsuc, int_eq,
}
use miti99bot.Chat.{index_byte}
use miti99bot.Modules.{
  Visibility, visibility_public, visibility_protected, visibility_private, visibility_unlisted,
  other_visibility,
}

-- `Auth`; the map of administrators is its look-up.
pub record Auth : Type 0 where
  pub bot_owner_id : ℤ
  pub admin_user_ids : ℤ → Bool

-- `models.MessageEntity`; offsets are Go ints.
pub record MessageEntity : Type 0 where
  pub is_bot_command : Bool
  pub offset : ℤ
  pub size : ℤ

-- The parts of `models.Message` that the dispatcher reads; none is a nil `From`.
pub record UpdateMessage : Type 0 where
  pub sender : Option ℤ
  pub text : Text
  pub entities : List MessageEntity

-- `models.Update`: the message, and the senders of a callback query and of an inline query.
pub record Update : Type 0 where
  pub message : Option UpdateMessage
  pub callback_query : Option ℤ
  pub inline_query : Option ℤ

abbrev zero_id : ℤ
zero_id = pos 0

-- The sender of an update; 0 is none.
unfoldable pub sender_id : Update → ℤ
sender_id u =
    let by_inline : ℤ = elim u.inline_query [ none ↦ zero_id | some id ↦ id ] in
    let by_query : ℤ = elim u.callback_query [ none ↦ by_inline | some id ↦ id ] in
    elim u.message [ none ↦ by_query | some m ↦ elim m.sender [ none ↦ by_query | some id ↦ id ] ]

abbrev is_owner : Auth → ℤ → Bool
is_owner auth id = not (int_eq auth.bot_owner_id zero_id) && int_eq id auth.bot_owner_id

-- `Permits`; none is a nil update.
unfoldable pub permits : Auth → Visibility → Option Update → Bool
unfolding sender_id
permits auth visibility_public u = true
permits auth visibility_unlisted u = true
permits auth v none = false
permits auth v (some u) =
    let id = sender_id u in
    if int_eq id zero_id then false else elim v [
      | visibility_private ↦ is_owner auth id
      | visibility_protected ↦ if is_owner auth id then true else auth.admin_user_ids id
      | _ ↦ false
    ]

-- `text[e.Offset+1 : end]` where the entity lies inside the text, and has a byte
unfoldable pub entity_token : Text → MessageEntity → Option Text
entity_token text e = elim e.offset [
  | negsuc n ↦ none
  | pos offset ↦ elim e.size [
    | negsuc n ↦ none
    | pos size ↦
        if ltb (length text) (offset + size) || ltb size 1
        then none
        else some (take (size - 1) (drop (offset + 1) text))
  ]
]

-- `tok[:i]` at the first '@'
unfoldable pub strip_bot_name : Text → Text
unfolding index_byte
strip_bot_name tok = elim (index_byte tok b'@') [ none ↦ tok | some i ↦ take i tok ]

abbrev pub lower : ℕ → ℕ
lower c = if leb 65 c && leb c 90 then c + 32 else c

-- The simple case folding of Unicode as far as it meets the alphabet of command names: A to Z, the
-- Kelvin sign (0xE2 0x84 0xAA) for k, and the long s (0xC5 0xBF) for s.
unfoldable pub fold_token : Text → Text
fold_token [] = []
fold_token (a ∷ []) = lower a ∷ []
fold_token (a ∷ b ∷ []) =
    if a == 0xC5 && b == 0xBF then b's' ∷ [] else lower a ∷ fold_token (b ∷ [])
fold_token (a ∷ b ∷ c ∷ s) =
    let plain = lower a ∷ fold_token (b ∷ c ∷ s) in
    let long_s = b's' ∷ fold_token (c ∷ s) in
    let kelvin = b'k' ∷ fold_token s in
    if a == 0xC5 && b == 0xBF
    then long_s
    else if a == 0xE2 && b == 0x84 && c == 0xAA
    then kelvin
    else plain

-- `strings.EqualFold` of a token with the name of a command
unfoldable pub equal_fold : Text → Text → Bool
unfolding fold_token
equal_fold tok name = text_eq (fold_token tok) (fold_token name)

-- The loop of `matchCommand`
unfoldable pub match_entities : Text → Text → List MessageEntity → Bool
unfolding entity_token strip_bot_name equal_fold
match_entities name text [] = false
match_entities name text (e ∷ es) =
    let rest = match_entities name text es in
    if not e.is_bot_command then rest else elim (entity_token text e) [
      | none ↦ rest
      | some tok ↦ if equal_fold (strip_bot_name tok) name then true else rest
    ]

-- `matchCommand`
unfoldable pub match_command : Text → Option Update → Bool
unfolding match_entities
match_command name none = false
match_command name (some u) = elim u.message [
  | none ↦ false
  | some m ↦ match_entities name m.text m.entities
]
