-- ===== src/Modules/Dispatcher/Unique.antt =====
-- An update with one command names at most one registered command.
use miti99bot.Base.{
  ℕ, ◌<◌, ◌≡◌, refl, sym, ◌∙◌, inl, inr, true, Option, some, [], ◌∷◌, arith, Bool-cases,
  Option-cases, Text, text_eq→eq, ℤ,
}
use miti99bot.Modules.Validate.{is_command_char, all_command_chars, is_command_name}
use miti99bot.Modules.Dispatcher.{
  MessageEntity, Update, lower, fold_token, equal_fold, entity_token, strip_bot_name,
  match_entities, match_command,
}

lower-command_char : (c : ℕ) → is_command_char c ≡ true → lower c ≡ c
unfolding is_command_char
lower-command_char c h = ground arith

ascii_command_char : (c : ℕ) → is_command_char c ≡ true → c < 128
unfolding is_command_char
ascii_command_char c h = ground arith

-- Folding leaves the name of a command alone.
fold_token-name : (s : Text) → all_command_chars s ≡ true → fold_token s ≡ s
unfolding all_command_chars fold_token
fold_token-name [] h = refl
fold_token-name (a ∷ []) h = ground (arith, lower-command_char a)
fold_token-name (a ∷ b ∷ []) h =
    ground (arith, lower-command_char a, ascii_command_char a, fold_token-name (b ∷ []))
fold_token-name (a ∷ b ∷ c ∷ s) h =
    ground (arith, lower-command_char a, ascii_command_char a, fold_token-name (b ∷ c ∷ s))

fold_token-command : (s : Text) → is_command_name s ≡ true → fold_token s ≡ s
unfolding is_command_name
fold_token-command s h = fold_token-name s (ground arith)

equal_fold_unique :
    (tok a b : Text)
    → is_command_name a ≡ true
    → is_command_name b ≡ true
    → equal_fold tok a ≡ true
    → equal_fold tok b ≡ true
    → a ≡ b
unfolding equal_fold
equal_fold_unique tok a b va vb ha hb =
    let ea = text_eq→eq (fold_token tok) (fold_token a) ha in
    let eb = text_eq→eq (fold_token tok) (fold_token b) hb in
    sym (fold_token-command a va) ∙ sym ea ∙ eb ∙ fold_token-command b vb

-- What a match of a single entity shows.
match_entities-single :
    (a text : Text) (e : MessageEntity)
    → match_entities a text (e ∷ []) ≡ true
    → (tok : Text) × (entity_token text e ≡ some tok) × (equal_fold (strip_bot_name tok) a ≡ true)
unfolding match_entities
match_entities-single a text e h = elim (Bool-cases e.is_bot_command) [
  | inr k ↦ absurd (ground (arith, k, h))
  | inl k ↦ elim (Option-cases (entity_token text e)) [
    | inl none_there ↦ absurd (ground (arith, k, none_there, h))
    | inr (tok, t) ↦ (tok, t, ground (arith, k, t, h))
  ]
]

-- An update whose message has one entity
abbrev pub single : Option ℤ → Text → MessageEntity → Option ℤ → Option ℤ → Update
single sender text e query inline = record {
  message = some (record { sender = sender; text = text; entities = e ∷ [] });
  callback_query = query;
  inline_query = inline;
}

-- Among the names that the validation of commands accepts, at most one matches an update whose
-- message has a single entity, whatever its case and with or without the name of the bot behind it.
pub match_command_unique :
    (a b : Text) (sender : Option ℤ) (text : Text) (e : MessageEntity) (query inline : Option ℤ)
    → is_command_name a ≡ true
    → is_command_name b ≡ true
    → match_command a (some (single sender text e query inline)) ≡ true
    → match_command b (some (single sender text e query inline)) ≡ true
    → a ≡ b
unfolding match_command
match_command_unique a b sender text e query inline va vb ha hb =
    let (tok, t, ea) = match_entities-single a text e ha in
    let (tok', t', eb) = match_entities-single b text e hb in
    let same : tok ≡ tok' = ground (arith, t, t') in
    equal_fold_unique (strip_bot_name tok) a b va vb ea (ground (arith, same, eb))
