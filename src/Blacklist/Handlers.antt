-- ===== src/Blacklist/Handlers.antt =====
-- The commands (internal/modules/blacklist/handlers.go, normalize.go). A reply is its kind with
-- what it shows; its wording is left out. Unicode's NFKC and lower case are parameters, so are the
-- clock and the random choice. Telegram's answer to a reply is the caller's.
pub mod Effects
use miti99bot.Base.{
  ℕ, zero, suc, Bool, true, false, not, ◌&&◌, Option, none, some, List, [], ◌∷◌, ◌++◌, ltb, ◌==◌,
  if◌then◌else◌, length, get_elem?, drop, there, Text, codes, text_eq, has_prefix, ℤ, pos,
}
use miti99bot.Chat.{arg_after_command, trim_space, leading_space}
use miti99bot.Storage.Memory.{sort_keys}
use miti99bot.Storage.Contract.{Failure, Result, ok, err, Doc, DocStore, found_or_none}
use miti99bot.Blacklist.Match.{Verdict, check}
use miti99bot.Blacklist.Scope.{
  ListTag, list_black, list_white, max_entry_bytes, decode_key_text, scope_prefix, entry_key,
}

-- `Entry`
pub record Entry : Type 0 where
  pub text : Text
  pub owner_id : ℤ
  pub created_at : ℤ

-- The parts of `models.Message` that the commands read; the message replied to is its text and
-- caption.
pub record TopicMessage : Type 0 where
  pub chat_id : ℤ
  pub message_thread_id : ℤ
  pub is_topic_message : Bool
  pub text : Text
  pub sender : Option ℤ
  pub reply_to : Option (Text × Text)

-- What the module takes from outside.
pub record Outside : Type 0 where
  pub nfkc : Text → Text
  pub to_lower : Text → Text
  pub now_millis : ℤ
  pub int_n : ℕ → ℕ

-- The words of a text between runs of white space; `word` holds the bytes read of the current one.
unfoldable pub fields_from : ℕ → Text → Text → List Text
fields_from zero word s = []
fields_from (suc f) word [] = if text_eq word [] then [] else word ∷ []
fields_from (suc f) word (x ∷ s) =
    let n = leading_space (x ∷ s) in
    let rest = fields_from f [] (drop n (x ∷ s)) in
    let longer = fields_from f (word ++ x ∷ []) s in
    if n == 0 then longer else if text_eq word [] then rest else word ∷ rest

-- `strings.Fields`; each round reads a byte at least.
unfoldable pub fields : Text → List Text
unfolding fields_from leading_space
fields s = fields_from (suc (length s)) [] s

-- `strings.Join(words, " ")`
unfoldable pub join_words : List Text → Text
join_words [] = []
join_words (w ∷ []) = w
join_words (w ∷ v ∷ ws) = w ++ (codes " " ++ join_words (v ∷ ws))

-- `Normalize`
unfoldable pub normalize : Outside → Text → Option Text
unfolding fields join_words
normalize out s =
    let words = fields (out.to_lower (out.nfkc s)) in
    if length words == 0 then none else some (join_words words)

-- `threadOf`
unfoldable pub thread_of : TopicMessage → ℤ × ℤ
thread_of msg =
    if msg.is_topic_message then (msg.chat_id, msg.message_thread_id) else (msg.chat_id, pos 0)

-- `textOf` the message replied to
abbrev pub text_of : Text × Text → Text
text_of (text, caption) = if text_eq text [] then caption else text

pub data ResolveError : Type 0 where
  no_text empty_text long_text : ResolveError

pub data Resolved : Type 0 where
  resolved : Text → Text → Resolved
  unresolved : ResolveError → Resolved

abbrev raw_text : TopicMessage → Bool → Text
raw_text msg allow_reply =
    let argument = arg_after_command msg.text in
    let replied : Text = elim msg.reply_to [ none ↦ argument | some m ↦ text_of m ] in
    trim_space (if text_eq argument [] && allow_reply then replied else argument)

-- `resolveText`
unfoldable pub resolve_text : Outside → TopicMessage → Bool → Resolved
unfolding arg_after_command trim_space normalize
resolve_text out msg allow_reply =
    let raw = raw_text msg allow_reply in
    if text_eq raw []
    then unresolved no_text
    else if ltb max_entry_bytes (length raw)
    then unresolved long_text
    else elim (normalize out raw) [
      | none ↦ unresolved empty_text
      | some norm_text ↦
          if ltb max_entry_bytes (length norm_text)
          then unresolved long_text
          else resolved raw norm_text
    ]

-- The kinds of replies; a list that could not be read is left out.
pub data Reply : Type 0 where
  usage : ResolveError → Reply
  check_usage generic_failure empty_whitelist : Reply
  already_listed added not_listed removed : Text → Option (List (Doc Entry)) → Reply
  judged : Verdict → Reply
  rules : List (Doc Entry) → List (Doc Entry) → Reply
  picked : Text → Reply

abbrev shown : Result (List (Doc Entry)) → Option (List (Doc Entry))
shown (ok docs) = some docs
shown (err e) = none

abbrev pub trim_prefix : Text → Text → Text
trim_prefix k p = if has_prefix k p then drop (length p) k else k

-- The text that a listing shows for an entry
unfoldable pub shown_text : Text → Doc Entry → Text
shown_text prefix doc =
    if text_eq doc.val.text [] then decode_key_text (trim_prefix doc.id prefix) else doc.val.text

entry_texts : Text → List Text → List Text
entry_texts prefix [] = []
entry_texts prefix (k ∷ ks) = decode_key_text (trim_prefix k prefix) ∷ entry_texts prefix ks

abbrev entries_of : Text → Result (List Text) → Result (List Text)
entries_of prefix (ok keys) = ok (sort_keys (entry_texts prefix keys))
entries_of prefix (err e) = err e

abbrev doc_at : ℕ → List (Doc Entry) → Option (Doc Entry)
doc_at i docs = get_elem? docs i

module _ {S : Type 0} (out : Outside) (store : DocStore S Entry) where
  -- `replyWithList`: what the reply shows of the list
  abbrev pub listing : Text → S → Option (List (Doc Entry))
  listing prefix s = shown (store.scan prefix s)

  abbrev pub sender_or_zero : Option ℤ → ℤ
  sender_or_zero none = pos 0
  sender_or_zero (some id) = id

  abbrev pub new_entry : TopicMessage → Text → Entry
  new_entry msg raw = record {
    text = raw;
    owner_id = sender_or_zero msg.sender;
    created_at = out.now_millis;
  }

  -- `handleAdd` from its look-up on
  unfoldable pub add_entry : ListTag → TopicMessage → Text → Text → S → Reply × S
  add_entry list msg raw norm_text s =
      let (chat_id, thread_id) = thread_of msg in
      let prefix = scope_prefix chat_id thread_id list in
      let key = entry_key chat_id thread_id list norm_text in
      elim (found_or_none (store.get key s)) [
        | err e ↦ (generic_failure, s)
        | ok found ↦ elim found [
          | some existing ↦ (already_listed existing.text (listing prefix s), s)
          | none ↦
              let (r, s') = store.put key (new_entry msg raw) s in
              elim r [ err e ↦ (generic_failure, s') | ok u ↦ (added raw (listing prefix s'), s') ]
        ]
      ]

  -- `handleAdd`
  unfoldable pub handle_add : ListTag → TopicMessage → S → Reply × S
  unfolding add_entry
  handle_add list msg s = elim (resolve_text out msg true) [
    | unresolved e ↦ (usage e, s)
    | resolved raw norm_text ↦ add_entry list msg raw norm_text s
  ]

  -- `handleDel` from its look-up on
  unfoldable pub remove_entry : ListTag → TopicMessage → Text → Text → S → Reply × S
  remove_entry list msg raw norm_text s =
      let (chat_id, thread_id) = thread_of msg in
      let prefix = scope_prefix chat_id thread_id list in
      let key = entry_key chat_id thread_id list norm_text in
      elim (found_or_none (store.get key s)) [
        | err e ↦ (generic_failure, s)
        | ok found ↦ elim found [
          | none ↦ (not_listed raw (listing prefix s), s)
          | some existing ↦
              let (r, s') = store.delete key s in
              elim r [
                | err e ↦ (generic_failure, s')
                | ok u ↦ (removed raw (listing prefix s'), s')
              ]
        ]
      ]

  -- `handleDel`
  unfoldable pub handle_del : ListTag → TopicMessage → S → Reply × S
  unfolding remove_entry
  handle_del list msg s = elim (resolve_text out msg false) [
    | unresolved e ↦ (usage e, s)
    | resolved raw norm_text ↦ remove_entry list msg raw norm_text s
  ]

  -- `entriesFor`
  unfoldable pub entries_for : ℤ → ℤ → ListTag → S → Result (List Text)
  unfolding entry_texts
  entries_for chat_id thread_id list s =
      let prefix = scope_prefix chat_id thread_id list in entries_of prefix (store.list prefix s)

  -- `checkText`
  unfoldable pub check_text : TopicMessage → Text → S → Reply
  unfolding entries_for check
  check_text msg norm_text s =
      let (chat_id, thread_id) = thread_of msg in
      elim (entries_for chat_id thread_id list_black s) [
        | err e ↦ generic_failure
        | ok black ↦ elim (entries_for chat_id thread_id list_white s) [
          | err e ↦ generic_failure
          | ok white ↦ judged (check norm_text black white)
        ]
      ]

  -- `showRules`
  unfoldable pub show_rules : TopicMessage → S → Reply
  show_rules msg s =
      let (chat_id, thread_id) = thread_of msg in
      elim (store.scan (scope_prefix chat_id thread_id list_black) s) [
        | err e ↦ generic_failure
        | ok black ↦ elim (store.scan (scope_prefix chat_id thread_id list_white) s) [
          | err e ↦ generic_failure
          | ok white ↦ rules black white
        ]
      ]

  -- `handleCheck` and `handleShort`
  unfoldable pub handle_check : TopicMessage → S → Reply
  unfolding check_text
  handle_check msg s = elim (normalize out (arg_after_command msg.text)) [
    | none ↦ check_usage
    | some norm_text ↦ check_text msg norm_text s
  ]

  unfoldable pub handle_short : TopicMessage → S → Reply
  unfolding check_text show_rules
  handle_short msg s = elim (normalize out (arg_after_command msg.text)) [
    | none ↦ show_rules msg s
    | some norm_text ↦ check_text msg norm_text s
  ]

  -- `handleWhitelistRandom`; an index out of range, which `rand.IntN` never gives, would be a panic
  -- there.
  unfoldable pub handle_whitelist_random : TopicMessage → S → Option Reply
  unfolding shown_text
  handle_whitelist_random msg s =
      let (chat_id, thread_id) = thread_of msg in
      let prefix = scope_prefix chat_id thread_id list_white in
      elim (store.scan prefix s) [
        | err e ↦ some generic_failure
        | ok docs ↦
            if length docs == 0
            then some empty_whitelist
            else elim (doc_at (out.int_n (length docs)) docs) [
              | none ↦ none
              | some pick ↦ some (picked (shown_text prefix pick))
            ]
      ]
