-- ===== src/Alias/Handlers.antt =====
-- The commands and the fallback (internal/modules/alias/handlers.go). A reply is its kind with
-- what it shows. Whether Telegram accepts a call is a parameter; the outcome of sending a reply
-- is left out. The time limits and the log lines are not modelled.
pub mod Names
use miti99bot.Base.{
  Bool, true, false, not, Option, none, some, [], ◌∷◌, if◌then◌else◌, Text, lookup, ℤ, pos,
}
use miti99bot.Chat.{arg_after_command}
use miti99bot.Storage.Contract.{Failure, Result, ok, err, DocStore, found_or_none}
use miti99bot.Modules.Registry.{Registry}
use miti99bot.Alias.{Kind, Alias}
use miti99bot.Alias.Names.{parse_name}
use miti99bot.Alias.Media.{Replied, from_another_bot, has_content, capture, Call, call_for}
use miti99bot.Alias.Listing.{render_names}

-- The parts of `models.Message` that the commands read
pub record AliasMessage (E : Type 0) : Type 0 where
  pub chat_id : ℤ
  pub message_thread_id : ℤ
  pub text : Text
  pub sender : Option ℤ
  pub reply_to : Option (Replied E)

-- One constructor for each text that a handler replies with; `delivered` is a call of `send` that
-- Telegram accepted, `undelivered` one that it refused, or none for an unknown kind, when the error
-- is returned.
pub data Reply (E : Type 0) : Type 0 where
  silent generic_failure alias_usage no_reply other_bot stripped_reply unsupported : Reply E
  insert_usage unalias_usage no_aliases : Reply E
  taken_by_command unsaved not_saved unsendable deleted : Text → Reply E
  saved : Text → Kind → Reply E
  replaced : Text → Kind → Kind → Reply E
  listed : Text → Reply E
  delivered : Call E → Reply E
  undelivered : Option (Call E) → Reply E

module _ {E S H C : Type 0} (reg : Option (Registry H C)) (store : DocStore S (Alias E))
    (now_millis : ℤ) (accepts : Call E → Bool) where
  -- `s.reg.AllCommands[key]`
  unfoldable pub is_command : Text → Bool
  is_command key = elim reg [
    | none ↦ false
    | some r ↦ elim (lookup key r.all_commands) [ none ↦ false | some c ↦ true ]
  ]

  abbrev pub sender_or_zero : Option ℤ → ℤ
  sender_or_zero none = pos 0
  sender_or_zero (some id) = id

  -- The entry that is written
  abbrev pub stamped : AliasMessage E → Text → Alias E → Alias E
  stamped msg display entry = record entry {
    name = display;
    owner_id = sender_or_zero msg.sender;
    created_at = now_millis;
  }

  -- The reply to a message that cannot be saved
  abbrev pub refusal : Option (Replied E) → Reply E
  refusal m =
      if from_another_bot m
      then other_bot
      else if not (has_content m)
      then stripped_reply
      else unsupported

  -- The writing part of `handleAlias`
  unfoldable pub save_alias : Text → Text → Alias E → S → Reply E × S
  save_alias display key entry s = elim (found_or_none (store.get key s)) [
    | err e ↦ (generic_failure, s)
    | ok previous ↦
        let (r, s') = store.put key entry s in
        elim r [
          | err e ↦ (generic_failure, s')
          | ok u ↦ elim previous [
            | none ↦ (saved display entry.kind, s')
            | some old ↦ (replaced display old.kind entry.kind, s')
          ]
        ]
  ]

  -- `handleAlias` for a name that was parsed
  unfoldable pub alias_under : AliasMessage E → Text → Text → S → Reply E × S
  unfolding save_alias is_command
  alias_under msg display key s = elim msg.reply_to [
    | none ↦ (no_reply, s)
    | some m ↦
        let save : Reply E × S = elim (capture msg.reply_to) [
          | none ↦ (refusal msg.reply_to, s)
          | some entry ↦ save_alias display key (stamped msg display entry) s
        ] in
        if is_command key then (taken_by_command key, s) else save
  ]

  -- `handleAlias`
  unfoldable pub handle_alias : Option (AliasMessage E) → S → Reply E × S
  unfolding alias_under
  handle_alias none s = (silent, s)
  handle_alias (some msg) s = elim (parse_name (arg_after_command msg.text)) [
    | none ↦ (alias_usage, s)
    | some (display, key) ↦ alias_under msg display key s
  ]

  -- `send`
  unfoldable pub send : AliasMessage E → Alias E → Reply E
  send msg a = elim (call_for msg.chat_id msg.message_thread_id a) [
    | none ↦ undelivered none
    | some c ↦ if accepts c then delivered c else undelivered (some c)
  ]

  abbrev pub or_unsendable : Text → Reply E → Reply E
  or_unsendable display (undelivered c) = unsendable display
  or_unsendable display r = r

  -- `handleInsert`
  unfoldable pub handle_insert : Option (AliasMessage E) → S → Reply E
  unfolding send
  handle_insert none s = silent
  handle_insert (some msg) s = elim (parse_name (arg_after_command msg.text)) [
    | none ↦ insert_usage
    | some (display, key) ↦ elim (found_or_none (store.get key s)) [
      | err e ↦ generic_failure
      | ok found ↦ elim found [
        | none ↦ unsaved display
        | some entry ↦ or_unsendable display (send msg entry)
      ]
    ]
  ]

  -- `handleUnalias`
  unfoldable pub handle_unalias : Option (AliasMessage E) → S → Reply E × S
  handle_unalias none s = (silent, s)
  handle_unalias (some msg) s = elim (parse_name (arg_after_command msg.text)) [
    | none ↦ (unalias_usage, s)
    | some (display, key) ↦ elim (found_or_none (store.get key s)) [
      | err e ↦ (generic_failure, s)
      | ok found ↦ elim found [
        | none ↦ (not_saved display, s)
        | some entry ↦
            let (r, s') = store.delete key s in
            elim r [ err e ↦ (generic_failure, s') | ok u ↦ (deleted display, s') ]
      ]
    ]
  ]

  -- `handleFallback`
  unfoldable pub handle_fallback : Text → Option (AliasMessage E) → S → Reply E
  unfolding send
  handle_fallback name none s = silent
  handle_fallback name (some msg) s = elim (parse_name name) [
    | none ↦ silent
    | some (display, key) ↦ elim (found_or_none (store.get key s)) [
      | err e ↦ silent
      | ok found ↦ elim found [ none ↦ silent | some entry ↦ send msg entry ]
    ]
  ]

  -- `handleAliases`
  unfoldable pub handle_aliases : Option (AliasMessage E) → S → Reply E
  handle_aliases none s = silent
  handle_aliases (some msg) s = elim (store.scan [] s) [
    | err e ↦ generic_failure
    | ok docs ↦ elim docs [ [] ↦ no_aliases | doc ∷ rest ↦ listed (render_names (doc ∷ rest)) ]
  ]
