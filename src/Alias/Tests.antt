-- ===== src/Alias/Tests.antt =====
-- Saved messages over concrete stores, and the theorems at concrete inputs.
use miti99bot.Base.{
  ℕ, ◌≡◌, refl, Bool, true, false, Option, none, some, List, [], ◌∷◌, take, Text, codes, text_eq,
  has_prefix, lookup, insert, erase, ℤ, pos,
}
use miti99bot.Chat.{arg_after_command, trim_space, leading_space}
use miti99bot.Storage.Contract.{ok, Doc, DocStore, IsDocStore}
use miti99bot.Storage.Keys.{validate_key}
use miti99bot.Storage.Table.{Table, table_store, table_view, table_version, table_store-IsDocStore}
use miti99bot.Modules.{visibility_public, Command}
use miti99bot.Modules.Validate.{is_command_name}
use miti99bot.Modules.Registry.{Registry}
use miti99bot.Blacklist.Handlers.{fields}
use miti99bot.Alias.{kind_sticker, kind_photo, Alias}
use miti99bot.Alias.Names.{parse_name, name_of_word, matches_name, lower_ascii, all_name_chars}
use miti99bot.Alias.Names.Keys.{parse_name-key}
use miti99bot.Alias.Media.{
  Replied, largest_photo, capture_plain, capture_message, capture, Call, send_photo, call_for, bare,
}
use miti99bot.Alias.Inline.{cached_sticker, inline_result, handle_inline}
use miti99bot.Alias.Inline.Answers.{all_results, under, handle_inline_lem}
use miti99bot.Alias.Handlers.{
  AliasMessage, delivered, is_command, save_alias, alias_under, handle_alias, handle_insert,
  handle_unalias,
}
use miti99bot.Alias.Handlers.Names.{handle_alias-unshadowed}

abbrev Entity : Type 0
Entity = Unit {0}

abbrev blank : Replied Entity
blank = record {
  from_is_bot = some false;
  text = [];
  entities = [];
  caption = [];
  caption_entities = [];
  sticker = none;
  photo = [];
  animation = none;
  video = none;
  video_note = none;
  audio = none;
  voice = none;
  document = none;
  location = false;
  contact = false;
  poll = false;
  dice = false;
  venue = false;
  game = false;
}

abbrev small_size : ℤ
small_size = pos 10

abbrev a_photo : Replied Entity
a_photo = record blank {
  caption = codes "look";
  photo =
      record { file_id = codes "small"; file_size = small_size }
      ∷ record { file_id = codes "large"; file_size = pos 90 }
      ∷ [];
}

abbrev a_message : Text → Option (Replied Entity) → AliasMessage Entity
a_message text reply = record {
  chat_id = pos 5;
  message_thread_id = pos 2;
  text = text;
  sender = some (pos 7);
  reply_to = reply;
}

abbrev Saved : Type 0
Saved = Table (Alias Entity)

abbrev set_saved : Saved → Saved → Saved
set_saved t s = t

abbrev names : DocStore Saved (Alias Entity)
names = table_store (λ s. s) set_saved

abbrev holds : Saved → Text → Option (Alias Entity)
holds = table_view (λ s. s) set_saved

abbrev versions : Saved → Text → ℕ
versions = table_version (λ s. s) set_saved

laws : IsDocStore names holds versions
laws = table_store-IsDocStore (λ s. s) set_saved (λ t s. refl)

abbrev ping : Command (Unit {0})
ping = record {
  name = codes "ping";
  visibility = visibility_public;
  description = codes "Pong";
  parameters = [];
  handler = some tt;
}

abbrev registry : Registry (Unit {0}) (Unit {0})
registry = record {
  modules = [];
  all_commands = (codes "ping", ping) ∷ [];
  public_cmds = (codes "ping", ping) ∷ [];
  protected_cmds = [];
  private_cmds = [];
  crons = [];
  cron_deps = [];
  callbacks = [];
  command_hooks = [];
  fallback = none;
  inline = none;
}

abbrev accept_all : Call Entity → Bool
accept_all c = true

runs : Unit {0}
unfolding parse_name name_of_word matches_name all_name_chars lower_ascii fields capture
    capture_message capture_plain largest_photo call_for is_command save_alias alias_under
    handle_alias handle_insert handle_unalias arg_after_command trim_space leading_space text_eq
    has_prefix lookup insert erase
runs = tt

parse_name-key_example :
    (validate_key (codes "gg_1") ≡ none)
    × (is_command_name (codes "gg_1") ≡ true)
    × (parse_name (codes "gg_1") ≡ some (codes "gg_1", codes "gg_1"))
unfolding runs
parse_name-key_example = parse_name-key (codes " @GG_1 ") (codes "GG_1") (codes "gg_1") refl

handle_alias-unshadowed_example :
    let msg = a_message (codes "/alias Ping") (some a_photo) in
    ((k : Text)
      → is_command (some registry) names (pos 1) accept_all k ≡ true
      → holds (handle_alias (some registry) names (pos 1) accept_all (some msg) []).1 k ≡ none)
    × ((k : Text)
        → is_command (some registry) names (pos 1) accept_all k ≡ true
        → holds (handle_unalias (some registry) names (pos 1) accept_all (some msg) []).1 k ≡ none)
unfolding runs
handle_alias-unshadowed_example =
    handle_alias-unshadowed (some registry) names holds versions laws (pos 1) accept_all
      (a_message (codes "/alias Ping") (some a_photo)) [] (λ k c. refl)

abbrev the_alias : Alias Entity
the_alias = bare kind_photo (codes "large") (codes "look") []

inserted :
    let msg = a_message (codes "/alias Cheer") (some a_photo) in
    let msg' = a_message (codes "/insert cheer") none in
    handle_insert
      (some registry)
      names
      (pos 1)
      accept_all
      (some msg')
      (handle_alias (some registry) names (pos 1) accept_all (some msg) []).1
    ≡ delivered (send_photo (pos 5) (pos 2) (codes "large") (codes "look") [])
unfolding runs
inserted = refl

abbrev two_docs : List (Doc (Alias Entity))
two_docs =
    record { id = codes "cheer"; val = the_alias }
    ∷ record { id = codes "gg"; val = record the_alias { kind = kind_sticker } }
    ∷ []

abbrev scanned : DocStore Saved (Alias Entity)
scanned = record names { scan = λ p s. ok two_docs }

abbrev keep_case : Text → Text
keep_case s = s

handle_inline_example :
    handle_inline scanned keep_case (some (codes " g")) []
    ≡ some (take 50 (all_results (under (codes "g") two_docs)))
unfolding trim_space leading_space
handle_inline_example = handle_inline_lem scanned keep_case (codes " g") [] two_docs refl

one_answer :
    handle_inline scanned keep_case (some (codes " g")) []
    ≡ some (cached_sticker (codes "gg") (codes "large") ∷ [])
unfolding handle_inline trim_space leading_space inline_result text_eq has_prefix
one_answer = refl
