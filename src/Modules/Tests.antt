-- ===== src/Modules/Tests.antt =====
-- A small bot, and the theorems at concrete inputs.
use miti99bot.Base.{
  ◌≡◌, refl, ◌↔◌, true, false, none, some, [], ◌∷◌, arith, here, Text, codes, text_eq, has_prefix,
  Dict, lookup, insert, pos,
}
use miti99bot.Modules.{Callback, visibility_public, visibility_private, Command, Module, Deps}
use miti99bot.Modules.Validate.{
  validate_callback, validate_command, rune_count_in_string, telegram_menu_description,
  with_terminal_punctuation, is_command_name,
}
use miti99bot.Modules.Registry.{
  overlapping_owner, done, Registry, build, load_all, load_module, add_commands, add_crons,
  add_callbacks, add_singletons, index_command, no_registry,
}
use miti99bot.Modules.Registry.Commands.{IsListed}
use miti99bot.Modules.Registry.Loaded.{build-IsListed, build-declared}
use miti99bot.Modules.Dispatcher.{match_command, MessageEntity, Auth, Update, sender_id, permits}
use miti99bot.Modules.Dispatcher.Access.{IsAllowed, permits_iff}
use miti99bot.Modules.Registry.Prefixes.{build-callbacks}
use miti99bot.Modules.Dispatcher.Unique.{match_command_unique}
use miti99bot.Storage.Keys.{has_suffix}
use miti99bot.Storage.Memory.{is_collection_name, sort_keys}
use miti99bot.Chat.{trim_space, leading_space}

abbrev Handler : Type 0
Handler = Unit {0}

abbrev ping : Command Handler
ping = record {
  name = codes "ping";
  visibility = visibility_public;
  description = codes "Answer";
  parameters = [];
  handler = some tt;
}

abbrev misc : Module Handler
misc = record {
  name = codes "misc";
  commands = ping ∷ [];
  callbacks = [];
  crons = [];
  command_hook = none;
  fallback = none;
  inline = none;
}

abbrev factories : Dict (Deps Text → Module Handler)
factories = (codes "misc", λ deps. misc) ∷ []

abbrev reg : Registry Handler Text
reg = record (no_registry) {
  modules = misc ∷ [];
  all_commands = (codes "ping", ping) ∷ [];
  public_cmds = (codes "ping", ping) ∷ [];
}

builds : build (codes "misc" ∷ []) factories (λ n. n) ≡ done reg
unfolding build load_all load_module add_commands add_crons add_callbacks add_singletons
    index_command validate_command rune_count_in_string telegram_menu_description
    with_terminal_punctuation is_command_name trim_space leading_space has_suffix is_collection_name
    lookup insert text_eq has_prefix
builds = refl

build-IsListed_example : IsListed reg (codes "ping") ping
unfolding lookup text_eq
build-IsListed_example =
    build-IsListed (codes "misc" ∷ []) factories (λ n. n) reg builds (codes "ping") ping refl

build-declared_example : lookup (codes "ping") reg.all_commands ≡ some ping
build-declared_example =
    build-declared (codes "misc" ∷ []) factories (λ n. n) reg builds misc ping here here

abbrev auth : Auth
auth = record { bot_owner_id = pos 7; admin_user_ids = λ id. false }

abbrev from_owner : Update
from_owner = record {
  message = some (record { sender = some (pos 7); text = codes "/secret"; entities = [] });
  callback_query = none;
  inline_query = none;
}

permits_example :
    (permits auth visibility_private (some from_owner) ≡ true)
    ↔ IsAllowed auth visibility_private (pos 7)
unfolding sender_id
permits_example = permits_iff auth visibility_private from_owner

abbrev ping_entity : MessageEntity
ping_entity = record { is_bot_command = true; offset = pos 0; size = pos 9 }

match_command_unique_example : codes "ping" ≡ codes "ping"
unfolding match_command is_command_name text_eq
match_command_unique_example =
    match_command_unique (codes "ping") (codes "ping") (some (pos 7)) (codes "/PING@bot")
      ping_entity none none refl refl refl refl

abbrev button : Text → Callback Handler
button prefix = record { prefix = prefix; visibility = visibility_public; handler = some tt }

abbrev polls : Module Handler
polls = record (misc) {
  name = codes "polls";
  commands = [];
  callbacks = button (codes "vote:") ∷ button (codes "skip:") ∷ [];
}

abbrev poll_factories : Dict (Deps Text → Module Handler)
poll_factories = (codes "polls", λ deps. polls) ∷ []

abbrev poll_reg : Registry Handler Text
poll_reg = record (no_registry) {
  modules = polls ∷ [];
  callbacks =
      (codes "vote:", button (codes "vote:")) ∷ (codes "skip:", button (codes "skip:")) ∷ [];
}

-- No module is named, so the catalog is loaded.
poll_builds : build [] poll_factories (λ n. n) ≡ done poll_reg
unfolding build load_all load_module add_commands add_crons add_callbacks overlapping_owner
    validate_callback add_singletons trim_space leading_space sort_keys is_collection_name lookup
    insert text_eq has_prefix
poll_builds = refl

build-callbacks_example : has_prefix (codes "skip:") (codes "vote:") ≡ false
unfolding lookup text_eq
build-callbacks_example =
    build-callbacks [] poll_factories (λ n. n) poll_reg poll_builds (codes "vote:") (codes "skip:")
      (button (codes "vote:")) (button (codes "skip:")) refl refl (λ e. ground arith)
