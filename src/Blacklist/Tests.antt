-- ===== src/Blacklist/Tests.antt =====
-- Runs of the rules' commands over a concrete store, and the theorems at concrete inputs.
use miti99bot.Base.{
  ℕ, ◌+◌, ◌≡◌, refl, ◌≢◌, ◌↔◌, true, false, Option, none, some, [], ◌∷◌, arith, Mem, Text, codes,
  text_eq, has_prefix, lookup, insert, erase, pos, negsuc, format_int,
}
use miti99bot.Chat.{arg_after_command, trim_space, leading_space}
use miti99bot.Storage.Contract.{DocStore, IsDocStore}
use miti99bot.Storage.Keys.{contains_byte}
use miti99bot.Storage.Table.{Table, table_store, table_view, table_version, table_store-IsDocStore}
use miti99bot.Blacklist.Match.{Span, occurrences, check}
use miti99bot.Blacklist.Match.Occurrences.{OccursAt, occurrences_iff}
use miti99bot.Blacklist.Match.Verdicts.{Offence, check_iff}
use miti99bot.Blacklist.Scope.{
  list_black, encode_key_text, decode_key_text, scope_prefix, entry_key,
}
use miti99bot.Blacklist.Scope.Escape.{decode-encode_key_text}
use miti99bot.Blacklist.Scope.Prefix.{entry_key_scope}
use miti99bot.Blacklist.Handlers.{
  Entry, TopicMessage, Outside, thread_of, resolved, resolve_text, handle_add, handle_del,
  normalize,
}
use miti99bot.Blacklist.Handlers.Effects.{
  handle_add-del_scope, handle_add-added, listed_entry, handle_del-removed,
}

abbrev first_span : Span
first_span = record { start = 1; stop = 3 }

occurrences_example :
    Mem first_span (occurrences (codes "aaa") (codes "aa"))
    ↔ (OccursAt (codes "aaa") (codes "aa") 1 × (3 ≡ 1 + 2))
occurrences_example = occurrences_iff (codes "aaa") (codes "aa") first_span (omega arith)

check_example : ((check (codes "a cat") (codes "cat" ∷ []) (codes "cats" ∷ [])).blocked ≡ true) ↔ (
    (entry : Text) × (i : ℕ) × Offence
      (codes "a cat")
      (codes "cat" ∷ [])
      (codes "cats" ∷ [])
      entry
      i)
check_example = check_iff (codes "a cat") (codes "cat" ∷ []) (codes "cats" ∷ [])

encode_key_text_example :
    (decode_key_text (encode_key_text (codes "50%/2F")) ≡ codes "50%/2F")
    × (contains_byte b'/' (encode_key_text (codes "50%/2F")) ≡ false)
encode_key_text_example = decode-encode_key_text (codes "50%/2F")

entry_key_example : (negsuc 99 ≡ negsuc 99) × (pos 3 ≡ pos 3) × (list_black ≡ list_black)
unfolding entry_key scope_prefix format_int encode_key_text has_prefix
entry_key_example =
    entry_key_scope (negsuc 99) (negsuc 99) (pos 3) (pos 3) list_black list_black (codes "a:b") refl

abbrev out : Outside
out = record { nfkc = λ s. s; to_lower = λ s. s; now_millis = pos 5; int_n = λ n. 0 }

abbrev rules_store : DocStore (Table Entry) Entry
rules_store = table_store (λ s. s) (λ t s. t)

abbrev rule_view : Table Entry → Text → Option Entry
rule_view = table_view (λ s. s) (λ t s. t)

abbrev rule_version : Table Entry → Text → ℕ
rule_version = table_version (λ s. s) (λ t s. t)

rules_laws : IsDocStore rules_store rule_view rule_version
rules_laws = table_store-IsDocStore (λ s. s) (λ t s. t) (λ t s. refl)

abbrev message : TopicMessage
message = record {
  chat_id = negsuc 99;
  message_thread_id = pos 3;
  is_topic_message = true;
  text = codes "/blacklist_add  cat";
  sender = some (pos 7);
  reply_to = none;
}

abbrev no_rules : Table Entry
no_rules = []

abbrev cat_key : Text
cat_key = codes "-100:3:b:cat"

abbrev one_rule : Table Entry
one_rule = (cat_key, (record { text = codes "cat"; owner_id = pos 7; created_at = pos 4 }, 1)) ∷ []

runs : Unit {0}
unfolding handle_add handle_del resolve_text normalize thread_of entry_key scope_prefix format_int
    encode_key_text arg_after_command trim_space leading_space lookup insert erase text_eq
    has_prefix
runs = tt

handle_add-del_scope_example :
    (rule_view
        (handle_add out rules_store list_black message no_rules).1
        (entry_key (negsuc 99) (pos 4) list_black (codes "cat"))
      ≡ rule_view no_rules (entry_key (negsuc 99) (pos 4) list_black (codes "cat")))
    × (rule_view
          (handle_del out rules_store list_black message no_rules).1
          (entry_key (negsuc 99) (pos 4) list_black (codes "cat"))
        ≡ rule_view no_rules (entry_key (negsuc 99) (pos 4) list_black (codes "cat")))
unfolding thread_of
handle_add-del_scope_example =
    handle_add-del_scope out rules_store rule_view rule_version rules_laws list_black message
      no_rules (negsuc 99) (pos 4) list_black (codes "cat") (λ h. ground (arith, h))

handle_add-added_example :
    (norm_text : Text) × (resolve_text out message true ≡ resolved (codes "cat") norm_text)
    × (rule_view no_rules (entry_key (negsuc 99) (pos 3) list_black norm_text) ≡ none)
    × (rule_view
          (handle_add out rules_store list_black message no_rules).1
          (entry_key (negsuc 99) (pos 3) list_black norm_text)
        ≡ some
            (listed_entry out rules_store rule_view rule_version rules_laws message (codes "cat")))
unfolding runs
handle_add-added_example =
    handle_add-added out rules_store rule_view rule_version rules_laws list_black message no_rules
      (codes "cat") none refl

handle_del-removed_example :
    (raw : Text) × (norm_text : Text) × (resolve_text out message false ≡ resolved raw norm_text)
    × (rule_view one_rule (entry_key (negsuc 99) (pos 3) list_black norm_text) ≢ none)
    × (rule_view
          (handle_del out rules_store list_black message one_rule).1
          (entry_key (negsuc 99) (pos 3) list_black norm_text)
        ≡ none)
unfolding runs
handle_del-removed_example =
    handle_del-removed out rules_store rule_view rule_version rules_laws list_black message one_rule
      (codes "cat") none refl
