-- ===== src/Modules/Registry.antt =====
-- Building the registry (internal/modules/registry.go). The registry is read only once it is built;
-- its maps are dictionaries, and the loop of `Build` is a fold over them that an error stops.
pub mod Commands
pub mod Loaded
pub mod Prefixes
use miti99bot.Base.{
  Bool, false, not, ◌&&◌, ◌||◌, Option, none, some, List, [], ◌∷◌, ◌++◌, map, if◌then◌else◌, here,
  there, Text, text_eq, has_prefix, Dict, lookup, insert,
}
use miti99bot.Storage.Memory.{is_collection_name, sort_keys}
use miti99bot.Modules.{
  Visibility, visibility_public, visibility_protected, visibility_private, visibility_unlisted,
  other_visibility, Command, Cron, Callback, Singleton, Module, Deps,
}
use miti99bot.Modules.Validate.{
  ItemError, validate_command, validate_cron, validate_callback, is_nil,
}

-- The errors of `Build`
pub data BuildError : Type 0 where
  invalid_name duplicate_name : Text → BuildError
  unknown_names : List Text → BuildError
  mismatched_name : Text → Text → BuildError
  bad_item : Text → ItemError → BuildError
  command_conflict cron_conflict callback_conflict : Text → Text → Text → BuildError
  fallback_conflict inline_conflict : Text → Text → BuildError
  no_fallback_handler no_inline_handler : Text → BuildError

pub data Attempt (A : Type 0) : Type 0 where
  done : A → Attempt A
  refused : BuildError → Attempt A

infixl 5 ◌>>=◌
abbrev pub ◌>>=◌ : {A B : Type 0} → Attempt A → (A → Attempt B) → Attempt B
done a >>= f = f a
refused e >>= f = refused e

-- `if err != nil { return ... }`
abbrev pub demand : {A : Type 0} → Text → Option ItemError → Attempt A → Attempt A
demand name none next = next
demand name (some e) next = refused (bad_item name e)

-- `if prev, dup := owners[key]; dup { return ... }`
abbrev pub unclaimed : {A : Type 0} → Option Text → (Text → BuildError) → Attempt A → Attempt A
unclaimed none e next = next
unclaimed (some prev) e next = refused (e prev)

module _ (H C : Type 0) where
  -- `Registry`; a hook stands with the others in the order of registration.
  pub record Registry : Type 0 where
    pub modules : List (Module H)
    pub all_commands : Dict (Command H)
    pub public_cmds : Dict (Command H)
    pub protected_cmds : Dict (Command H)
    pub private_cmds : Dict (Command H)
    pub crons : Dict (Cron H)
    pub cron_deps : Dict (Deps C)
    pub callbacks : Dict (Callback H)
    pub command_hooks : List H
    pub fallback : Option (Singleton H)
    pub inline : Option (Singleton H)

  -- The local variables of `Build`; an empty owner is none.
  pub record Loading : Type 0 where
    pub reg : Registry
    pub owners : Dict Text
    pub cron_owners : Dict Text
    pub callback_owners : Dict Text
    pub fallback_owner : Text
    pub inline_owner : Text
    pub seen_module : List Text
    pub unknown : List Text

-- The owner of a prefix that overlaps another; Go runs over the map in any order, so which owner of
-- several is named is open there, and it is the first here.
unfoldable pub overlapping_owner : Text → Dict Text → Option Text
overlapping_owner p [] = none
overlapping_owner p ((q, owner) ∷ owners) =
    if has_prefix q p || has_prefix p q then some owner else overlapping_owner p owners

-- One of the two slots of `addSingletons`: the new value, and the new owner
abbrev pub claim_slot :
    {H : Type 0}
    → Text
    → Option (Singleton H)
    → Option (Singleton H)
    → Text
    → (Text → Text → BuildError)
    → (Text → BuildError)
    → Attempt (Option (Singleton H) × Text)
claim_slot name none slot owner conflict_error nil_error = done (slot, owner)
claim_slot name (some declared) slot owner conflict_error nil_error =
    if not (text_eq owner [])
    then refused (conflict_error owner name)
    else if is_nil declared.handler
    then refused (nil_error name)
    else done (some declared, name)

abbrev pub hook_list : {H : Type 0} → Option H → List H
hook_list none = []
hook_list (some h) = h ∷ []

abbrev pub has_text : Text → List Text → Bool
has_text t [] = false
has_text t (x ∷ xs) = text_eq x t || has_text t xs

module _ {H C : Type 0} where
  -- One command in the registry and in the index of its visibility
  unfoldable pub index_command : Command H → Registry H C → Registry H C
  index_command cmd reg =
      let all = insert cmd.name cmd reg.all_commands in
      elim cmd.visibility [
        | visibility_public ↦ record reg {
          all_commands = all;
          public_cmds = insert cmd.name cmd reg.public_cmds;
        }
        | visibility_protected ↦ record reg {
          all_commands = all;
          protected_cmds = insert cmd.name cmd reg.protected_cmds;
        }
        | visibility_private ↦ record reg {
          all_commands = all;
          private_cmds = insert cmd.name cmd reg.private_cmds;
        }
        | visibility_unlisted ↦ record reg { all_commands = all }
        | other_visibility n ↦ record reg { all_commands = all }
      ]

  -- `addCommands`: the registry and the owners of the names
  unfoldable pub add_commands :
      Text → List (Command H) → Registry H C → Dict Text → Attempt (Registry H C × Dict Text)
  unfolding index_command
  add_commands name [] reg owners = done (reg, owners)
  add_commands name (cmd ∷ cmds) reg owners =
      let rest = add_commands name cmds (index_command cmd reg) (insert cmd.name name owners) in
      demand name (validate_command cmd)
        (unclaimed (lookup cmd.name owners) (λ prev. command_conflict cmd.name prev name) rest)

  -- The loop over a module's crons
  unfoldable pub add_crons :
      Text → Deps C → List (Cron H) → Registry H C → Dict Text → Attempt (Registry H C × Dict Text)
  add_crons name deps [] reg owners = done (reg, owners)
  add_crons name deps (cron ∷ crons) reg owners =
      let rest =
        add_crons name deps crons
          (record reg {
            crons = insert cron.name cron reg.crons;
            cron_deps = insert cron.name deps reg.cron_deps;
          })
          (insert cron.name name owners) in
      demand name (validate_cron cron)
        (unclaimed (lookup cron.name owners) (λ prev. cron_conflict cron.name prev name) rest)

  -- `addCallbacks`
  unfoldable pub add_callbacks :
      Text → List (Callback H) → Registry H C → Dict Text → Attempt (Registry H C × Dict Text)
  unfolding overlapping_owner
  add_callbacks name [] reg owners = done (reg, owners)
  add_callbacks name (callback ∷ callbacks) reg owners =
      let rest =
        add_callbacks name callbacks
          (record reg { callbacks = insert callback.prefix callback reg.callbacks })
          (insert callback.prefix name owners) in
      demand name (validate_callback callback) (
        unclaimed (overlapping_owner callback.prefix owners)
          (λ prev. callback_conflict callback.prefix prev name) rest)

  -- `addSingletons`
  unfoldable pub add_singletons : Text → Module H → Loading H C → Attempt (Loading H C)
  add_singletons name m l = do
    (fallback, fallback_owner) ←
        claim_slot name m.fallback l.reg.fallback l.fallback_owner fallback_conflict
          no_fallback_handler
    (inline, inline_owner) ←
        claim_slot name m.inline l.reg.inline l.inline_owner inline_conflict no_inline_handler
    done (record l {
      reg = record (l.reg) { fallback = fallback; inline = inline };
      fallback_owner = fallback_owner;
      inline_owner = inline_owner;
    })

  -- What the loop of `Build` does with the module that a factory returned
  unfoldable pub load_module : Text → Deps C → Module H → Loading H C → Attempt (Loading H C)
  unfolding add_commands add_crons add_callbacks add_singletons
  load_module name deps made l = do
    _ ←
        (if not (text_eq made.name []) && not (text_eq made.name name)
          then refused (mismatched_name name made.name)
          else done tt)
    let m : Module H = record made { name = name }
    let hooked : Registry H C = record (l.reg) {
      command_hooks = l.reg.command_hooks ++ hook_list m.command_hook;
    }
    (with_commands, owners) ← add_commands name m.commands hooked l.owners
    (with_crons, cron_owners) ← add_crons name deps m.crons with_commands l.cron_owners
    (with_callbacks, callback_owners) ← add_callbacks name m.callbacks with_crons l.callback_owners
    l' ← add_singletons name m (record l {
      reg = with_callbacks;
      owners = owners;
      cron_owners = cron_owners;
      callback_owners = callback_owners;
    })
    done (record l' { reg = record (l'.reg) { modules = l'.reg.modules ++ m ∷ [] } })

  -- The loop of `Build`
  unfoldable pub load_all :
      Dict (Deps C → Module H) → (Text → C) → List Text → Loading H C → Attempt (Loading H C)
  unfolding load_module
  load_all factories collection [] l = done l
  load_all factories collection (name ∷ names) l =
      if not (is_collection_name name)
      then refused (invalid_name name)
      else if has_text name l.seen_module
      then refused (duplicate_name name)
      else (let seen : Loading H C = record l { seen_module = name ∷ l.seen_module } in
          elim (lookup name factories) [
            | none ↦
                load_all factories collection names
                  (record seen { unknown = l.unknown ++ name ∷ [] })
            | some factory ↦
                let deps : Deps C = record { store = collection name } in
                load_module name deps (factory deps) seen >>= load_all factories collection names
          ])

  abbrev pub no_registry : Registry H C
  no_registry = record {
    modules = [];
    all_commands = [];
    public_cmds = [];
    protected_cmds = [];
    private_cmds = [];
    crons = [];
    cron_deps = [];
    callbacks = [];
    command_hooks = [];
    fallback = none;
    inline = none;
  }

  abbrev pub nothing_loaded : Loading H C
  nothing_loaded = record {
    reg = no_registry;
    owners = [];
    cron_owners = [];
    callback_owners = [];
    fallback_owner = [];
    inline_owner = [];
    seen_module = [];
    unknown = [];
  }

  abbrev catalog : Dict (Deps C → Module H) → List Text
  catalog [] = []
  catalog ((name, factory) ∷ rest) = name ∷ catalog rest

  abbrev finish : Loading H C → Attempt (Registry H C)
  finish l = elim l.unknown [ [] ↦ done l.reg | u ∷ us ↦ refused (unknown_names (u ∷ us)) ]

  -- `Build`; `collection` is the provider, which is not nil.
  unfoldable pub build : List Text → Dict (Deps C → Module H) → (Text → C) → Attempt (Registry H C)
  unfolding load_all sort_keys
  build [] factories collection =
      load_all factories collection (sort_keys (catalog factories)) nothing_loaded >>= finish
  build (name ∷ names) factories collection =
      load_all factories collection (name ∷ names) nothing_loaded >>= finish
