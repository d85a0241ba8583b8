-- ===== src/Modules/Registry/Loaded.antt =====
-- No command of a loaded module is lost or hidden by another.
use miti99bot.Base.{
  ◌≡◌, refl, ap, ◌⊎◌, inl, inr, not, ◌&&◌, some, List, [], ◌∷◌, ◌++◌, arith, if◌then◌else◌,
  Bool-cases, Option-cases, Mem, here, there, Text, text_eq, Dict, lookup, insert,
}
use mathlib.Core.Path.{subst}
use miti99bot.Storage.Memory.{sort_keys, is_collection_name}
use miti99bot.Modules.{Command, Cron, Callback, Module, Deps}
use miti99bot.Modules.Validate.{validate_cron, validate_callback}
use miti99bot.Modules.Registry.{
  BuildError, Attempt, done, refused, ◌>>=◌, Registry, Loading, add_commands, add_crons,
  overlapping_owner, add_callbacks, claim_slot, fallback_conflict, inline_conflict,
  no_fallback_handler, no_inline_handler, add_singletons, load_module, has_text, load_all,
  nothing_loaded, finish, build, hook_list, mismatched_name, catalog,
}
use miti99bot.Modules.Registry.Commands.{IsListed, IsSound, Keeps, add_commands_lem, mem_cons}

Attempt-cases :
    {A : Type 0} (a : Attempt A) → ((x : A) × (a ≡ done x)) ⊎ ((e : BuildError) × (a ≡ refused e))
Attempt-cases (done x) = inl (x, refl)
Attempt-cases (refused e) = inr (e, refl)

-- The steps of a chain that ends well
pub >>=-eq-done :
    {A B : Type 0} (m : Attempt A) (f : A → Attempt B) (b : B)
    → (m >>= f) ≡ done b
    → (a : A) × (m ≡ done a) × (f a ≡ done b)
>>=-eq-done (done a) f b h = (a, refl, h)
>>=-eq-done (refused e) f b h = absurd (ground arith)

mem_snoc :
    {A : Type 0} (P : A → Type 0) (xs : List A) (x : A)
    → ((a : A) → Mem a xs → P a)
    → P x
    → (a : A) → Mem a (xs ++ x ∷ [])
    → P a
mem_snoc P [] x h p a m = mem_cons P m p (λ d k. elim k [ ])
mem_snoc P (y ∷ ys) x h p a m = mem_cons P m (h y here) (mem_snoc P ys x (λ d k. h d (there k)) p)

not_in : {A : Type 0} {a : A} {xs : List A} → xs ≡ [] → Mem a xs → ⊥
not_in h here = ground arith
not_in h (there m) = ground arith

module _ {H C : Type 0} where
  SameCommands : Registry H C → Registry H C → Type 0
  SameCommands reg reg' =
      (reg'.all_commands ≡ reg.all_commands)
      × (reg'.public_cmds ≡ reg.public_cmds)
      × (reg'.modules ≡ reg.modules)

  add_crons-same :
      (name : Text) (deps : Deps C) (crons : List (Cron H)) (reg : Registry H C)
      (owners : Dict Text) (out : Registry H C × Dict Text)
      → add_crons name deps crons reg owners ≡ done out
      → SameCommands reg out.0
  unfolding add_crons SameCommands
  add_crons-same name deps [] reg owners out h =
      let e : (reg, owners) ≡ out = ground arith in ground (arith, e)
  add_crons-same name deps (c ∷ cs) reg owners out h = elim (Option-cases (validate_cron c)) [
    | inr (x, e) ↦ absurd (ground (arith, e, h))
    | inl e ↦ elim (Option-cases (lookup c.name owners)) [
      | inr (p, f) ↦ absurd (ground (arith, e, f, h))
      | inl f ↦
          add_crons-same name deps cs
            (record reg {
              crons = insert c.name c reg.crons;
              cron_deps = insert c.name deps reg.cron_deps;
            })
            (insert c.name name owners) out (ground (arith, e, f, h))
    ]
  ]

  add_callbacks-same :
      (name : Text) (cs : List (Callback H)) (reg : Registry H C) (owners : Dict Text)
      (out : Registry H C × Dict Text)
      → add_callbacks name cs reg owners ≡ done out
      → SameCommands reg out.0
  unfolding add_callbacks SameCommands
  add_callbacks-same name [] reg owners out h =
      let e : (reg, owners) ≡ out = ground arith in ground (arith, e)
  add_callbacks-same name (c ∷ cs) reg owners out h = elim (Option-cases (validate_callback c)) [
    | inr (x, e) ↦ absurd (ground (arith, e, h))
    | inl e ↦ elim (Option-cases (overlapping_owner c.prefix owners)) [
      | inr (p, f) ↦ absurd (ground (arith, e, f, h))
      | inl f ↦
          add_callbacks-same name cs (record reg { callbacks = insert c.prefix c reg.callbacks })
            (insert c.prefix name owners) out (ground (arith, e, f, h))
    ]
  ]

  add_singletons-same :
      (name : Text) (m : Module H) (l l' : Loading H C)
      → add_singletons name m l ≡ done l'
      → SameCommands l.reg l'.reg × (l'.owners ≡ l.owners)
  unfolding add_singletons SameCommands
  add_singletons-same name m l l' h =
      let (a, ea, ra) =
        >>=-eq-done
          (claim_slot name m.fallback l.reg.fallback l.fallback_owner fallback_conflict
            no_fallback_handler)
          _ l' h in
      let (b, eb, rb) =
        >>=-eq-done
          (claim_slot name m.inline l.reg.inline l.inline_owner inline_conflict no_inline_handler) _
          l' ra in
      ground (arith, rb)

  -- The registry lists every command of every module it has, with its owner.
  IsLoaded : Loading H C → Type 0
  IsLoaded l =
      IsSound l.reg l.owners
      × ((m : Module H)
          → Mem m l.reg.modules
          → (cmd : Command H) → Mem cmd m.commands
          → lookup cmd.name l.reg.all_commands ≡ some cmd)

  -- The registry that `load_module` ends with has the commands of the one that `addCommands`
  -- returned.
  load_module-eq-done :
      (name : Text) (deps : Deps C) (made : Module H) (l l' : Loading H C)
      → load_module name deps made l ≡ done l'
      → let m : Module H = record made { name = name } in
        let hooked : Registry H C = record (l.reg) {
          command_hooks = l.reg.command_hooks ++ hook_list m.command_hook;
        } in
        (out : Registry H C × Dict Text) × (add_commands name m.commands hooked l.owners ≡ done out)
        × (l'.reg.all_commands ≡ out.0.all_commands)
        × (l'.reg.public_cmds ≡ out.0.public_cmds)
        × (l'.reg.modules ≡ out.0.modules ++ m ∷ [])
        × (l'.owners ≡ out.1)
  unfolding load_module SameCommands
  load_module-eq-done name deps made l l' h =
      let m : Module H = record made { name = name } in
      let hooked : Registry H C = record (l.reg) {
        command_hooks = l.reg.command_hooks ++ hook_list m.command_hook;
      } in
      let (u, eu, h1) =
        >>=-eq-done
          (if not (text_eq made.name []) && not (text_eq made.name name)
            then refused (mismatched_name name made.name)
            else done tt)
          _ l' h in
      let ((reg1, owners), e1, h2) =
        >>=-eq-done (add_commands name m.commands hooked l.owners) _ l' h1 in
      let ((reg2, cron_owners), e2, h3) =
        >>=-eq-done (add_crons name deps m.crons reg1 l.cron_owners) _ l' h2 in
      let ((reg3, callback_owners), e3, h4) =
        >>=-eq-done (add_callbacks name m.callbacks reg2 l.callback_owners) _ l' h3 in
      let before : Loading H C = record l {
        reg = reg3;
        owners = owners;
        cron_owners = cron_owners;
        callback_owners = callback_owners;
      } in
      let (l4, e4, h5) = >>=-eq-done (add_singletons name m before) _ l' h4 in
      let same2 = add_crons-same name deps m.crons reg1 l.cron_owners (reg2, cron_owners) e2 in
      let same3 =
        add_callbacks-same name m.callbacks reg2 l.callback_owners (reg3, callback_owners) e3 in
      let same4 = add_singletons-same name m before l4 e4 in
      (
        (reg1, owners),
        e1,
        ground (arith, same2, same3, same4, h5),
        ground (arith, same2, same3, same4, h5),
        ground (arith, same2, same3, same4, h5),
        ground (arith, same4, h5),
      )

  IsLoaded-load_module :
      (name : Text) (deps : Deps C) (made : Module H) (l l' : Loading H C)
      → load_module name deps made l ≡ done l'
      → IsLoaded l
      → IsLoaded l'
  unfolding IsLoaded IsSound Keeps IsListed
  IsLoaded-load_module name deps made l l' h (sound, listed) =
      let m : Module H = record made { name = name } in
      let hooked : Registry H C = record (l.reg) {
        command_hooks = l.reg.command_hooks ++ hook_list m.command_hook;
      } in
      let (out, added, all, pubs, mods, owns) = load_module-eq-done name deps made l l' h in
      let (sound', (kept, same), new) =
        add_commands_lem name m.commands hooked l.owners out sound added in
      (
        (rw (all, pubs, owns) sound'),
        rw (all, mods, same)
            (mem_snoc
              (λ d.
                (cmd : Command H)
                → Mem cmd d.commands
                → lookup cmd.name out.0.all_commands ≡ some cmd)
              l.reg.modules m (λ d k cmd n. kept cmd.name cmd (listed d k cmd n)) new),
      )

  IsLoaded-load_all :
      (factories : Dict (Deps C → Module H)) (collection : Text → C) (names : List Text)
      (l l' : Loading H C)
      → load_all factories collection names l ≡ done l'
      → IsLoaded l
      → IsLoaded l'
  unfolding load_all IsLoaded
  IsLoaded-load_all factories collection [] l l' h loaded =
      let e : l ≡ l' = ground arith in subst IsLoaded e loaded
  IsLoaded-load_all factories collection (name ∷ names) l l' h loaded =
      let seen : Loading H C = record l { seen_module = name ∷ l.seen_module } in
      elim (Bool-cases (is_collection_name name)) [
        | inr e ↦ absurd (ground (arith, e, h))
        | inl e ↦ elim (Bool-cases (has_text name l.seen_module)) [
          | inl f ↦ absurd (ground (arith, e, f, h))
          | inr f ↦ elim (Option-cases (lookup name factories)) [
            | inl g ↦
                IsLoaded-load_all factories collection names
                  (record seen { unknown = l.unknown ++ name ∷ [] }) l' (ground (arith, e, f, g, h))
                  loaded
            | inr (factory, g) ↦
                let deps : Deps C = record { store = collection name } in
                let run : (load_module name deps (factory deps) seen
                      >>= load_all factories collection names)
                    ≡ done l' =
                  ground (arith, e, f, g, h) in
                let (mid, one, rest) =
                  >>=-eq-done (load_module name deps (factory deps) seen)
                    (load_all factories collection names) l' run in
                IsLoaded-load_all factories collection names mid l' rest
                  (IsLoaded-load_module name deps (factory deps) seen mid one loaded)
          ]
        ]
      ]

  -- What `Build` is to guarantee of the commands of a registry.
  HasAllCommands : Registry H C → Type 0
  HasAllCommands reg =
      ((n : Text) (cmd : Command H) → lookup n reg.all_commands ≡ some cmd → IsListed reg n cmd)
      × ((m : Module H)
          → Mem m reg.modules
          → (cmd : Command H) → Mem cmd m.commands
          → lookup cmd.name reg.all_commands ≡ some cmd)

  IsLoaded-nothing : (l : Loading H C) → l ≡ nothing_loaded → IsLoaded l
  unfolding IsLoaded IsSound lookup
  IsLoaded-nothing l e = (
    ((λ n c h. absurd (ground (arith, e))), (λ n h. ground (arith, e))),
    (λ m k. absurd (not_in (ap (λ x. x.reg.modules) e) k)),
  )

  finish-HasAllCommands :
      (l : Loading H C) (reg : Registry H C) → finish l ≡ done reg → IsLoaded l → HasAllCommands reg
  unfolding IsLoaded IsSound HasAllCommands
  finish-HasAllCommands l reg h ((listed, indexed), new) = go l.unknown refl
    where
      go : (u : List Text) → l.unknown ≡ u → HasAllCommands reg
      go [] e =
          let same : l.reg ≡ reg = ground (arith, e, h) in
          subst HasAllCommands same ((λ n c k. (listed n c k).0), new)
      go (x ∷ xs) e = absurd (ground (arith, e, h))

  build-HasAllCommands :
      (enabled : List Text) (factories : Dict (Deps C → Module H)) (collection : Text → C)
      (reg : Registry H C)
      → build enabled factories collection ≡ done reg
      → HasAllCommands reg
  unfolding build
  build-HasAllCommands [] factories collection reg h =
      let (l, run, end) =
        >>=-eq-done (load_all factories collection (sort_keys (catalog factories)) nothing_loaded)
          finish reg h in
      finish-HasAllCommands l reg end (
        IsLoaded-load_all factories collection (sort_keys (catalog factories)) nothing_loaded l run
          (IsLoaded-nothing nothing_loaded refl))
  build-HasAllCommands (n ∷ ns) factories collection reg h =
      let (l, run, end) =
        >>=-eq-done (load_all factories collection (n ∷ ns) nothing_loaded) finish reg h in
      finish-HasAllCommands l reg end (
        IsLoaded-load_all factories collection (n ∷ ns) nothing_loaded l run
          (IsLoaded-nothing nothing_loaded refl))

  -- If `Build` returns a registry, for whatever modules the factories make, then every command in
  -- it stands under its own name, passes the validation, and is in the public index exactly if it
  -- is public.
  pub build-IsListed :
      (enabled : List Text) (factories : Dict (Deps C → Module H)) (collection : Text → C)
      (reg : Registry H C)
      → build enabled factories collection ≡ done reg
      → (n : Text) (cmd : Command H) → lookup n reg.all_commands ≡ some cmd
      → IsListed reg n cmd
  unfolding HasAllCommands
  build-IsListed enabled factories collection reg h =
      (build-HasAllCommands enabled factories collection reg h).0

  -- If `Build` returns a registry, then every command of every module in it is in the registry, as
  -- its module declared it: none is lost, or hidden by another of its name.
  pub build-declared :
      (enabled : List Text) (factories : Dict (Deps C → Module H)) (collection : Text → C)
      (reg : Registry H C)
      → build enabled factories collection ≡ done reg
      → (m : Module H) (cmd : Command H) → Mem m reg.modules
      → Mem cmd m.commands
      → lookup cmd.name reg.all_commands ≡ some cmd
  unfolding HasAllCommands
  build-declared enabled factories collection reg h m cmd i j =
      (build-HasAllCommands enabled factories collection reg h).1 m i cmd j
