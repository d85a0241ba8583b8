-- ===== src/Modules/Registry/Prefixes.antt =====
-- The callback prefixes of a registry that is built do not overlap.
use miti99bot.Base.{
  ◌≡◌, refl, sym, ap, ◌∙◌, ◌≢◌, inl, inr, false, not, ◌&&◌, none, some, List, [], ◌∷◌, ◌++◌, arith,
  if◌then◌else◌, Bool-cases, Option-cases, Text, text_eq, has_prefix, text_eq→eq, Dict, lookup,
  insert, lookup-insert,
}
use mathlib.Core.Path.{subst}
use miti99bot.Storage.Memory.{sort_keys, is_collection_name}
use miti99bot.Modules.{
  Visibility, visibility_public, visibility_protected, visibility_private, visibility_unlisted,
  other_visibility, Command, Cron, Callback, Module, Deps,
}
use miti99bot.Modules.Validate.{validate_cron, validate_callback}
use miti99bot.Modules.Registry.{
  Attempt, done, refused, ◌>>=◌, Registry, Loading, index_command, add_commands, add_crons,
  overlapping_owner, add_callbacks, claim_slot, fallback_conflict, inline_conflict,
  no_fallback_handler, no_inline_handler, add_singletons, load_module, has_text, load_all,
  nothing_loaded, finish, build, hook_list, mismatched_name, catalog,
}
use miti99bot.Modules.Registry.Commands.{add_commands-step}
use miti99bot.Modules.Registry.Loaded.{>>=-eq-done}

module _ {H C : Type 0} where
  index_command-callbacks :
      (cmd : Command H) (reg : Registry H C) → (index_command cmd reg).callbacks ≡ reg.callbacks
  unfolding index_command
  index_command-callbacks cmd reg = go cmd.visibility refl
    where
      go : (v : Visibility) → cmd.visibility ≡ v → (index_command cmd reg).callbacks ≡ reg.callbacks
      go visibility_public e = ground (arith, e)
      go visibility_protected e = ground (arith, e)
      go visibility_private e = ground (arith, e)
      go visibility_unlisted e = ground (arith, e)
      go (other_visibility k) e = ground (arith, e)

  add_commands-callbacks :
      (name : Text) (cmds : List (Command H)) (reg : Registry H C) (owners : Dict Text)
      (out : Registry H C × Dict Text)
      → add_commands name cmds reg owners ≡ done out
      → out.0.callbacks ≡ reg.callbacks
  unfolding add_commands
  add_commands-callbacks name [] reg owners out h =
      let e : (reg, owners) ≡ out = ground arith in ground (arith, e)
  add_commands-callbacks name (cmd ∷ cmds) reg owners out h =
      let (valid, unowned, rest) = add_commands-step name cmd cmds reg owners out h in
      add_commands-callbacks name cmds (index_command cmd reg) (insert cmd.name name owners) out
        rest
      ∙ index_command-callbacks cmd reg

  add_crons-callbacks :
      (name : Text) (deps : Deps C) (crons : List (Cron H)) (reg : Registry H C)
      (owners : Dict Text) (out : Registry H C × Dict Text)
      → add_crons name deps crons reg owners ≡ done out
      → out.0.callbacks ≡ reg.callbacks
  unfolding add_crons
  add_crons-callbacks name deps [] reg owners out h =
      let e : (reg, owners) ≡ out = ground arith in ground (arith, e)
  add_crons-callbacks name deps (c ∷ cs) reg owners out h = elim (Option-cases (validate_cron c)) [
    | inr (x, e) ↦ absurd (ground (arith, e, h))
    | inl e ↦ elim (Option-cases (lookup c.name owners)) [
      | inr (p, f) ↦ absurd (ground (arith, e, f, h))
      | inl f ↦
          add_crons-callbacks name deps cs
            (record reg {
              crons = insert c.name c reg.crons;
              cron_deps = insert c.name deps reg.cron_deps;
            })
            (insert c.name name owners) out (ground (arith, e, f, h))
    ]
  ]

overlapping_owner-none :
    (p q owner : Text) (owners : Dict Text)
    → overlapping_owner p owners ≡ none
    → lookup q owners ≡ some owner
    → (has_prefix q p ≡ false) × (has_prefix p q ≡ false)
unfolding overlapping_owner lookup
overlapping_owner-none p q owner [] h k = absurd (ground arith)
overlapping_owner-none p q owner ((r, o) ∷ owners) h k = elim (Bool-cases (text_eq r q)) [
  | inl e ↦ let same = text_eq→eq r q e in ground (arith, h, same)
  | inr e ↦ overlapping_owner-none p q owner owners (ground (arith, h)) (ground (arith, k, e))
]

-- Every prefix has an owner, and two prefixes never overlap.
IsDisjoint : {H : Type 0} → Dict (Callback H) → Dict Text → Type 0
IsDisjoint {H} callbacks owners =
    ((p : Text) → lookup p owners ≡ none → lookup p callbacks ≡ none)
    × ((p q : Text) (c d : Callback H)
        → lookup p callbacks ≡ some c
        → lookup q callbacks ≡ some d
        → p ≢ q
        → has_prefix q p ≡ false)

owner_of :
    {H : Type 0} (q : Text) (d : Callback H) (callbacks : Dict (Callback H)) (owners : Dict Text)
    → IsDisjoint callbacks owners
    → lookup q callbacks ≡ some d
    → (o : Text) × (lookup q owners ≡ some o)
unfolding IsDisjoint
owner_of q d callbacks owners (owned, apart) h = elim (Option-cases (lookup q owners)) [
  | inr (o, e) ↦ (o, e)
  | inl e ↦ absurd (ground (arith, owned q e, h))
]

new_apart :
    {H : Type 0} (p q : Text) (d : Callback H) (callbacks : Dict (Callback H)) (owners : Dict Text)
    → overlapping_owner p owners ≡ none
    → IsDisjoint callbacks owners
    → lookup q callbacks ≡ some d
    → (has_prefix q p ≡ false) × (has_prefix p q ≡ false)
new_apart p q d callbacks owners free apart h =
    let (o, k) = owner_of q d callbacks owners apart h in overlapping_owner-none p q o owners free k

IsDisjoint-insert :
    {H : Type 0} (cb : Callback H) (name : Text) (callbacks : Dict (Callback H))
    (owners : Dict Text)
    → overlapping_owner cb.prefix owners ≡ none
    → IsDisjoint callbacks owners
    → IsDisjoint (insert cb.prefix cb callbacks) (insert cb.prefix name owners)
unfolding IsDisjoint
IsDisjoint-insert cb name callbacks owners free (owned, apart) =
    let kept = λ (p : Text). lookup-insert cb.prefix p cb callbacks in
    (
      (λ p h. ground (arith, kept p, lookup-insert cb.prefix p name owners, owned p, h)),
      (λ p q c d hp hq ne. elim (Bool-cases (text_eq cb.prefix p)) [
        | inl ep ↦ elim (Bool-cases (text_eq cb.prefix q)) [
          | inl eq ↦ absurd (ne (sym (text_eq→eq cb.prefix p ep) ∙ text_eq→eq cb.prefix q eq))
          | inr eq ↦ ground (
            arith,
            text_eq→eq cb.prefix p ep,
            new_apart cb.prefix q d callbacks owners free (owned, apart)
                (ground (arith, kept q, eq, hq)),
          )
        ]
        | inr ep ↦ elim (Bool-cases (text_eq cb.prefix q)) [
          | inl eq ↦ ground (
            arith,
            text_eq→eq cb.prefix q eq,
            new_apart cb.prefix p c callbacks owners free (owned, apart)
                (ground (arith, kept p, ep, hp)),
          )
          | inr eq ↦
              apart p q c d (ground (arith, kept p, ep, hp)) (ground (arith, kept q, eq, hq)) ne
        ]
      ]),
    )

module _ {H C : Type 0} where
  add_callbacks-IsDisjoint :
      (name : Text) (cs : List (Callback H)) (reg : Registry H C) (owners : Dict Text)
      (out : Registry H C × Dict Text)
      → IsDisjoint reg.callbacks owners
      → add_callbacks name cs reg owners ≡ done out
      → IsDisjoint out.0.callbacks out.1
  unfolding add_callbacks
  add_callbacks-IsDisjoint name [] reg owners out ok h =
      let e : (reg, owners) ≡ out = ground arith in subst (λ o. IsDisjoint o.0.callbacks o.1) e ok
  add_callbacks-IsDisjoint name (c ∷ cs) reg owners out ok h =
      elim (Option-cases (validate_callback c)) [
        | inr (x, e) ↦ absurd (ground (arith, e, h))
        | inl e ↦ elim (Option-cases (overlapping_owner c.prefix owners)) [
          | inr (p, f) ↦ absurd (ground (arith, e, f, h))
          | inl f ↦
              add_callbacks-IsDisjoint name cs
                (record reg { callbacks = insert c.prefix c reg.callbacks })
                (insert c.prefix name owners) out
                (IsDisjoint-insert c name reg.callbacks owners f ok) (ground (arith, e, f, h))
        ]
      ]

  add_singletons-callbacks :
      (name : Text) (m : Module H) (l l' : Loading H C)
      → add_singletons name m l ≡ done l'
      → (l'.reg.callbacks ≡ l.reg.callbacks) × (l'.callback_owners ≡ l.callback_owners)
  unfolding add_singletons
  add_singletons-callbacks name m l l' h =
      let (a, ea, ra) =
        >>=-eq-done
          (claim_slot name m.fallback l.reg.fallback l.fallback_owner fallback_conflict
            no_fallback_handler)
          _ l' h in
      let (b, eb, rb) =
        >>=-eq-done
          (claim_slot name m.inline l.reg.inline l.inline_owner inline_conflict no_inline_handler) _
          l' ra in
      ground (arith, rb)

  from_done : Loading H C → Attempt (Loading H C) → Loading H C
  from_done l (done x) = x
  from_done l (refused e) = l

  load_module-IsDisjoint :
      (name : Text) (deps : Deps C) (made : Module H) (l l' : Loading H C)
      → load_module name deps made l ≡ done l'
      → IsDisjoint l.reg.callbacks l.callback_owners
      → IsDisjoint l'.reg.callbacks l'.callback_owners
  unfolding load_module from_done
  load_module-IsDisjoint name deps made l l' h apart =
      let m : Module H = record made { name = name } in
      let hooked : Registry H C = record (l.reg) {
        command_hooks = l.reg.command_hooks ++ hook_list m.command_hook;
      } in
      let (u, eu, h1) =
        >>=-eq-done
          (if not (text_eq made.name []) && not (text_eq made.name name)
            then refused (mismatched_name name made.name)
            else done tt)
          _ l' h in
      let ((reg1, owners), e1, h2) =
        >>=-eq-done (add_commands name m.commands hooked l.owners) _ l' h1 in
      let ((reg2, cron_owners), e2, h3) =
        >>=-eq-done (add_crons name deps m.crons reg1 l.cron_owners) _ l' h2 in
      let ((reg3, callback_owners), e3, h4) =
        >>=-eq-done (add_callbacks name m.callbacks reg2 l.callback_owners) _ l' h3 in
      let before : Loading H C = record l {
        reg = reg3;
        owners = owners;
        cron_owners = cron_owners;
        callback_owners = callback_owners;
      } in
      let (l4, e4, h5) = >>=-eq-done (add_singletons name m before) _ l' h4 in
      let e5 : record l4 { reg = record (l4.reg) { modules = l4.reg.modules ++ m ∷ [] } } ≡ l' =
        ap (from_done l') h5 in
      let kept = add_singletons-callbacks name m before l4 e4 in
      let same : reg2.callbacks ≡ l.reg.callbacks =
        add_crons-callbacks name deps m.crons reg1 l.cron_owners (reg2, cron_owners) e2
        ∙ add_commands-callbacks name m.commands hooked l.owners (reg1, owners) e1 in
      let mid =
        add_callbacks-IsDisjoint name m.callbacks reg2 l.callback_owners (reg3, callback_owners)
          (subst (λ x. IsDisjoint x l.callback_owners) (sym same) apart) e3 in
      let ec : reg3.callbacks ≡ l'.reg.callbacks = sym kept.0 ∙ ap (λ x. x.reg.callbacks) e5 in
      let eo : callback_owners ≡ l'.callback_owners = sym kept.1 ∙ ap (λ x. x.callback_owners) e5 in
      subst (λ x. IsDisjoint x l'.callback_owners) ec
        (subst (λ x. IsDisjoint reg3.callbacks x) eo mid)

  load_all-IsDisjoint :
      (factories : Dict (Deps C → Module H)) (collection : Text → C) (names : List Text)
      (l l' : Loading H C)
      → load_all factories collection names l ≡ done l'
      → IsDisjoint l.reg.callbacks l.callback_owners
      → IsDisjoint l'.reg.callbacks l'.callback_owners
  unfolding load_all
  load_all-IsDisjoint factories collection [] l l' h apart =
      let e : l ≡ l' = ground arith in
      subst (λ x. IsDisjoint x.reg.callbacks x.callback_owners) e apart
  load_all-IsDisjoint factories collection (name ∷ names) l l' h apart =
      let seen : Loading H C = record l { seen_module = name ∷ l.seen_module } in
      elim (Bool-cases (is_collection_name name)) [
        | inr e ↦ absurd (ground (arith, e, h))
        | inl e ↦ elim (Bool-cases (has_text name l.seen_module)) [
          | inl f ↦ absurd (ground (arith, e, f, h))
          | inr f ↦ elim (Option-cases (lookup name factories)) [
            | inl g ↦
                load_all-IsDisjoint factories collection names
                  (record seen { unknown = l.unknown ++ name ∷ [] }) l' (ground (arith, e, f, g, h))
                  apart
            | inr (factory, g) ↦
                let deps : Deps C = record { store = collection name } in
                let run : (load_module name deps (factory deps) seen
                      >>= load_all factories collection names)
                    ≡ done l' =
                  ground (arith, e, f, g, h) in
                let (mid, one, rest) =
                  >>=-eq-done (load_module name deps (factory deps) seen)
                    (load_all factories collection names) l' run in
                load_all-IsDisjoint factories collection names mid l' rest
                  (load_module-IsDisjoint name deps (factory deps) seen mid one apart)
          ]
        ]
      ]

  nothing-IsDisjoint :
      (l : Loading H C) → l ≡ nothing_loaded → IsDisjoint l.reg.callbacks l.callback_owners
  unfolding IsDisjoint lookup
  nothing-IsDisjoint l e =
      ((λ p h. ground (arith, e)), (λ p q c d hp hq ne. absurd (ground (arith, e, hp))))

  finish-IsDisjoint :
      (l : Loading H C) (reg : Registry H C) (p q : Text) (c d : Callback H)
      → finish l ≡ done reg
      → IsDisjoint l.reg.callbacks l.callback_owners
      → lookup p reg.callbacks ≡ some c
      → lookup q reg.callbacks ≡ some d
      → p ≢ q
      → has_prefix q p ≡ false
  unfolding IsDisjoint
  finish-IsDisjoint l reg p q c d h (owned, apart) hp hq ne = go l.unknown refl
    where
      go : (u : List Text) → l.unknown ≡ u → has_prefix q p ≡ false
      go [] e =
          let same : l.reg ≡ reg = ground (arith, e, h) in
          apart p q c d (ground (arith, same, hp)) (ground (arith, same, hq)) ne
      go (x ∷ xs) e = absurd (ground (arith, e, h))

  -- If `Build` returns a registry, then of two callback prefixes in it neither is a prefix of the
  -- other, so a callback reaches one owner at most.
  pub build-callbacks :
      (enabled : List Text) (factories : Dict (Deps C → Module H)) (collection : Text → C)
      (reg : Registry H C)
      → build enabled factories collection ≡ done reg
      → (p q : Text) (c d : Callback H) → lookup p reg.callbacks ≡ some c
      → lookup q reg.callbacks ≡ some d
      → p ≢ q
      → has_prefix q p ≡ false
  unfolding build
  build-callbacks [] factories collection reg h p q c d hp hq ne =
      let (l, run, end) =
        >>=-eq-done (load_all factories collection (sort_keys (catalog factories)) nothing_loaded)
          finish reg h in
      finish-IsDisjoint l reg p q c d end
        (load_all-IsDisjoint factories collection (sort_keys (catalog factories)) nothing_loaded l
          run (nothing-IsDisjoint nothing_loaded refl))
        hp hq ne
  build-callbacks (n ∷ ns) factories collection reg h p q c d hp hq ne =
      let (l, run, end) =
        >>=-eq-done (load_all factories collection (n ∷ ns) nothing_loaded) finish reg h in
      finish-IsDisjoint l reg p q c d end
        (load_all-IsDisjoint factories collection (n ∷ ns) nothing_loaded l run
          (nothing-IsDisjoint nothing_loaded refl))
        hp hq ne
