-- ===== src/Modules/Registry/Commands.antt =====
-- The commands of a registry that is built.
use miti99bot.Base.{
  ◌≡◌, refl, ◌≢◌, inl, inr, none, some, List, [], ◌∷◌, arith, if◌then◌else◌, Bool-cases,
  Option-cases, Mem, here, there, Text, text_eq, text_eq_refl, text_eq→eq, text_eq_iff, Dict,
  lookup, insert, lookup-insert,
}
use miti99bot.Modules.{
  Visibility, visibility_public, visibility_protected, visibility_private, visibility_unlisted,
  other_visibility, Command,
}
use miti99bot.Modules.Validate.{validate_command, is_public}
use miti99bot.Modules.Registry.{done, Registry, index_command, add_commands}

Option-eq : {A : Type 0} {a b : A} → some a ≡ some b → a ≡ b
Option-eq h = ground arith

pub mem_cons :
    {A : Type 0} (P : A → Type 0) {x c : A} {xs : List A}
    → Mem c (x ∷ xs)
    → P x
    → ((d : A) → Mem d xs → P d)
    → P c
mem_cons P here px rest = px
mem_cons P {c = c} (there m) px rest = rest c m

module _ {H C : Type 0} where
  -- What holds of every command that a registry lists.
  unfoldable pub IsListed : Registry H C → Text → Command H → Type 0
  IsListed reg n cmd =
      (cmd.name ≡ n)
      × (validate_command cmd ≡ none)
      × (lookup n reg.public_cmds ≡ (if is_public cmd.visibility then some cmd else none))

  unfoldable pub IsSound : Registry H C → Dict Text → Type 0
  IsSound reg owners =
      ((n : Text) (cmd : Command H)
        → lookup n reg.all_commands ≡ some cmd
        → IsListed reg n cmd × (lookup n owners ≢ none))
      × ((n : Text) → lookup n reg.all_commands ≡ none → lookup n reg.public_cmds ≡ none)

  index_command-all :
      (cmd : Command H) (reg : Registry H C) (n : Text)
      → lookup n (index_command cmd reg).all_commands
        ≡ (if text_eq cmd.name n then some cmd else lookup n reg.all_commands)
  unfolding index_command
  index_command-all cmd reg n = go cmd.visibility refl
    where
      go :
          (v : Visibility)
          → cmd.visibility ≡ v
          → lookup n (index_command cmd reg).all_commands
            ≡ (if text_eq cmd.name n then some cmd else lookup n reg.all_commands)
      go visibility_public e = ground (arith, e, lookup-insert cmd.name n cmd reg.all_commands)
      go visibility_protected e = ground (arith, e, lookup-insert cmd.name n cmd reg.all_commands)
      go visibility_private e = ground (arith, e, lookup-insert cmd.name n cmd reg.all_commands)
      go visibility_unlisted e = ground (arith, e, lookup-insert cmd.name n cmd reg.all_commands)
      go (other_visibility k) e = ground (arith, e, lookup-insert cmd.name n cmd reg.all_commands)

  index_command-public :
      (cmd : Command H) (reg : Registry H C) (n : Text)
      → lookup n (index_command cmd reg).public_cmds ≡ (
          if is_public cmd.visibility
          then (if text_eq cmd.name n then some cmd else lookup n reg.public_cmds)
          else lookup n reg.public_cmds)
  unfolding index_command
  index_command-public cmd reg n = go cmd.visibility refl
    where
      go :
          (v : Visibility)
          → cmd.visibility ≡ v
          → lookup n (index_command cmd reg).public_cmds ≡ (
              if is_public cmd.visibility
              then (if text_eq cmd.name n then some cmd else lookup n reg.public_cmds)
              else lookup n reg.public_cmds)
      go visibility_public e = ground (arith, e, lookup-insert cmd.name n cmd reg.public_cmds)
      go visibility_protected e = ground (arith, e)
      go visibility_private e = ground (arith, e)
      go visibility_unlisted e = ground (arith, e)
      go (other_visibility k) e = ground (arith, e)

  IsSound-index :
      (cmd : Command H) (name : Text) (reg : Registry H C) (owners : Dict Text)
      → validate_command cmd ≡ none
      → lookup cmd.name owners ≡ none
      → IsSound reg owners
      → IsSound (index_command cmd reg) (insert cmd.name name owners)
  unfolding IsSound IsListed
  IsSound-index cmd name reg owners ok_cmd unowned (listed, indexed) =
      let fresh : lookup cmd.name reg.all_commands ≡ none =
        elim (Option-cases (lookup cmd.name reg.all_commands)) [
          | inl e ↦ e
          | inr (c, e) ↦ absurd ((listed cmd.name c e).1 unowned)
        ] in
      (
        (λ n c h.
            let all = index_command-all cmd reg n in
            let pubs = index_command-public cmd reg n in
            let owned = lookup-insert cmd.name n name owners in
            elim (Bool-cases (text_eq cmd.name n)) [
              | inl e ↦
                  let same : cmd.name ≡ n = text_eq→eq cmd.name n e in
                  let eq : cmd ≡ c = Option-eq (ground (arith, h, all, e)) in
                  (
                    (
                      ground (arith, eq, same),
                      ground (arith, eq, ok_cmd),
                      ground (arith, eq, pubs, e, same, indexed n, fresh),
                    ),
                    (λ k. ground (arith, owned, e, k)),
                  )
              | inr e ↦
                  let old = listed n c (ground (arith, h, all, e)) in
                  (
                    (old.0.0, old.0.1, ground (arith, pubs, e, old.0)),
                    (λ k. old.1 (ground (arith, owned, e, k))),
                  )
            ]),
        (λ n h.
            let all = index_command-all cmd reg n in
            let pubs = index_command-public cmd reg n in ground (arith, all, pubs, indexed n, h)),
      )

  -- What a later step keeps of an earlier registry: every command, and the modules.
  unfoldable pub Keeps : Registry H C → Registry H C → Type 0
  Keeps reg reg' =
      ((n : Text) (c : Command H)
        → lookup n reg.all_commands ≡ some c
        → lookup n reg'.all_commands ≡ some c)
      × (reg'.modules ≡ reg.modules)

  index_command-modules :
      (cmd : Command H) (reg : Registry H C) → (index_command cmd reg).modules ≡ reg.modules
  unfolding index_command
  index_command-modules cmd reg = go cmd.visibility refl
    where
      go : (v : Visibility) → cmd.visibility ≡ v → (index_command cmd reg).modules ≡ reg.modules
      go visibility_public e = ground (arith, e)
      go visibility_protected e = ground (arith, e)
      go visibility_private e = ground (arith, e)
      go visibility_unlisted e = ground (arith, e)
      go (other_visibility k) e = ground (arith, e)

  fresh_command :
      (n : Text) (reg : Registry H C) (owners : Dict Text)
      → lookup n owners ≡ none
      → IsSound reg owners
      → lookup n reg.all_commands ≡ none
  unfolding IsSound
  fresh_command n reg owners unowned (listed, indexed) =
      elim (Option-cases (lookup n reg.all_commands)) [
        | inl e ↦ e
        | inr (c, e) ↦ absurd ((listed n c e).1 unowned)
      ]

  Keeps-index :
      (cmd : Command H) (reg : Registry H C)
      → lookup cmd.name reg.all_commands ≡ none
      → Keeps reg (index_command cmd reg)
  unfolding Keeps
  Keeps-index cmd reg fresh = (
    (λ n c h. ground (arith, index_command-all cmd reg n, text_eq_iff cmd.name n, fresh, h)),
    index_command-modules cmd reg,
  )

  -- One command of `addCommands` that is accepted
  pub add_commands-step :
      (name : Text) (cmd : Command H) (cmds : List (Command H)) (reg : Registry H C)
      (owners : Dict Text) (out : Registry H C × Dict Text)
      → add_commands name (cmd ∷ cmds) reg owners ≡ done out
      → (validate_command cmd ≡ none)
        × (lookup cmd.name owners ≡ none)
        × (add_commands name cmds (index_command cmd reg) (insert cmd.name name owners) ≡ done out)
  unfolding add_commands
  add_commands-step name cmd cmds reg owners out h = elim (Option-cases (validate_command cmd)) [
    | inr (x, e) ↦ ground (arith, e, h)
    | inl e ↦ elim (Option-cases (lookup cmd.name owners)) [
      | inr (p, f) ↦ ground (arith, e, f, h)
      | inl f ↦ (e, f, ground (arith, e, f, h))
    ]
  ]

  pub add_commands_lem :
      (name : Text) (cmds : List (Command H)) (reg : Registry H C) (owners : Dict Text)
      (out : Registry H C × Dict Text)
      → IsSound reg owners
      → add_commands name cmds reg owners ≡ done out
      → IsSound out.0 out.1
        × Keeps reg out.0
        × ((cmd : Command H) → Mem cmd cmds → lookup cmd.name out.0.all_commands ≡ some cmd)
  unfolding Keeps add_commands
  add_commands_lem name [] reg owners out sound h =
      let e : (reg, owners) ≡ out = ground arith in
      (
        ground (arith, sound, e),
        ((λ n c k. ground (arith, e, k)), ground (arith, e)),
        (λ cmd m. elim m [ ]),
      )
  add_commands_lem name (cmd ∷ cmds) reg owners out sound h =
      let (valid, unowned, rest) = add_commands-step name cmd cmds reg owners out h in
      let fresh = fresh_command cmd.name reg owners unowned sound in
      let (kept, same) = Keeps-index cmd reg fresh in
      let (sound', (kept', same'), all) =
        add_commands_lem name cmds (index_command cmd reg) (insert cmd.name name owners) out
          (IsSound-index cmd name reg owners valid unowned sound) rest in
      let itself : lookup cmd.name (index_command cmd reg).all_commands ≡ some cmd =
        ground (arith, index_command-all cmd reg cmd.name, text_eq_refl cmd.name) in
      (
        sound',
        ((λ n c k. kept' n c (kept n c k)), ground (arith, same, same')),
        (λ c m.
            mem_cons (λ d. lookup d.name out.0.all_commands ≡ some d) m (kept' cmd.name cmd itself)
              all),
      )
