-- ===== src/Loldle/Handlers.antt =====
-- The commands (internal/modules/loldle/handlers.go). A reply is its kind with what it shows; its
-- wording and the stickers are left out. The lock of the subject is held over a call, so it is
-- one run.
pub mod Account
pub mod Rounds
pub mod Continued
pub mod Giveup
use miti99bot.Base.{
  ℕ, Bool, true, false, not, ◌||◌, Option, none, some, List, [], ◌∷◌, ◌++◌, ltb, leb, if◌then◌else◌,
  length, get_elem?, Text, text_eq, ℤ, pos, int_eq, parse_integer,
}
use miti99bot.Chat.{Message, subject_for, arg_after_command}
use miti99bot.Storage.Contract.{Failure, index_panic, Result, ok, err, DocStore}
use miti99bot.Storage.Program.{Program, pure, fail, ◌>>=◌, ◌>>◌}
use miti99bot.Loldle.{Champion}
use miti99bot.Loldle.Compare.{AttributeRow, compare_champions}
use miti99bot.Loldle.Lookup.{find_champion_match, find_champion_by_exact_name}
use miti99bot.Loldle.State.{
  GameState, Stats, max_guesses_cap, valid_max_guesses, normalize_max_guesses, round_max_guesses,
  load_game, save_game, clear_game, load_stats, record_result, get_max_guesses, set_max_guesses,
}

-- `boardEntry`
pub record BoardEntry : Type 0 where
  pub champion : Text
  pub rows : List AttributeRow

-- One constructor for each text that a handler replies with; `silent` is no reply.
pub data Reply : Type 0 where
  silent cannot_identify no_active_round data_updated set_max_usage : Reply
  board : ℕ → ℕ → List BoardEntry → Reply
  ambiguous_champion champion_not_found already_guessed : Text → Reply
  won_round : Text → List AttributeRow → ℕ → ℕ → ℕ → Reply
  lost_round : Text → List AttributeRow → Text → Reply
  wrong_guess : Text → List AttributeRow → ℕ → ℕ → Reply
  gave_up : Text → Reply
  stats_of : Stats → Reply
  max_guesses_set : ℤ → Reply

-- What a call takes from outside
pub record Env : Type 0 where
  pub to_lower : Text → Text
  pub equal_fold : Text → Text → Bool
  pub intn : ℕ → ℕ
  pub now : ℤ

pub has_name : Text → List Text → Bool
has_name x [] = false
has_name x (y ∷ ys) = text_eq y x || has_name x ys

module _ {S : Type 0} (games : DocStore S GameState) (stats : DocStore S Stats) (cfg : DocStore S ℤ)
    (champions : List Champion) (env : Env) where
  -- `pickRandomChampion`
  unfoldable pub pick_random_champion : Result Champion
  pick_random_champion = elim (get_elem? champions (env.intn (length champions))) [
    | none ↦ err index_panic
    | some c ↦ ok c
  ]

  -- The loop of `rehydrateGuesses`
  rehydrate : Champion → List Text → List BoardEntry
  rehydrate target [] = []
  rehydrate target (name ∷ names) =
      let rest = rehydrate target names in
      elim (find_champion_by_exact_name champions name) [
        | none ↦ rest
        | some guess ↦
            record {
              champion = name;
              rows = compare_champions env.to_lower env.equal_fold guess target;
            }
            ∷ rest
      ]

  unfoldable pub rehydrate_guesses : GameState → List BoardEntry
  unfolding rehydrate
  rehydrate_guesses g = elim (find_champion_by_exact_name champions g.target) [
    | none ↦ []
    | some target ↦ rehydrate target g.guesses
  ]

  module _ (subject : Text) where
    unfoldable pub start_fresh_game : ℕ → Program S GameState
    start_fresh_game max_guesses s = elim pick_random_champion [
      | err e ↦ (err e, s)
      | ok target ↦
          let g : GameState = record {
            target = target.champion_name;
            guesses = [];
            started_at = none;
            max_guesses = pos (normalize_max_guesses (pos max_guesses));
          } in
          (do save_game games stats cfg subject g; pure g) s
    ]

    -- `getOrInitGame` for the round that was loaded
    unfoldable pub resume_game : ℕ → Option GameState → Program S GameState
    unfolding start_fresh_game
    resume_game max_guesses none = start_fresh_game max_guesses
    resume_game max_guesses (some existing) =
        let round_max = round_max_guesses existing in
        let fixed : GameState = record existing { max_guesses = pos round_max } in
        if not (ltb (length existing.guesses) round_max)
        then start_fresh_game max_guesses
        else if not (int_eq existing.max_guesses (pos round_max))
        then (do save_game games stats cfg subject fixed; pure fixed)
        else pure existing

    unfoldable pub get_or_init_game : ℕ → Program S GameState
    unfolding resume_game
    get_or_init_game max_guesses = do
      existing ← load_game games stats cfg subject
      resume_game max_guesses existing

    -- A guess of a known champion against a known target
    unfoldable pub play : GameState → Champion → Champion → Program S Reply
    play game guess target =
        let rows = compare_champions env.to_lower env.equal_fold guess target in
        let round_max = round_max_guesses game in
        let started : Option ℤ = elim game.started_at [ none ↦ some env.now | some t ↦ some t ] in
        let game' : GameState = record game {
          started_at = started;
          guesses = game.guesses ++ guess.champion_name ∷ [];
        } in
        let tries = length game'.guesses in
        if text_eq guess.champion_name target.champion_name
        then (do
          st ← record_result games stats cfg subject true
          clear_game games stats cfg subject
          pure (won_round guess.champion_name rows tries round_max st.streak))
        else if leb round_max tries
        then (do
          record_result games stats cfg subject false
          clear_game games stats cfg subject
          pure (lost_round guess.champion_name rows target.champion_name))
        else (do
          save_game games stats cfg subject game'
          pure (wrong_guess guess.champion_name rows tries round_max))

    -- A guess of a champion that the text names
    unfoldable pub play_named : GameState → Champion → Program S Reply
    unfolding play has_name
    play_named game guess =
        if has_name guess.champion_name game.guesses
        then pure (already_guessed guess.champion_name)
        else elim (find_champion_by_exact_name champions game.target) [
          | none ↦ (do clear_game games stats cfg subject; pure data_updated)
          | some target ↦ play game guess target
        ]

    -- `handleLoldle` from the loaded round on
    unfoldable pub submit : GameState → Text → Program S Reply
    unfolding play_named rehydrate_guesses
    submit game arg =
        if text_eq arg []
        then pure (board (length game.guesses) (round_max_guesses game) (rehydrate_guesses game))
        else (let (found, ambiguous) = find_champion_match env.to_lower champions arg in
            if ambiguous then pure (ambiguous_champion arg) else elim found [
              | none ↦ pure (champion_not_found arg)
              | some guess ↦ play_named game guess
            ])

    unfoldable pub guess_for : Text → Program S Reply
    unfolding get_or_init_game submit
    guess_for arg = do
      max_guesses ← get_max_guesses games stats cfg subject
      game ← get_or_init_game max_guesses
      submit game arg

    -- `handleGiveup` for a subject
    unfoldable pub give_up : Program S Reply
    give_up = do
      existing ← load_game games stats cfg subject
      elim existing [
        | none ↦ pure no_active_round
        | some g ↦ (do
          record_result games stats cfg subject false
          clear_game games stats cfg subject
          pure (
              gave_up (elim (find_champion_by_exact_name champions g.target) [
                | none ↦ g.target
                | some t ↦ t.champion_name
              ])))
      ]

    -- `handleSetMax` for a subject
    unfoldable pub set_max : Text → Program S Reply
    set_max arg = elim (parse_integer arg) [
      | none ↦ pure set_max_usage
      | some n ↦ elim (set_max_guesses games stats cfg subject n) [
        | none ↦ pure set_max_usage
        | some write ↦ (do write; pure (max_guesses_set n))
      ]
    ]

  -- The prologue that the handlers share
  abbrev pub with_subject : (Message → Text → Program S Reply) → Option Message → Program S Reply
  with_subject body none = pure silent
  with_subject body (some msg) =
      let subject = subject_for msg in
      let run = body msg subject in if text_eq subject [] then pure cannot_identify else run

  unfoldable pub handle_loldle : Option Message → Program S Reply
  unfolding guess_for
  handle_loldle = with_subject (λ msg subject. guess_for subject (arg_after_command msg.text))

  unfoldable pub handle_giveup : Option Message → Program S Reply
  unfolding give_up
  handle_giveup = with_subject (λ msg subject. give_up subject)

  unfoldable pub handle_stats : Option Message → Program S Reply
  handle_stats =
      with_subject (λ msg subject. do st ← load_stats games stats cfg subject; pure (stats_of st))

  unfoldable pub handle_set_max : Option Message → Program S Reply
  unfolding set_max
  handle_set_max = with_subject (λ msg subject. set_max subject (arg_after_command msg.text))
