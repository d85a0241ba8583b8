-- ===== src/Wordle/Handlers.antt =====
-- The commands of Wordle (internal/modules/wordle/handlers.go). A handler returns the reply that it
-- sends; the sending and the wording are Telegram's and the templates' part. The per-subject lock
-- is held from the first read to the last write, so a call is one run over the store's states.
pub mod Account
pub mod Rounds
pub mod Invariant
pub mod Valid
use miti99bot.Base.{
  ℕ, true, false, ◌||◌, Option, none, some, List, [], ◌∷◌, ◌++◌, leb, if◌then◌else◌, length,
  get_elem?, Text, text_eq,
}
use miti99bot.Chat.{Message, subject_for, arg_after_command}
use miti99bot.Storage.Contract.{Failure, empty_word_list, index_panic, Result, ok, err, DocStore}
use miti99bot.Storage.Program.{Program, pure, fail, ◌>>=◌, ◌>>◌}
use miti99bot.Wordle.Compare.{LetterScore, compare_words}
use miti99bot.Wordle.Lookup.{RejectReason, GuessResult, accepted, rejected, validate_guess}
use miti99bot.Wordle.State.{
  GuessRecord, GameState, Stats, is_finished, max_guesses, load_game, save_game, load_stats,
  record_result,
}

-- One constructor for each text that a handler replies with; `silent` is no reply.
pub data Reply : Type 0 where
  silent cannot_identify no_active_round : Reply
  board_solved board_open : List GuessRecord → Reply
  board_given_up : Text → List GuessRecord → Reply
  round_over already_solved already_given_up gave_up : Text → Reply
  reject : RejectReason → Reply
  solved_in : Text → List LetterScore → ℕ → ℕ → Reply
  out_of_guesses : Text → List LetterScore → Text → Reply
  guess_of : Text → List LetterScore → ℕ → Reply
  new_round : Option Text → Reply
  stats_of : Stats → Reply

-- What a call takes from outside: the lower-casing of the library, `rand.Intn`, and the clock at
-- the start of a round and at a result.
pub record Env : Type 0 where
  pub to_lower : Text → Text
  pub intn : ℕ → ℕ
  pub started_now : ℕ
  pub result_now : ℕ

-- `pickRandom` with the package's generator
unfoldable pub pick_random : (ℕ → ℕ) → List Text → Result Text
pick_random intn [] = err empty_word_list
pick_random intn (w ∷ ws) = elim (get_elem? (w ∷ ws) (intn (length (w ∷ ws)))) [
  | none ↦ err index_panic
  | some t ↦ ok t
]

-- The reply to `/wordle` with no argument.
unfoldable pub board_reply : GameState → Reply
board_reply g =
    if g.solved
    then board_solved g.guesses
    else if g.giveup
    then board_given_up g.target g.guesses
    else board_open g.guesses

-- The round after a valid guess.
unfoldable pub add_guess : Text → GameState → GameState
add_guess w g = record g {
  guesses = g.guesses ++ record { word = w; results = compare_words w g.target } ∷ [];
  solved = g.solved || text_eq w g.target;
}

module _ {S : Type 0} (games : DocStore S GameState) (stats : DocStore S Stats) (words : List Text)
    (set : List Text) (env : Env) where
  module _ (subject : Text) where
    unfoldable pub start_fresh : Program S GameState
    start_fresh = do
      target ← (λ s. (pick_random env.intn words, s))
      let g : GameState = record {
        target = target;
        guesses = [];
        solved = false;
        giveup = false;
        started_at = env.started_now;
      }
      save_game games stats subject g
      pure g

    unfoldable pub get_or_init : Program S GameState
    unfolding start_fresh
    get_or_init = do
      g ← load_game games stats subject
      elim g [ some g' ↦ pure g' | none ↦ start_fresh ]

    -- The end of `handleWordle`, from the accepted word.
    unfoldable pub play : GameState → Text → Program S Reply
    unfolding add_guess
    play g w = do
      let results = compare_words w g.target
      let g' = add_guess w g
      let won = text_eq w g.target
      save_game games stats subject g'
      if won
          then (do
            st ← record_result games stats subject true env.result_now
            pure (solved_in w results (length g'.guesses) st.streak))
          else if leb max_guesses (length g'.guesses)
          then (do
            record_result games stats subject false env.result_now
            pure (out_of_guesses w results g.target))
          else pure (guess_of w results (length g'.guesses))

    unfoldable pub submit : GameState → Text → Program S Reply
    unfolding play
    submit g arg =
        if text_eq arg []
        then pure (board_reply g)
        else if is_finished g
        then pure (round_over g.target)
        else elim (validate_guess env.to_lower set arg) [
          | rejected w reason ↦ pure (reject reason)
          | accepted w ↦ play g w
        ]

    -- The prior round of `handleNew`: an unfinished one counts as lost.
    unfoldable pub abandon : Option GameState → Program S (Option Text)
    abandon none = pure none
    abandon (some g) =
        if is_finished g
        then pure none
        else (do record_result games stats subject false env.result_now; pure (some g.target))

    -- `handleNew` for a subject
    unfoldable pub renew : Program S Reply
    unfolding start_fresh abandon
    renew = do
      prior ← load_game games stats subject
      prelude ← abandon prior
      start_fresh
      pure (new_round prelude)

    -- `handleGiveup` for a stored round
    unfoldable pub surrender : GameState → Program S Reply
    surrender g =
        if g.solved
        then pure (already_solved g.target)
        else if g.giveup
        then pure (already_given_up g.target)
        else if is_finished g
        then pure (round_over g.target)
        else (do
          save_game games stats subject (record g { giveup = true })
          record_result games stats subject false env.result_now
          pure (gave_up g.target))

    -- `handleGiveup` for a subject
    unfoldable pub give_up : Program S Reply
    unfolding surrender
    give_up = do
      g ← load_game games stats subject
      elim g [ none ↦ pure no_active_round | some g' ↦ surrender g' ]

  -- The prologue that the handlers share: no message, no subject, or the body for the subject.
  abbrev pub with_subject : (Message → Text → Program S Reply) → Option Message → Program S Reply
  with_subject body none = pure silent
  with_subject body (some msg) =
      let subject = subject_for msg in
      let run = body msg subject in if text_eq subject [] then pure cannot_identify else run

  unfoldable pub handle_wordle : Option Message → Program S Reply
  unfolding get_or_init submit
  handle_wordle =
      with_subject
        (λ msg subject. do g ← get_or_init subject; submit subject g (arg_after_command msg.text))

  unfoldable pub handle_new : Option Message → Program S Reply
  unfolding renew
  handle_new = with_subject (λ msg subject. renew subject)

  unfoldable pub handle_giveup : Option Message → Program S Reply
  unfolding give_up
  handle_giveup = with_subject (λ msg subject. give_up subject)

  unfoldable pub handle_stats : Option Message → Program S Reply
  unfolding load_stats
  handle_stats =
      with_subject (λ msg subject. do st ← load_stats games stats subject; pure (stats_of st))
