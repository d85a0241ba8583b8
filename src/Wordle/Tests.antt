-- ===== src/Wordle/Tests.antt =====
-- Runs of the Wordle commands over a concrete store, and the theorems at concrete inputs.
use miti99bot.Base.{
  ℕ, ◌≡◌, refl, ◌↔◌, true, false, Option, none, some, List, [], ◌∷◌, arith, Text, codes, text_eq,
  lookup, insert, pos, format_int,
}
use miti99bot.Chat.{Message, group, subject_for, arg_after_command}
use miti99bot.Storage.Contract.{ok, DocStore, IsDocStore, IsFramed}
use miti99bot.Storage.Table.{
  Table, table_store, table_view, table_version, table_store-IsDocStore, table_store-IsFramed,
}
use miti99bot.Wordle.Compare.{compare_words}
use miti99bot.Wordle.Compare.Counts.{hits, IsScored, all_correct, compare_words_lem}
use miti99bot.Wordle.Lookup.{normalize_word, validate_guess}
use miti99bot.Wordle.State.{
  GameState, Stats, is_finished, bump_stats, load_game, save_game, load_stats, record_result,
}
use miti99bot.Wordle.Handlers.{
  new_round, guess_of, Env, pick_random, board_reply, add_guess, start_fresh, get_or_init, play,
  submit, abandon, renew, surrender, give_up, handle_wordle, handle_new, handle_giveup,
}
use miti99bot.Wordle.Handlers.Rounds
use miti99bot.Wordle.Handlers.Account.{score_of, open_rounds}
use miti99bot.Wordle.Handlers.Invariant.{IsValid}
use miti99bot.Wordle.Handlers.Valid

record Tables : Type 0 where
  rounds : Table GameState
  scores : Table Stats

abbrev set_rounds : Table GameState → Tables → Tables
set_rounds t s = record s { rounds = t }

abbrev set_scores : Table Stats → Tables → Tables
set_scores t s = record s { scores = t }

abbrev games : DocStore Tables GameState
games = table_store (λ s. s.rounds) set_rounds

abbrev stats : DocStore Tables Stats
stats = table_store (λ s. s.scores) set_scores

abbrev gv : Tables → Text → Option GameState
gv = table_view (λ s. s.rounds) set_rounds

abbrev gn : Tables → Text → ℕ
gn = table_version (λ s. s.rounds) set_rounds

abbrev sv : Tables → Text → Option Stats
sv = table_view (λ s. s.scores) set_scores

abbrev sn : Tables → Text → ℕ
sn = table_version (λ s. s.scores) set_scores

games_laws : IsDocStore games gv gn
games_laws = table_store-IsDocStore (λ s. s.rounds) set_rounds (λ t s. refl)

stats_laws : IsDocStore stats sv sn
stats_laws = table_store-IsDocStore (λ s. s.scores) set_scores (λ t s. refl)

games_frame : IsFramed games sv
games_frame = table_store-IsFramed (λ s. s.rounds) set_rounds sv (λ t s. refl)

stats_frame : IsFramed stats gv
stats_frame = table_store-IsFramed (λ s. s.scores) set_scores gv (λ t s. refl)

abbrev words : List Text
words = codes "abbey" ∷ codes "crane" ∷ codes "babes" ∷ []

abbrev env : Env
env = record { to_lower = λ s. s; intn = λ n. 0; started_now = 5; result_now = 9 }

abbrev message : Message
message = record { chat_type = group; chat_id = pos 7; sender = none; text = codes "/wordle crane" }

abbrev empty : Tables
empty = record { rounds = []; scores = [] }

-- A round for "abbey" is open.
abbrev going : GameState
going = record {
  target = codes "abbey";
  guesses = [];
  solved = false;
  giveup = false;
  started_at = 5;
}

abbrev one_round : Tables
one_round = record { rounds = (codes "game:7", (going, 1)) ∷ []; scores = [] }

runs : Unit {0}
unfolding handle_wordle handle_new handle_giveup load_game save_game load_stats record_result renew
    give_up surrender abandon get_or_init start_fresh submit play add_guess board_reply pick_random
    validate_guess normalize_word compare_words subject_for arg_after_command format_int is_finished
    bump_stats lookup insert text_eq
runs = tt

first_guess :
    (handle_wordle games stats words words env (some message) empty).0
    ≡ ok (guess_of (codes "crane") (compare_words (codes "crane") (codes "abbey")) 1)
unfolding runs
first_guess = refl

handle_new_account_example :
    let s' = (handle_new games stats words words env (some message) one_round).1 in
    ((score_of sv (codes "7") s').played ≡ 1) × (open_rounds gv (codes "7") s' ≡ 1)
unfolding runs
handle_new_account_example =
    Rounds.handle_new_account games stats gv gn sv sn games_laws stats_laws games_frame stats_frame
      words words env message one_round (new_round (some (codes "abbey"))) refl refl

one_round-IsValid :
    IsValid games stats gv gn sv sn games_laws stats_laws games_frame stats_frame
      (codes "7")
      one_round
unfolding runs
one_round-IsValid = record {
  round = record { bounded = omega arith; scored = tt; solved_iff = refl };
  score = record { wins_le = omega arith; streak_le = omega arith; best_le = omega arith };
}

handlers-IsValid_example :
    let Valid =
      IsValid games stats gv gn sv sn games_laws stats_laws games_frame stats_frame (codes "7") in
    Valid (handle_wordle games stats words words env (some message) one_round).1
    × Valid (handle_new games stats words words env (some message) one_round).1
    × Valid (handle_giveup games stats words words env (some message) one_round).1
unfolding subject_for format_int
handlers-IsValid_example =
    Valid.handlers-IsValid games stats gv gn sv sn games_laws stats_laws games_frame stats_frame
      words words env message one_round one_round-IsValid

compare_words_example :
    (hits b'b' (compare_words (codes "babes") (codes "abbey")) ≡ 2)
    × IsScored (codes "babes") (codes "abbey") (compare_words (codes "babes") (codes "abbey"))
    × ((all_correct (compare_words (codes "babes") (codes "abbey")) ≡ true)
        ↔ (codes "babes" ≡ codes "abbey"))
compare_words_example = compare_words_lem (codes "babes") (codes "abbey") b'b' refl
