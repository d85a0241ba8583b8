-- ===== src/Loldle/Tests.antt =====
-- Runs of the loldle commands over concrete stores, and the theorems at concrete inputs.
use miti99bot.Base.{
  ℕ, ◌+◌, ◌≡◌, refl, ◌↔◌, true, false, ◌&&◌, Option, none, some, List, [], ◌∷◌, map, leb,
  if◌then◌else◌, Text, codes, text_eq, has_prefix, lookup, insert, erase, ℤ, pos, format_int,
}
use miti99bot.Chat.{Message, group, subject_for, arg_after_command, trim_space, leading_space}
use miti99bot.Storage.Contract.{DocStore, IsDocStore, IsFramed}
use miti99bot.Storage.Table.{
  Table, table_store, table_view, table_version, table_store-IsDocStore, table_store-IsFramed,
}
use miti99bot.Loldle.{Champion}
use miti99bot.Loldle.Compare.{
  outcome_correct, outcome_wrong, compare_multi_value, compare_champions,
}
use miti99bot.Loldle.Compare.Sets.{is_word, SameWords, compare_multi_value_lem}
use miti99bot.Loldle.Lookup.{normalize_name, find_champion_match, find_champion_by_exact_name}
use miti99bot.Loldle.Lookup.Reference.{find_champion_match_lem}
use miti99bot.Loldle.State.{
  GameState, Stats, game_key, normalize_max_guesses, valid_max_guesses, round_max_guesses,
  bump_stats, load_game, save_game, clear_game, load_stats, record_result, get_max_guesses,
}
use miti99bot.Loldle.Handlers.{
  gave_up, Env, pick_random_champion, start_fresh_game, resume_game, get_or_init_game, play,
  play_named, submit, guess_for, give_up, handle_loldle, handle_giveup,
}
use miti99bot.Loldle.Handlers.Account.{score_of}
use miti99bot.Loldle.Handlers.Giveup.{handle_giveup_lem, score_after, giveup_reply}

record Tables : Type 0 where
  rounds : Table GameState
  scores : Table Stats
  lengths : Table ℤ

abbrev set_rounds : Table GameState → Tables → Tables
set_rounds t s = record s { rounds = t }

abbrev set_scores : Table Stats → Tables → Tables
set_scores t s = record s { scores = t }

abbrev set_lengths : Table ℤ → Tables → Tables
set_lengths t s = record s { lengths = t }

abbrev games : DocStore Tables GameState
games = table_store (λ s. s.rounds) set_rounds

abbrev stats : DocStore Tables Stats
stats = table_store (λ s. s.scores) set_scores

abbrev cfg : DocStore Tables ℤ
cfg = table_store (λ s. s.lengths) set_lengths

abbrev gv : Tables → Text → Option GameState
gv = table_view (λ s. s.rounds) set_rounds

abbrev gn : Tables → Text → ℕ
gn = table_version (λ s. s.rounds) set_rounds

abbrev sv : Tables → Text → Option Stats
sv = table_view (λ s. s.scores) set_scores

abbrev sn : Tables → Text → ℕ
sn = table_version (λ s. s.scores) set_scores

games_laws : IsDocStore games gv gn
games_laws = table_store-IsDocStore (λ s. s.rounds) set_rounds (λ t s. refl)

stats_laws : IsDocStore stats sv sn
stats_laws = table_store-IsDocStore (λ s. s.scores) set_scores (λ t s. refl)

games_frame : IsFramed games sv
games_frame = table_store-IsFramed (λ s. s.rounds) set_rounds sv (λ t s. refl)

stats_frame : IsFramed stats gv
stats_frame = table_store-IsFramed (λ s. s.scores) set_scores gv (λ t s. refl)

abbrev champion : Text → Text → Champion
champion name year = record {
  champion_name = name;
  gender = codes "Female";
  positions = codes "Mid" ∷ [];
  species = codes "Vastaya" ∷ [];
  resource = codes "Mana";
  range_type = codes "Ranged" ∷ [];
  regions = codes "Ionia" ∷ [];
  release_date = year;
}

abbrev ahri : Champion
ahri = champion (codes "Ahri") (codes "2011-12-14")

abbrev akali : Champion
akali = champion (codes "Akali") (codes "2010-05-11")

abbrev champions : List Champion
champions = ahri ∷ akali ∷ []

abbrev lower_byte : ℕ → ℕ
lower_byte c = if leb 65 c && leb c 90 then c + 32 else c

abbrev ascii_lower : Text → Text
ascii_lower s = map lower_byte s

abbrev env : Env
env = record { to_lower = ascii_lower; equal_fold = text_eq; intn = λ n. 0; now = pos 5 }

ambiguous_prefix : find_champion_match ascii_lower champions (codes "a") ≡ (none, true)
unfolding find_champion_match normalize_name text_eq has_prefix
ambiguous_prefix = refl

find_champion_match_example :
    find_champion_match ascii_lower champions (codes "AK") ≡ (some akali, false)
unfolding normalize_name text_eq has_prefix
find_champion_match_example = find_champion_match_lem ascii_lower champions (codes "AK") refl

abbrev mid_top : List Text
mid_top = codes "Mid" ∷ codes "Top" ∷ []

abbrev top_mid : List Text
top_mid = codes "top " ∷ codes "mid" ∷ codes "Mid" ∷ []

compare_multi_value_example :
    ((compare_multi_value ascii_lower mid_top top_mid ≡ outcome_correct)
      ↔ SameWords ascii_lower mid_top top_mid)
    × ((compare_multi_value ascii_lower mid_top top_mid ≡ outcome_wrong) ↔ (
        ((x : Text) → (is_word ascii_lower x mid_top && is_word ascii_lower x top_mid) ≡ false)
        × ¬ SameWords ascii_lower mid_top top_mid))
compare_multi_value_example = compare_multi_value_lem ascii_lower mid_top top_mid

same_positions : compare_multi_value ascii_lower mid_top top_mid ≡ outcome_correct
unfolding compare_multi_value trim_space leading_space text_eq
same_positions = refl

abbrev message : Text → Message
message text = record { chat_type = group; chat_id = pos 7; sender = none; text = text }

abbrev empty : Tables
empty = record { rounds = []; scores = []; lengths = [] }

abbrev going : GameState
going = record { target = codes "Ahri"; guesses = []; started_at = none; max_guesses = pos 8 }

abbrev one_round : Tables
one_round = record { rounds = (codes "game:7", (going, 1)) ∷ []; scores = []; lengths = [] }

runs : Unit {0}
unfolding handle_loldle handle_giveup guess_for give_up get_or_init_game resume_game
    start_fresh_game pick_random_champion submit play_named play find_champion_match
    find_champion_by_exact_name normalize_name compare_champions round_max_guesses
    normalize_max_guesses valid_max_guesses load_game save_game clear_game load_stats record_result
    get_max_guesses bump_stats subject_for arg_after_command trim_space leading_space format_int
    lookup insert erase text_eq has_prefix
runs = tt

handle_giveup_example :
    let s' =
      (handle_giveup games stats cfg champions env
        (some (message (codes "/loldle_giveup")))
        one_round).1 in
    (gv s' (game_key (codes "7")) ≡ none)
    × (score_of sv (codes "7") s'
        ≡ score_after (gv one_round (game_key (codes "7"))) (score_of sv (codes "7") one_round))
    × (gave_up (codes "Ahri") ≡ giveup_reply (gv one_round (game_key (codes "7"))))
unfolding runs
handle_giveup_example =
    handle_giveup_lem games stats cfg gv gn sv sn games_laws stats_laws games_frame stats_frame
      champions env (message (codes "/loldle_giveup")) one_round (gave_up (codes "Ahri")) refl refl
