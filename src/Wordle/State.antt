-- ===== src/Wordle/State.antt =====
-- The stored rounds and scores of Wordle (internal/modules/wordle/state.go).
use miti99bot.Base.{
  ℕ, ◌+◌, Bool, true, false, ◌||◌, Option, none, some, List, ◌++◌, ltb, leb, if◌then◌else◌, length,
  Text, codes,
}
use miti99bot.Storage.Contract.{Result, ok, err, DocStore, found_or_none}
use miti99bot.Storage.Program.{Program, pure, read, ◌>>=◌, ◌>>◌}
use miti99bot.Wordle.Compare.{LetterScore}

abbrev pub max_guesses : ℕ
max_guesses = 6

pub record GuessRecord : Type 0 where
  pub word : Text
  pub results : List LetterScore

pub record GameState : Type 0 where
  pub target : Text
  pub guesses : List GuessRecord
  pub solved : Bool
  pub giveup : Bool
  pub started_at : ℕ

-- `Stats`; `last_result_at` is nil before the first result.
pub record Stats : Type 0 where
  pub played : ℕ
  pub wins : ℕ
  pub streak : ℕ
  pub best_streak : ℕ
  pub last_result_at : Option ℕ

abbrev pub no_stats : Stats
no_stats = record { played = 0; wins = 0; streak = 0; best_streak = 0; last_result_at = none }

abbrev pub game_key : Text → Text
game_key subject = codes "game:" ++ subject

abbrev pub stats_key : Text → Text
stats_key subject = codes "stats:" ++ subject

unfoldable pub is_finished : GameState → Bool
is_finished g = g.solved || g.giveup || leb max_guesses (length g.guesses)

-- The update of the score in `recordResult`.
unfoldable pub bump_stats : Bool → ℕ → Stats → Stats
bump_stats true now s =
    let streak' = s.streak + 1 in
    record {
      played = s.played + 1;
      wins = s.wins + 1;
      streak = streak';
      best_streak = if ltb s.best_streak streak' then streak' else s.best_streak;
      last_result_at = some now;
    }
bump_stats false now s = record s { played = s.played + 1; streak = 0; last_result_at = some now }

abbrev or_no_stats : Result (Option Stats) → Result Stats
or_no_stats (ok none) = ok no_stats
or_no_stats (ok (some s)) = ok s
or_no_stats (err e) = err e

module _ {S : Type 0} (games : DocStore S GameState) (stats : DocStore S Stats)
    (subject : Text) where
  unfoldable pub load_game : Program S (Option GameState)
  load_game = read (λ s. found_or_none (games.get (game_key subject) s))

  unfoldable pub save_game : GameState → Program S (Unit {0})
  save_game g = games.put (game_key subject) g

  unfoldable pub load_stats : Program S Stats
  load_stats = read (λ s. or_no_stats (found_or_none (stats.get (stats_key subject) s)))

  unfoldable pub record_result : Bool → ℕ → Program S Stats
  unfolding load_stats
  record_result won now = do
    s ← load_stats
    let s' = bump_stats won now s
    stats.put (stats_key subject) s'
    pure s'
