-- ===== src/Loldle/State.antt =====
-- The stored rounds, scores and round lengths (internal/modules/loldle/state.go).
use miti99bot.Base.{
  ℕ, ◌+◌, Bool, true, false, ◌&&◌, Option, none, some, List, ◌++◌, ltb, leb, if◌then◌else◌, Text,
  codes, ℤ, pos, negsuc,
}
use miti99bot.Storage.Contract.{Result, ok, err, DocStore, found_or_none}
use miti99bot.Storage.Program.{Program, pure, read, ◌>>=◌, ◌>>◌}

abbrev pub max_guesses : ℕ
max_guesses = 8

abbrev pub max_guesses_cap : ℕ
max_guesses_cap = 10

-- `gameState`; the length of the round as it was stored may be any integer.
pub record GameState : Type 0 where
  pub target : Text
  pub guesses : List Text
  pub started_at : Option ℤ
  pub max_guesses : ℤ

-- `stats`
pub record Stats : Type 0 where
  pub played : ℕ
  pub wins : ℕ
  pub streak : ℕ
  pub best_streak : ℕ

abbrev pub no_stats : Stats
no_stats = record { played = 0; wins = 0; streak = 0; best_streak = 0 }

-- `roundConfig` is its number.
abbrev pub game_key : Text → Text
game_key subject = codes "game:" ++ subject

abbrev pub stats_key : Text → Text
stats_key subject = codes "stats:" ++ subject

abbrev pub config_key : Text → Text
config_key subject = codes "config:" ++ subject

unfoldable pub valid_max_guesses : ℤ → Bool
valid_max_guesses (pos n) = leb 1 n && leb n max_guesses_cap
valid_max_guesses (negsuc n) = false

unfoldable pub normalize_max_guesses : ℤ → ℕ
normalize_max_guesses (pos n) = if valid_max_guesses (pos n) then n else max_guesses
normalize_max_guesses (negsuc n) = max_guesses

-- `roundMaxGuesses` of a round that is not nil
unfoldable pub round_max_guesses : GameState → ℕ
unfolding normalize_max_guesses
round_max_guesses g = normalize_max_guesses g.max_guesses

-- The update of the score in `recordResult`
unfoldable pub bump_stats : Bool → Stats → Stats
bump_stats true s =
    let streak' = s.streak + 1 in
    record {
      played = s.played + 1;
      wins = s.wins + 1;
      streak = streak';
      best_streak = if ltb s.best_streak streak' then streak' else s.best_streak;
    }
bump_stats false s = record s { played = s.played + 1; streak = 0 }

abbrev pub or_no_stats : Result (Option Stats) → Result Stats
or_no_stats (ok none) = ok no_stats
or_no_stats (ok (some s)) = ok s
or_no_stats (err e) = err e

-- What `getMaxGuesses` makes of the stored number
abbrev pub or_default : Result (Option ℤ) → Result ℕ
or_default (ok none) = ok max_guesses
or_default (ok (some n)) = ok (normalize_max_guesses n)
or_default (err e) = err e

module _ {S : Type 0} (games : DocStore S GameState) (stats : DocStore S Stats) (cfg : DocStore S ℤ)
    (subject : Text) where
  unfoldable pub load_game : Program S (Option GameState)
  load_game = read (λ s. found_or_none (games.get (game_key subject) s))

  unfoldable pub save_game : GameState → Program S (Unit {0})
  save_game g = games.put (game_key subject) g

  unfoldable pub clear_game : Program S (Unit {0})
  clear_game = games.delete (game_key subject)

  unfoldable pub load_stats : Program S Stats
  load_stats = read (λ s. or_no_stats (found_or_none (stats.get (stats_key subject) s)))

  unfoldable pub record_result : Bool → Program S Stats
  unfolding load_stats
  record_result won = do
    s ← load_stats
    let s' = bump_stats won s
    stats.put (stats_key subject) s'
    pure s'

  unfoldable pub get_max_guesses : Program S ℕ
  get_max_guesses = read (λ s. or_default (found_or_none (cfg.get (config_key subject) s)))

  -- `setMaxGuesses`; none is its error for a number out of range, which its caller has excluded.
  unfoldable pub set_max_guesses : ℤ → Option (Program S (Unit {0}))
  unfolding valid_max_guesses
  set_max_guesses n = if valid_max_guesses n then some (cfg.put (config_key subject) n) else none
