-- ===== src/Loldle/Handlers/Continued.antt =====
-- A guess goes to the round that is open, and what becomes of the round is what the reply says.
use miti99bot.Base.{
  ℕ, ◌+◌, ◌≤◌, ◌≡◌, ◌≢◌, Option, none, some, List, [], ◌∷◌, ◌++◌, ltb, if◌then◌else◌, length, Text,
  text_eq_refl, ℤ, text_eq_refl,
}
use miti99bot.Storage.Contract.{DocStore, IsDocStore, IsFramed}
use miti99bot.Loldle.{Champion}
use miti99bot.Loldle.Lookup.{find_champion_by_exact_name}
use miti99bot.Loldle.State.{GameState, Stats, game_key, round_max_guesses}
use miti99bot.Loldle.Handlers.{Reply, won_round, lost_round, wrong_guess, data_updated, Env}
use miti99bot.Loldle.Handlers.Account.{score_of, IsOpen}

-- The stored round, if it has guesses left
abbrev pub open_of : Option GameState → Option GameState
open_of none = none
open_of (some g) = if ltb (length g.guesses) (round_max_guesses g) then some g else none

-- The round that is played: the open one, or a new one without guesses if none is open
abbrev pub IsResumed : Option GameState → GameState → Type 0
IsResumed none g = g.guesses ≡ []
IsResumed (some old) g =
    (g.target ≡ old.target)
    × (g.guesses ≡ old.guesses)
    × (round_max_guesses g ≡ round_max_guesses old)

-- The score after a win and after a loss
abbrev pub won_score : Stats → Stats
won_score st = record {
  played = st.played + 1;
  wins = st.wins + 1;
  streak = st.streak + 1;
  best_streak = if ltb st.best_streak (st.streak + 1) then st.streak + 1 else st.best_streak;
}

abbrev pub lost_score : Stats → Stats
lost_score st = record st { played = st.played + 1; streak = 0 }

-- What a reply tells of the round that was played and of the score: a wrong guess is added to the
-- round; a won or lost round is gone and in the score, and the reply names its target; it is
-- dropped if its target is in the data no more; and else it is as it was. Nothing else changes
-- the score.
abbrev pub IsContinued :
    List Champion → GameState → Stats → Reply → Option GameState × Stats → Type 0
IsContinued champions g before (wrong_guess name rows tries limit) (some g', after) =
    (g'.target ≡ g.target)
    × (g'.guesses ≡ g.guesses ++ name ∷ [])
    × (round_max_guesses g' ≡ round_max_guesses g)
    × (after ≡ before)
IsContinued champions g before r (some g', after) =
    (g'.target ≡ g.target)
    × (g'.guesses ≡ g.guesses)
    × (round_max_guesses g' ≡ round_max_guesses g)
    × (after ≡ before)
IsContinued champions g before (won_round name rows tries limit streak) (none, after) =
    (target : Champion) × (find_champion_by_exact_name champions g.target ≡ some target)
    × (name ≡ target.champion_name)
    × (tries ≡ length g.guesses + 1)
    × (after ≡ won_score before)
    × (streak ≡ after.streak)
IsContinued champions g before (lost_round name rows answer) (none, after) =
    (target : Champion) × (find_champion_by_exact_name champions g.target ≡ some target)
    × (answer ≡ target.champion_name)
    × (name ≢ answer)
    × (round_max_guesses g ≤ length g.guesses + 1)
    × (after ≡ lost_score before)
IsContinued champions g before data_updated (none, after) =
    (find_champion_by_exact_name champions g.target ≡ none) × (after ≡ before)
IsContinued champions g before r (none, after) = ⊥

module _ {S : Type 0} (games : DocStore S GameState) (stats : DocStore S Stats) (cfg : DocStore S ℤ)
    (gv : S → Text → Option GameState) (gn : S → Text → ℕ) (sv : S → Text → Option Stats)
    (sn : S → Text → ℕ) (games_laws : IsDocStore games gv gn) (stats_laws : IsDocStore stats sv sn)
    (games_frame : IsFramed games sv) (stats_frame : IsFramed stats gv) (champions : List Champion)
    (env : Env) where
  module _ (subject : Text) where
    abbrev Open : GameState → S → Type 0
    Open =
        IsOpen games stats cfg gv gn sv sn games_laws stats_laws games_frame stats_frame subject
          champions env

    abbrev score : S → Stats
    score s = score_of sv subject s

    abbrev held : S → Option GameState × Stats
    held s = (gv s (game_key subject), score s)

    abbrev Continued : GameState → S → Reply → S → Type 0
    Continued g s r s' = IsContinued champions g (score s) r (held s')
