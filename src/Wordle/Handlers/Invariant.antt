-- ===== src/Wordle/Handlers/Invariant.antt =====
-- What is stored for a subject stays well formed under every command, also one that fails half-way.
use miti99bot.Base.{
  ℕ, ◌≤◌, ◌≡◌, refl, inl, inr, Bool, true, false, ◌||◌, Option, none, some, List, [], ◌∷◌, ◌++◌,
  arith, leb, Bool-cases, length, length-append, All, All-append, Text, text_eq,
}
use miti99bot.Storage.Contract.{Failure, ok, err, DocStore, IsDocStore, IsFramed}
use miti99bot.Storage.Program.{Result-cases}
use miti99bot.Wordle.Compare.{compare_words}
use miti99bot.Wordle.Lookup.{GuessResult-cases, validate_guess}
use miti99bot.Wordle.State.{
  GuessRecord, GameState, Stats, game_key, stats_key, is_finished, max_guesses, bump_stats,
  load_game, save_game, load_stats, record_result,
}
use miti99bot.Wordle.Handlers.{Env, pick_random, add_guess, start_fresh, play, submit, surrender}
use miti99bot.Wordle.Handlers.Account.{score_of, load_game_lem, save_game_lem, record_result_lem}

-- Some guess of the round is the word.
abbrev pub has_guess : Text → List GuessRecord → Bool
has_guess w [] = false
has_guess w (r ∷ rs) = text_eq r.word w || has_guess w rs

-- A round has six guesses at most, each scored against the target, and it is marked as solved
-- exactly when the target is among them.
pub record IsValidRound (g : GameState) : Type 0 where
  pub bounded : length g.guesses ≤ max_guesses
  pub scored : All (λ r. r.results ≡ compare_words r.word g.target) g.guesses
  pub solved_iff : g.solved ≡ has_guess g.target g.guesses

-- No more wins than rounds, no streak above the best one, and no best streak above the wins.
pub record IsValidStats (st : Stats) : Type 0 where
  pub wins_le : st.wins ≤ st.played
  pub streak_le : st.streak ≤ st.best_streak
  pub best_le : st.best_streak ≤ st.wins

bump_stats-IsValidStats :
    (won : Bool) (now : ℕ) (st : Stats) → IsValidStats st → IsValidStats (bump_stats won now st)
unfolding bump_stats
bump_stats-IsValidStats true now st v = ground arith
bump_stats-IsValidStats false now st v = ground arith

has_guess-append :
    (w : Text) (rs : List GuessRecord) (r : GuessRecord)
    → has_guess w (rs ++ r ∷ []) ≡ (has_guess w rs || text_eq r.word w)
has_guess-append w [] r = ground arith
has_guess-append w (x ∷ rs) r = ground (arith, has_guess-append w rs r)

add_guess-IsValidRound :
    (w : Text) (g : GameState)
    → is_finished g ≡ false
    → IsValidRound g
    → IsValidRound (add_guess w g)
unfolding add_guess is_finished
add_guess-IsValidRound w g unfinished v =
    let r : GuessRecord = record { word = w; results = compare_words w g.target } in
    record {
      bounded = ground (arith, length-append g.guesses (r ∷ []));
      scored = All-append _ g.guesses (r ∷ []) v.scored (refl, tt);
      solved_iff = ground (arith, has_guess-append g.target g.guesses r, v.solved_iff);
    }

abbrev IsValidStored : Option GameState → Type 0
IsValidStored none = Unit
IsValidStored (some g) = IsValidRound g

module _ {S : Type 0} (games : DocStore S GameState) (stats : DocStore S Stats)
    (gv : S → Text → Option GameState) (gn : S → Text → ℕ) (sv : S → Text → Option Stats)
    (sn : S → Text → ℕ) (games_laws : IsDocStore games gv gn) (stats_laws : IsDocStore stats sv sn)
    (games_frame : IsFramed games sv) (stats_frame : IsFramed stats gv) where
  -- What the state holds for a subject is well formed.
  pub record IsValid (subject : Text) (s : S) : Type 0 where
    pub round : IsValidStored (gv s (game_key subject))
    pub score : IsValidStats (score_of sv subject s)

  module _ (subject : Text) where
    save_game-IsValid :
        (g : GameState) (s : S)
        → IsValidRound g
        → IsValid subject s
        → IsValid subject (save_game games stats subject g s).1
    unfolding save_game
    save_game-IsValid g s vg v = elim (Result-cases (save_game games stats subject g s).0) [
      | inl (u, e) ↦
          let (stored, same) =
            save_game_lem games stats gv gn sv sn games_laws stats_laws games_frame stats_frame
              subject g s u e in
          record { round = rw stored vg; score = rw same v.score }
      | inr (x, e) ↦ rw (games_laws.put_err (game_key subject) g s x e) v
    ]

    record_result-failed :
        (won : Bool) (now : ℕ) (s : S) (x : Failure)
        → (record_result games stats subject won now s).0 ≡ err x
        → (record_result games stats subject won now s).1 ≡ s
    unfolding record_result load_stats
    record_result-failed won now s x h = elim (Result-cases (load_stats games stats subject s).0) [
      | inr (y, e) ↦ ground arith
      | inl (old, e) ↦
          let new = bump_stats won now old in
          elim (Result-cases (stats.put (stats_key subject) new s).0) [
            | inr (y, f) ↦ ground (arith, stats_laws.put_err (stats_key subject) new s y f)
            | inl (u, f) ↦ absurd (ground arith)
          ]
    ]

    pub record_result-IsValid :
        (won : Bool) (now : ℕ) (s : S)
        → IsValid subject s
        → IsValid subject (record_result games stats subject won now s).1
    record_result-IsValid won now s v =
        elim (Result-cases (record_result games stats subject won now s).0) [
          | inl (st, e) ↦
              let (scored, same, _) =
                record_result_lem games stats gv gn sv sn games_laws stats_laws games_frame
                  stats_frame subject won now s st e in
              record {
                round = rw same v.round;
                score = rw scored (bump_stats-IsValidStats won now _ v.score);
              }
          | inr (x, e) ↦ rw (record_result-failed won now s x e) v
        ]

    -- A program that ends in the state `t` keeps what holds there.
    pub ends_in : {s t : S} → s ≡ t → IsValid subject t → IsValid subject s
    ends_in e v = rw e v

    module _ (words set : List Text) (env : Env) where
      pub start_fresh-IsValid :
          (s : S)
          → IsValid subject s
          → IsValid subject (start_fresh games stats words set env subject s).1
      unfolding start_fresh
      start_fresh-IsValid s v = elim (Result-cases (pick_random env.intn words)) [
        | inr (x, e) ↦ ends_in {t = s} (ground arith) v
        | inl (target, e) ↦
            let fresh : GameState = record {
              target = target;
              guesses = [];
              solved = false;
              giveup = false;
              started_at = env.started_now;
            } in
            ends_in {t = (save_game games stats subject fresh s).1} (ground arith) (
              save_game-IsValid fresh s
                (record { bounded = omega arith; scored = tt; solved_iff = refl }) v)
      ]

      -- A program that saves a round and then perhaps records a result.
      play-IsValid :
          (g : GameState) (w : Text) (s : S)
          → is_finished g ≡ false
          → IsValidRound g
          → IsValid subject s
          → IsValid subject (play games stats words set env subject g w s).1
      unfolding play
      play-IsValid g w s unfinished vg v =
          let g' = add_guess w g in
          let s' = (save_game games stats subject g' s).1 in
          let saved = save_game-IsValid g' s (add_guess-IsValidRound w g unfinished vg) v in
          elim (Result-cases (save_game games stats subject g' s).0) [
            | inr (x, e) ↦ ends_in {t = s'} (ground arith) saved
            | inl (u, e) ↦ elim (Bool-cases (text_eq w g.target)) [
              | inl won ↦
                  ends_in {t = (record_result games stats subject true env.result_now s').1}
                    (ground arith) (record_result-IsValid true env.result_now s' saved)
              | inr lost ↦ elim (Bool-cases (leb max_guesses (length g'.guesses))) [
                | inl last ↦
                    ends_in {t = (record_result games stats subject false env.result_now s').1}
                      (ground arith) (record_result-IsValid false env.result_now s' saved)
                | inr more ↦ ends_in {t = s'} (ground arith) saved
              ]
            ]
          ]

      pub submit-IsValid :
          (g : GameState) (arg : Text) (s : S)
          → IsValidRound g
          → IsValid subject s
          → IsValid subject (submit games stats words set env subject g arg s).1
      unfolding submit
      submit-IsValid g arg s vg v = elim (Bool-cases (is_finished g)) [
        | inl over ↦ ends_in {t = s} (ground arith) v
        | inr going ↦ elim (Bool-cases (text_eq arg [])) [
          | inl bare ↦ ends_in {t = s} (ground arith) v
          | inr word ↦ elim (GuessResult-cases (validate_guess env.to_lower set arg)) [
            | inl (w, e) ↦
                ends_in {t = (play games stats words set env subject g w s).1} (ground arith)
                  (play-IsValid g w s going vg v)
            | inr (w, reason, e) ↦ ends_in {t = s} (ground arith) v
          ]
        ]
      ]

      pub loaded :
          (s : S) (g : GameState)
          → IsValid subject s
          → (load_game games stats subject s).0 ≡ ok (some g)
          → IsValidRound g
      loaded s g v e =
          rw
            (load_game_lem games stats gv gn sv sn games_laws stats_laws games_frame stats_frame
              subject s (some g) e)
            at v.round

      pub surrender-IsValid :
          (g : GameState) (s : S)
          → IsValidRound g
          → IsValid subject s
          → IsValid subject (surrender games stats words set env subject g s).1
      unfolding surrender
      surrender-IsValid g s vg v =
          let g' : GameState = record g { giveup = true } in
          let s' = (save_game games stats subject g' s).1 in
          let saved =
            save_game-IsValid g' s
              (record { bounded = vg.bounded; scored = vg.scored; solved_iff = vg.solved_iff }) v in
          elim (Bool-cases (is_finished g)) [
            | inl over ↦ ends_in {t = s} (unfold is_finished in ground arith) v
            | inr going ↦ elim (Result-cases (save_game games stats subject g' s).0) [
              | inr (x, e) ↦ ends_in {t = s'} (unfold is_finished in ground arith) saved
              | inl (u, e) ↦
                  ends_in {t = (record_result games stats subject false env.result_now s').1}
                    (unfold is_finished in ground arith)
                    (record_result-IsValid false env.result_now s' saved)
            ]
          ]
