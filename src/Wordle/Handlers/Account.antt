-- ===== src/Wordle/Handlers/Account.antt =====
-- Every round that is started is either open or counted once in the score.
use miti99bot.Base.{
  ℕ, ◌+◌, ◌≡◌, refl, ◌≢◌, inl, inr, Bool, true, false, Option, none, some, List, [], arith,
  if◌then◌else◌, Bool-cases, Option-cases, Text, text_eq, text_eq_refl,
}
use miti99bot.Storage.Contract.{ok, DocStore, IsDocStore, IsFramed, found_or_none}
use miti99bot.Storage.Program.{Result-cases}
use miti99bot.Storage.Reads.{found_or_none-view}
use miti99bot.Wordle.Lookup.{GuessResult-cases, validate_guess}
use miti99bot.Wordle.State.{
  GameState, Stats, no_stats, game_key, stats_key, is_finished, bump_stats, load_game, save_game,
  load_stats, record_result,
}
use miti99bot.Wordle.Handlers.{
  Reply, Env, pick_random, add_guess, start_fresh, get_or_init, play, submit, abandon, surrender,
}

-- The two kinds of keys differ.
pub game_key-ne-stats_key : (a b : Text) → game_key a ≢ stats_key b
game_key-ne-stats_key a b h = ground arith

pub stats_key-ne-game_key : (a b : Text) → stats_key a ≢ game_key b
stats_key-ne-game_key a b h = ground arith

-- The score that a state holds for a subject, the zero score if none.
abbrev pub score_of : {S : Type 0} → (S → Text → Option Stats) → Text → S → Stats
score_of sv subject s = elim (sv s (stats_key subject)) [ none ↦ no_stats | some st ↦ st ]

-- 1 if the subject has a stored round that can take guesses.
abbrev pub open_rounds : {S : Type 0} → (S → Text → Option GameState) → Text → S → ℕ
open_rounds gv subject s = elim (gv s (game_key subject)) [
  | none ↦ 0
  | some g ↦ if is_finished g then 0 else 1
]

-- 1 if the subject has no stored round, so that `/wordle` starts one.
abbrev pub started : {S : Type 0} → (S → Text → Option GameState) → Text → S → ℕ
started gv subject s = elim (gv s (game_key subject)) [ none ↦ 1 | some g ↦ 0 ]

module _ {S : Type 0} (games : DocStore S GameState) (stats : DocStore S Stats)
    (gv : S → Text → Option GameState) (gn : S → Text → ℕ) (sv : S → Text → Option Stats)
    (sn : S → Text → ℕ) where
  module _ (games_laws : IsDocStore games gv gn) (stats_laws : IsDocStore stats sv sn)
      (games_frame : IsFramed games sv) (stats_frame : IsFramed stats gv) (subject : Text) where
    pub load_game_lem :
        (s : S) (o : Option GameState)
        → (load_game games stats subject s).0 ≡ ok o
        → gv s (game_key subject) ≡ o
    unfolding load_game
    load_game_lem s o h = found_or_none-view games gv gn games_laws (game_key subject) s o h

    pub load_game-state : (s : S) → (load_game games stats subject s).1 ≡ s
    unfolding load_game
    load_game-state s = refl

    pub save_game_lem :
        (g : GameState) (s : S) (u : Unit {0})
        → (save_game games stats subject g s).0 ≡ ok u
        → (gv (save_game games stats subject g s).1 (game_key subject) ≡ some g)
          × (score_of sv subject (save_game games stats subject g s).1 ≡ score_of sv subject s)
    unfolding save_game
    save_game_lem g s u h = ground (
      arith,
      games_laws.put_ok (game_key subject) (game_key subject) g s h,
      games_frame.put_other (game_key subject) (stats_key subject) g s
          (game_key-ne-stats_key subject subject),
      text_eq_refl (game_key subject),
    )

    pub load_stats_lem :
        (s : S) (st : Stats)
        → (load_stats games stats subject s).0 ≡ ok st
        → score_of sv subject s ≡ st
    unfolding load_stats
    load_stats_lem s st h = elim (Result-cases (found_or_none (stats.get (stats_key subject) s))) [
      | inl (o, e) ↦
          ground (arith, found_or_none-view stats sv sn stats_laws (stats_key subject) s o e)
      | inr (x, e) ↦ absurd (ground arith)
    ]

    pub record_result_lem :
        (won : Bool) (now : ℕ) (s : S) (st : Stats)
        → (record_result games stats subject won now s).0 ≡ ok st
        → let s' = (record_result games stats subject won now s).1 in
          (score_of sv subject s' ≡ bump_stats won now (score_of sv subject s))
          × (gv s' (game_key subject) ≡ gv s (game_key subject))
          × (st ≡ bump_stats won now (score_of sv subject s))
    unfolding record_result
    record_result_lem won now s st h = elim (Result-cases (load_stats games stats subject s).0) [
      | inr (x, e) ↦ absurd (unfold load_stats in ground arith)
      | inl (old, e) ↦
          let key = stats_key subject in
          let new = bump_stats won now old in
          elim (Result-cases (stats.put key new s).0) [
            | inr (x, e') ↦ absurd (ground arith)
            | inl (u, e') ↦ ground (
              arith,
              load_stats_lem s old e,
              stats_laws.put_ok key key new s e',
              text_eq_refl key,
              stats_frame.put_other key (game_key subject) new s
                  (stats_key-ne-game_key subject subject),
            )
          ]
    ]

    module _ (words set : List Text) (env : Env) where
      pub start_fresh_lem :
          (s : S) (g : GameState)
          → (start_fresh games stats words set env subject s).0 ≡ ok g
          → let s' = (start_fresh games stats words set env subject s).1 in
            (gv s' (game_key subject) ≡ some g)
            × (score_of sv subject s' ≡ score_of sv subject s)
            × (is_finished g ≡ false)
      unfolding start_fresh is_finished
      start_fresh_lem s g h = elim (Result-cases (pick_random env.intn words)) [
        | inr (x, e) ↦ absurd (ground arith)
        | inl (target, e) ↦
            let fresh : GameState = record {
              target = target;
              guesses = [];
              solved = false;
              giveup = false;
              started_at = env.started_now;
            } in
            elim (Result-cases (save_game games stats subject fresh s).0) [
              | inr (x, e') ↦ absurd (ground arith)
              | inl (u, e') ↦ ground (arith, save_game_lem fresh s u e')
            ]
      ]

      pub get_or_init_lem :
          (s : S) (g : GameState)
          → (get_or_init games stats words set env subject s).0 ≡ ok g
          → let s' = (get_or_init games stats words set env subject s).1 in
            (gv s' (game_key subject) ≡ some g)
            × (score_of sv subject s' ≡ score_of sv subject s)
            × (open_rounds gv subject s' ≡ open_rounds gv subject s + started gv subject s)
      unfolding get_or_init
      get_or_init_lem s g h = elim (Result-cases (load_game games stats subject s).0) [
        | inr (x, e) ↦ absurd (ground arith)
        | inl (o, e) ↦ elim (Option-cases o) [
          | inl missing ↦
              ground (arith, load_game_lem s o e, load_game-state s, start_fresh_lem s g)
          | inr (g0, present) ↦ ground (arith, load_game_lem s o e, load_game-state s)
        ]
      ]

      play_lem :
          (g : GameState) (w : Text) (s : S) (r : Reply)
          → is_finished g ≡ false
          → (play games stats words set env subject g w s).0 ≡ ok r
          → let s' = (play games stats words set env subject g w s).1 in
            (score_of sv subject s').played + open_rounds gv subject s'
            ≡ (score_of sv subject s).played + 1
      unfolding play is_finished add_guess bump_stats
      play_lem g w s r unfinished h =
          let g' = add_guess w g in
          elim (Result-cases (save_game games stats subject g' s).0) [
            | inr (x, e) ↦ absurd (ground arith)
            | inl (u, e) ↦
                let s' = (save_game games stats subject g' s).1 in
                let saved = save_game_lem g' s u e in
                elim (Result-cases
                  (record_result games stats subject (text_eq w g.target) env.result_now s').0) [
                    | inr (x, e') ↦ ground (arith, saved)
                    | inl (st, e') ↦ ground (
                      arith,
                      saved,
                      record_result_lem (text_eq w g.target) env.result_now s' st e',
                    )
                  ]
          ]

      pub submit_lem :
          (g : GameState) (arg : Text) (s : S) (r : Reply)
          → gv s (game_key subject) ≡ some g
          → (submit games stats words set env subject g arg s).0 ≡ ok r
          → let s' = (submit games stats words set env subject g arg s).1 in
            (score_of sv subject s').played + open_rounds gv subject s'
            ≡ (score_of sv subject s).played + open_rounds gv subject s
      unfolding submit
      submit_lem g arg s r stored h = elim (Bool-cases (is_finished g)) [
        | inl over ↦ ground arith
        | inr going ↦ elim (GuessResult-cases (validate_guess env.to_lower set arg)) [
          | inl (w, e) ↦ ground (arith, play_lem g w s r going)
          | inr (w, reason, e) ↦ ground arith
        ]
      ]

      pub surrender_lem :
          (g : GameState) (s : S) (r : Reply)
          → gv s (game_key subject) ≡ some g
          → (surrender games stats words set env subject g s).0 ≡ ok r
          → let s' = (surrender games stats words set env subject g s).1 in
            (score_of sv subject s').played + open_rounds gv subject s'
            ≡ (score_of sv subject s).played + open_rounds gv subject s
      unfolding surrender is_finished bump_stats
      surrender_lem g s r stored h =
          let g' : GameState = record g { giveup = true } in
          elim (Result-cases (save_game games stats subject g' s).0) [
            | inr (x, e) ↦ ground arith
            | inl (u, e) ↦
                let s' = (save_game games stats subject g' s).1 in
                elim (Result-cases (record_result games stats subject false env.result_now s').0) [
                  | inr (x, e') ↦ ground arith
                  | inl (st, e') ↦ ground (
                    arith,
                    save_game_lem g' s u e,
                    record_result_lem false env.result_now s' st e',
                  )
                ]
          ]

      pub abandon_lem :
          (o : Option GameState) (s : S) (r : Option Text)
          → gv s (game_key subject) ≡ o
          → (abandon games stats words set env subject o s).0 ≡ ok r
          → let s' = (abandon games stats words set env subject o s).1 in
            (score_of sv subject s').played
            ≡ (score_of sv subject s).played + open_rounds gv subject s
      unfolding abandon bump_stats
      abandon_lem none s r stored h = ground arith
      abandon_lem (some g) s r stored h =
          elim (Result-cases (record_result games stats subject false env.result_now s).0) [
            | inr (x, e) ↦ ground arith
            | inl (st, e) ↦ ground (arith, record_result_lem false env.result_now s st e)
          ]
