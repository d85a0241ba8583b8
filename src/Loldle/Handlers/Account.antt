-- ===== src/Loldle/Handlers/Account.antt =====
-- Every round of a subject is open, counted once in the score, or dropped with its champion.
use miti99bot.Base.{
  ℕ, ◌+◌, ◌≤◌, ◌<◌, ◌≡◌, refl, ◌≢◌, inl, inr, Bool, true, false, Option, none, some, List, [],
  arith, ltb, if◌then◌else◌, length, Text, text_eq_refl, ℤ, pos, negsuc, text_eq_refl,
}
use miti99bot.Storage.Contract.{ok, DocStore, IsDocStore, IsFramed, found_or_none}
use miti99bot.Storage.Program.{Result-cases}
use miti99bot.Storage.Reads.{found_or_none-view}
use miti99bot.Loldle.{Champion}
use miti99bot.Loldle.State.{
  GameState, Stats, no_stats, game_key, stats_key, valid_max_guesses, normalize_max_guesses,
  round_max_guesses, bump_stats, load_game, save_game, clear_game, load_stats, record_result,
  get_max_guesses,
}
use miti99bot.Loldle.Handlers.{Reply, data_updated, Env, pick_random_champion, start_fresh_game}

-- The length of a round is between 1 and 10, and stays so.
pub normalize_max_guesses-bounds :
    (n : ℤ) → (1 ≤ normalize_max_guesses n) × (normalize_max_guesses n ≤ 10)
unfolding normalize_max_guesses valid_max_guesses
normalize_max_guesses-bounds (pos n) = ground arith
normalize_max_guesses-bounds (negsuc n) = ground arith

pub normalize_max_guesses-again :
    (n : ℤ) → normalize_max_guesses (pos (normalize_max_guesses n)) ≡ normalize_max_guesses n
unfolding normalize_max_guesses valid_max_guesses
normalize_max_guesses-again (pos n) = ground arith
normalize_max_guesses-again (negsuc n) = ground arith

game_key-ne-stats_key : (a b : Text) → game_key a ≢ stats_key b
game_key-ne-stats_key a b h = ground arith

stats_key-ne-game_key : (a b : Text) → stats_key a ≢ game_key b
stats_key-ne-game_key a b h = ground arith

-- The score that a state holds for a subject, the zero score if none
abbrev pub score_of : {S : Type 0} → (S → Text → Option Stats) → Text → S → Stats
score_of sv subject s = elim (sv s (stats_key subject)) [ none ↦ no_stats | some st ↦ st ]

-- 1 if the subject has a stored round with guesses left
abbrev pub open_rounds : {S : Type 0} → (S → Text → Option GameState) → Text → S → ℕ
open_rounds gv subject s = elim (gv s (game_key subject)) [
  | none ↦ 0
  | some g ↦ if ltb (length g.guesses) (round_max_guesses g) then 1 else 0
]

-- 1 if a call has dropped a round whose champion is in the data no more
abbrev pub dropped : Reply → ℕ
dropped data_updated = 1
dropped _ = 0

module _ {S : Type 0} (games : DocStore S GameState) (stats : DocStore S Stats) (cfg : DocStore S ℤ)
    (gv : S → Text → Option GameState) (gn : S → Text → ℕ) (sv : S → Text → Option Stats)
    (sn : S → Text → ℕ) (games_laws : IsDocStore games gv gn) (stats_laws : IsDocStore stats sv sn)
    (games_frame : IsFramed games sv) (stats_frame : IsFramed stats gv) (subject : Text) where
  pub load_game_lem :
      (s : S) (o : Option GameState)
      → (load_game games stats cfg subject s).0 ≡ ok o
      → gv s (game_key subject) ≡ o
  unfolding load_game
  load_game_lem s o h = found_or_none-view games gv gn games_laws (game_key subject) s o h

  pub load_game-state : (s : S) → (load_game games stats cfg subject s).1 ≡ s
  unfolding load_game
  load_game-state s = refl

  pub get_max_guesses-state : (s : S) → (get_max_guesses games stats cfg subject s).1 ≡ s
  unfolding get_max_guesses
  get_max_guesses-state s = refl

  pub save_game_lem :
      (g : GameState) (s : S) (u : Unit {0})
      → (save_game games stats cfg subject g s).0 ≡ ok u
      → (gv (save_game games stats cfg subject g s).1 (game_key subject) ≡ some g)
        × (score_of sv subject (save_game games stats cfg subject g s).1 ≡ score_of sv subject s)
  unfolding save_game
  save_game_lem g s u h = ground (
    arith,
    games_laws.put_ok (game_key subject) (game_key subject) g s h,
    games_frame.put_other (game_key subject) (stats_key subject) g s
        (game_key-ne-stats_key subject subject),
    text_eq_refl (game_key subject),
  )

  pub clear_game_lem :
      (s : S) (u : Unit {0})
      → (clear_game games stats cfg subject s).0 ≡ ok u
      → (gv (clear_game games stats cfg subject s).1 (game_key subject) ≡ none)
        × (score_of sv subject (clear_game games stats cfg subject s).1 ≡ score_of sv subject s)
  unfolding clear_game
  clear_game_lem s u h = ground (
    arith,
    games_laws.delete_ok (game_key subject) (game_key subject) s h,
    games_frame.delete_other (game_key subject) (stats_key subject) s
        (game_key-ne-stats_key subject subject),
    text_eq_refl (game_key subject),
  )

  load_stats_lem :
      (s : S) (st : Stats)
      → (load_stats games stats cfg subject s).0 ≡ ok st
      → score_of sv subject s ≡ st
  unfolding load_stats
  load_stats_lem s st h = elim (Result-cases (found_or_none (stats.get (stats_key subject) s))) [
    | inl (o, e) ↦
        ground (arith, found_or_none-view stats sv sn stats_laws (stats_key subject) s o e)
    | inr (x, e) ↦ absurd (ground arith)
  ]

  load_stats-state : (s : S) → (load_stats games stats cfg subject s).1 ≡ s
  unfolding load_stats
  load_stats-state s = refl

  pub bump_stats-played : (won : Bool) (st : Stats) → (bump_stats won st).played ≡ st.played + 1
  unfolding bump_stats
  bump_stats-played true st = refl
  bump_stats-played false st = refl

  record_result_lem :
      (won : Bool) (s : S) (st : Stats)
      → (record_result games stats cfg subject won s).0 ≡ ok st
      → (score_of sv subject (record_result games stats cfg subject won s).1
          ≡ bump_stats won (score_of sv subject s))
        × (st ≡ bump_stats won (score_of sv subject s))
  unfolding record_result
  record_result_lem won s st h = elim (Result-cases (load_stats games stats cfg subject s).0) [
    | inr (x, e) ↦ absurd (ground arith)
    | inl (old, e) ↦
        let key = stats_key subject in
        let new = bump_stats won old in
        elim (Result-cases (stats.put key new s).0) [
          | inr (x, e') ↦ absurd (ground (arith, load_stats-state s))
          | inl (u, e') ↦ ground (
            arith,
            load_stats_lem s old e,
            load_stats-state s,
            stats_laws.put_ok key key new s e',
            text_eq_refl key,
          )
        ]
  ]

  -- A result, and then the end of the round
  pub finish_lem :
      (won : Bool) (s : S) (st : Stats) (u : Unit {0})
      → (record_result games stats cfg subject won s).0 ≡ ok st
      → let s' = (record_result games stats cfg subject won s).1 in
        (clear_game games stats cfg subject s').0 ≡ ok u
        → let t = (clear_game games stats cfg subject s').1 in
          (score_of sv subject t ≡ bump_stats won (score_of sv subject s))
          × (st ≡ bump_stats won (score_of sv subject s))
          × (gv t (game_key subject) ≡ none)
  finish_lem won s st u h k =
      let s' = (record_result games stats cfg subject won s).1 in
      ground (arith, record_result_lem won s st h, clear_game_lem s' u k)

  module _ (champions : List Champion) (env : Env) where
    -- The round that a call goes on with
    unfoldable pub IsOpen : GameState → S → Type 0
    IsOpen g s = (gv s (game_key subject) ≡ some g) × (length g.guesses < round_max_guesses g)

    pub start_fresh_game_lem :
        (n : ℕ) (s : S) (g : GameState)
        → (start_fresh_game games stats cfg champions env subject n s).0 ≡ ok g
        → let s' = (start_fresh_game games stats cfg champions env subject n s).1 in
          IsOpen g s' × (score_of sv subject s' ≡ score_of sv subject s)
    unfolding start_fresh_game IsOpen round_max_guesses
    start_fresh_game_lem n s g h =
        elim (Result-cases (pick_random_champion games stats cfg champions env)) [
          | inr (x, e) ↦ absurd (ground arith)
          | inl (target, e) ↦
              let fresh : GameState = record {
                target = target.champion_name;
                guesses = [];
                started_at = none;
                max_guesses = pos (normalize_max_guesses (pos n));
              } in
              elim (Result-cases (save_game games stats cfg subject fresh s).0) [
                | inr (x, e') ↦ absurd (ground arith)
                | inl (u, e') ↦ ground (
                  arith,
                  save_game_lem fresh s u e',
                  normalize_max_guesses-bounds fresh.max_guesses,
                )
              ]
        ]
