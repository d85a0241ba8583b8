-- ===== src/Loldle/Handlers/Rounds.antt =====
-- What `/loldle` does to the number of rounds.
use miti99bot.Base.{
  ℕ, ◌+◌, ◌≡◌, refl, ap, inl, inr, true, false, Option, none, some, List, [], ◌∷◌, ◌++◌, arith, ltb,
  leb, Bool-cases, Option-cases, length, Text, text_eq, ℤ, pos, int_eq,
}
use miti99bot.Chat.{Message, subject_for, arg_after_command}
use miti99bot.Storage.Contract.{ok, DocStore, IsDocStore, IsFramed}
use miti99bot.Storage.Program.{Result-cases}
use miti99bot.Loldle.{Champion}
use miti99bot.Loldle.Lookup.{find_champion_match, find_champion_by_exact_name}
use miti99bot.Loldle.State.{
  GameState, Stats, game_key, normalize_max_guesses, round_max_guesses, load_game, save_game,
  clear_game, record_result, get_max_guesses,
}
use miti99bot.Loldle.Handlers.{
  Reply, Env, has_name, resume_game, get_or_init_game, play, play_named, submit, guess_for,
  handle_loldle,
}
use miti99bot.Loldle.Handlers.Account.{
  normalize_max_guesses-again, score_of, open_rounds, dropped, load_game_lem, load_game-state,
  get_max_guesses-state, save_game_lem, clear_game_lem, finish_lem, bump_stats-played, IsOpen,
  start_fresh_game_lem,
}

module _ {S : Type 0} (games : DocStore S GameState) (stats : DocStore S Stats) (cfg : DocStore S ℤ)
    (gv : S → Text → Option GameState) (gn : S → Text → ℕ) (sv : S → Text → Option Stats)
    (sn : S → Text → ℕ) (games_laws : IsDocStore games gv gn) (stats_laws : IsDocStore stats sv sn)
    (games_frame : IsFramed games sv) (stats_frame : IsFramed stats gv) (champions : List Champion)
    (env : Env) where
  module _ (subject : Text) where
    abbrev Open : GameState → S → Type 0
    Open =
        IsOpen games stats cfg gv gn sv sn games_laws stats_laws games_frame stats_frame subject
          champions env

    abbrev score : S → ℕ
    score s = (score_of sv subject s).played

    pub round_max-again :
        (old : GameState)
        → round_max_guesses (record old { max_guesses = pos (round_max_guesses old) })
          ≡ round_max_guesses old
    unfolding round_max_guesses
    round_max-again old = normalize_max_guesses-again old.max_guesses

    pub round_max-kept :
        (old new : GameState)
        → new.max_guesses ≡ old.max_guesses
        → round_max_guesses new ≡ round_max_guesses old
    unfolding round_max_guesses
    round_max-kept old new h = ap normalize_max_guesses h

    pub resume_game_lem :
        (n : ℕ) (o : Option GameState) (s : S) (g : GameState)
        → gv s (game_key subject) ≡ o
        → (resume_game games stats cfg champions env subject n o s).0 ≡ ok g
        → let s' = (resume_game games stats cfg champions env subject n o s).1 in
          Open g s' × (score_of sv subject s' ≡ score_of sv subject s)
    unfolding resume_game IsOpen
    resume_game_lem n none s g stored h =
        let (is_open, same) =
          start_fresh_game_lem games stats cfg gv gn sv sn games_laws stats_laws games_frame
            stats_frame subject champions env n s g h in
        (is_open, same)
    resume_game_lem n (some old) s g stored h =
        elim (Bool-cases (ltb (length old.guesses) (round_max_guesses old))) [
          | inr full ↦
              let fresh =
                start_fresh_game_lem games stats cfg gv gn sv sn games_laws stats_laws games_frame
                  stats_frame subject champions env n s g in
              ground (arith, full, fresh)
          | inl room ↦
              let fixed : GameState = record old { max_guesses = pos (round_max_guesses old) } in
              elim (Bool-cases (int_eq old.max_guesses (pos (round_max_guesses old)))) [
                | inl kept ↦ ground (arith, room, kept, h, stored)
                | inr odd ↦ elim (Result-cases (save_game games stats cfg subject fixed s).0) [
                  | inr (x, e) ↦ absurd (ground (arith, room, odd, e, h))
                  | inl (u, e) ↦ ground (
                    arith,
                    room,
                    odd,
                    e,
                    h,
                    round_max-again old,
                    save_game_lem games stats cfg gv gn sv sn games_laws stats_laws games_frame
                        stats_frame subject fixed s u e,
                  )
                ]
              ]
        ]

    get_or_init_game_lem :
        (n : ℕ) (s : S) (g : GameState)
        → (get_or_init_game games stats cfg champions env subject n s).0 ≡ ok g
        → let s' = (get_or_init_game games stats cfg champions env subject n s).1 in
          Open g s' × (score_of sv subject s' ≡ score_of sv subject s)
    unfolding get_or_init_game
    get_or_init_game_lem n s g h = elim (Result-cases (load_game games stats cfg subject s).0) [
      | inr (x, e) ↦ absurd (ground arith)
      | inl (o, e) ↦ ground (
        arith,
        resume_game_lem n o s g,
        load_game_lem games stats cfg gv gn sv sn games_laws stats_laws games_frame stats_frame
            subject s o e,
        load_game-state games stats cfg gv gn sv sn games_laws stats_laws games_frame stats_frame
            subject s,
      )
    ]

    -- The rounds counted, open and dropped after a reply
    abbrev settled : Reply → S → ℕ
    settled r s = score s + open_rounds gv subject s + dropped r

    play_lem :
        (g : GameState) (guess target : Champion) (s : S) (r : Reply)
        → (play games stats cfg champions env subject g guess target s).0 ≡ ok r
        → settled r (play games stats cfg champions env subject g guess target s).1 ≡ score s + 1
    unfolding play
    play_lem g guess target s r h =
        elim (Bool-cases (text_eq guess.champion_name target.champion_name)) [
          | inl won ↦ elim (Result-cases (record_result games stats cfg subject true s).0) [
            | inr (x, e) ↦ absurd (ground (arith, won, e, h))
            | inl (st, e) ↦
                let s' = (record_result games stats cfg subject true s).1 in
                elim (Result-cases (clear_game games stats cfg subject s').0) [
                  | inr (x, k) ↦ absurd (ground (arith, won, e, k, h))
                  | inl (u, k) ↦ ground (
                    arith,
                    won,
                    e,
                    k,
                    h,
                    finish_lem games stats cfg gv gn sv sn games_laws stats_laws games_frame
                        stats_frame subject true s st u e k,
                    bump_stats-played games stats cfg gv gn sv sn games_laws stats_laws games_frame
                        stats_frame subject true (score_of sv subject s),
                  )
                ]
          ]
          | inr missed ↦
              elim (Bool-cases
                (leb (round_max_guesses g) (length (g.guesses ++ guess.champion_name ∷ [])))) [
                  | inl last ↦
                      elim (Result-cases (record_result games stats cfg subject false s).0) [
                        | inr (x, e) ↦ absurd (ground (arith, missed, last, e, h))
                        | inl (st, e) ↦
                            let s' = (record_result games stats cfg subject false s).1 in
                            elim (Result-cases (clear_game games stats cfg subject s').0) [
                              | inr (x, k) ↦ absurd (ground (arith, missed, last, e, k, h))
                              | inl (u, k) ↦ ground (
                                arith,
                                missed,
                                last,
                                e,
                                k,
                                h,
                                finish_lem games stats cfg gv gn sv sn games_laws stats_laws
                                    games_frame stats_frame subject false s st u e k,
                                bump_stats-played games stats cfg gv gn sv sn games_laws stats_laws
                                    games_frame stats_frame subject false (score_of sv subject s),
                              )
                            ]
                      ]
                  | inr more ↦
                      let started : Option ℤ = elim g.started_at [
                        | none ↦ some env.now
                        | some t ↦ some t
                      ] in
                      let game : GameState = record g {
                        started_at = started;
                        guesses = g.guesses ++ guess.champion_name ∷ [];
                      } in
                      elim (Result-cases (save_game games stats cfg subject game s).0) [
                        | inr (x, e) ↦ absurd (ground (arith, missed, more, e, h))
                        | inl (u, e) ↦ ground (
                          arith,
                          missed,
                          more,
                          e,
                          h,
                          round_max-kept g game refl,
                          save_game_lem games stats cfg gv gn sv sn games_laws stats_laws
                              games_frame stats_frame subject game s u e,
                        )
                      ]
                ]
        ]

    play_named_lem :
        (g : GameState) (guess : Champion) (s : S) (r : Reply)
        → Open g s
        → (play_named games stats cfg champions env subject g guess s).0 ≡ ok r
        → settled r (play_named games stats cfg champions env subject g guess s).1 ≡ score s + 1
    unfolding play_named IsOpen
    play_named_lem g guess s r stored h =
        elim (Bool-cases (has_name guess.champion_name g.guesses)) [
          | inl again ↦ ground (arith, again, h, stored)
          | inr new ↦ elim (Option-cases (find_champion_by_exact_name champions g.target)) [
            | inr (target, e) ↦ ground (arith, new, e, h, play_lem g guess target s r)
            | inl e ↦ elim (Result-cases (clear_game games stats cfg subject s).0) [
              | inr (x, k) ↦ absurd (ground (arith, new, e, k, h))
              | inl (u, k) ↦ ground (
                arith,
                new,
                e,
                k,
                h,
                clear_game_lem games stats cfg gv gn sv sn games_laws stats_laws games_frame
                    stats_frame subject s u k,
              )
            ]
          ]
        ]

    submit_lem :
        (g : GameState) (arg : Text) (s : S) (r : Reply)
        → Open g s
        → (submit games stats cfg champions env subject g arg s).0 ≡ ok r
        → settled r (submit games stats cfg champions env subject g arg s).1 ≡ score s + 1
    unfolding submit IsOpen
    submit_lem g arg s r stored h = elim (Bool-cases (text_eq arg [])) [
      | inl shown ↦ ground (arith, shown, h, stored)
      | inr guessed ↦ elim (Bool-cases (find_champion_match env.to_lower champions arg).1) [
        | inl many ↦ ground (arith, guessed, many, h, stored)
        | inr one ↦ elim (Option-cases (find_champion_match env.to_lower champions arg).0) [
          | inl e ↦ ground (arith, guessed, one, e, h, stored)
          | inr (guess, e) ↦ ground (arith, guessed, one, e, h, stored, play_named_lem g guess s r)
        ]
      ]
    ]

    guess_for_lem :
        (arg : Text) (s : S) (r : Reply)
        → (guess_for games stats cfg champions env subject arg s).0 ≡ ok r
        → settled r (guess_for games stats cfg champions env subject arg s).1 ≡ score s + 1
    unfolding guess_for
    guess_for_lem arg s r h = elim (Result-cases (get_max_guesses games stats cfg subject s).0) [
      | inr (x, e) ↦ absurd (ground (arith, e, h))
      | inl (n, e) ↦
          let start = get_or_init_game games stats cfg champions env subject n s in
          elim (Result-cases start.0) [
            | inr (x, k) ↦ absurd (
                ground (
                  arith,
                  e,
                  k,
                  h,
                  get_max_guesses-state games stats cfg gv gn sv sn games_laws stats_laws
                      games_frame stats_frame subject s,
                ))
            | inl (g, k) ↦ ground (
              arith,
              e,
              k,
              h,
              get_max_guesses-state games stats cfg gv gn sv sn games_laws stats_laws games_frame
                  stats_frame subject s,
              get_or_init_game_lem n s g k,
              submit_lem g arg start.1 r,
            )
          ]
    ]

  -- For two stores of rounds and scores that keep the contract of `DocStore` and leave each
  -- other's keys alone: after a `/loldle` call from an identified subject that ends without an
  -- error, the rounds counted, the round that is open, and a round dropped because its champion
  -- is gone from the data are together one more than the rounds counted before. So each call
  -- leaves its round open, counts it once, or drops it.
  pub handle_loldle_account :
      (msg : Message) (s : S) (r : Reply)
      → text_eq (subject_for msg) [] ≡ false
      → (handle_loldle games stats cfg champions env (some msg) s).0 ≡ ok r
      → let s' = (handle_loldle games stats cfg champions env (some msg) s).1 in
        (score_of sv (subject_for msg) s').played + open_rounds gv (subject_for msg) s' + dropped r
        ≡ (score_of sv (subject_for msg) s).played + 1
  unfolding handle_loldle
  handle_loldle_account msg s r known h =
      ground (arith, known, h, guess_for_lem (subject_for msg) (arg_after_command msg.text) s r)
