-- ===== src/Wordle/Handlers/Valid.antt =====
-- Every command keeps the stored round and score of its subject well formed.
use miti99bot.Base.{
  ℕ, ◌≡◌, ap, ◌∙◌, inl, inr, false, Option, none, some, List, [], arith, Bool-cases, Option-cases,
  Text, text_eq,
}
use miti99bot.Chat.{Message, subject_for, arg_after_command}
use miti99bot.Storage.Contract.{ok, DocStore, IsDocStore, IsFramed}
use miti99bot.Storage.Program.{Program, ◌>>=◌, Result-cases}
use miti99bot.Wordle.State.{GameState, Stats, game_key, is_finished, load_game, record_result}
use miti99bot.Wordle.Handlers.{
  Env, start_fresh, get_or_init, Reply, submit, abandon, renew, surrender, give_up, handle_wordle,
  handle_new, handle_giveup,
}
use miti99bot.Wordle.Handlers.Account.{load_game-state, get_or_init_lem}
use miti99bot.Wordle.Handlers.Invariant.{
  IsValidRound, IsValid, ends_in, start_fresh-IsValid, submit-IsValid, surrender-IsValid,
  record_result-IsValid, loaded,
}

module _ {S : Type 0} (games : DocStore S GameState) (stats : DocStore S Stats)
    (gv : S → Text → Option GameState) (gn : S → Text → ℕ) (sv : S → Text → Option Stats)
    (sn : S → Text → ℕ) (games_laws : IsDocStore games gv gn) (stats_laws : IsDocStore stats sv sn)
    (games_frame : IsFramed games sv) (stats_frame : IsFramed stats gv) (words set : List Text)
    (env : Env) where
  abbrev Valid : Text → S → Type 0
  Valid = IsValid games stats gv gn sv sn games_laws stats_laws games_frame stats_frame

  module _ (subject : Text) where
    get_or_init-Valid :
        (s : S)
        → Valid subject s
        → Valid subject (get_or_init games stats words set env subject s).1
    unfolding get_or_init
    get_or_init-Valid s v = elim (Result-cases (load_game games stats subject s).0) [
      | inr (x, e) ↦
          ends_in games stats gv gn sv sn games_laws stats_laws games_frame stats_frame subject
            {t = s}
            (ground (
              arith,
              load_game-state games stats gv gn sv sn games_laws stats_laws games_frame stats_frame
                  subject s,
            ))
            v
      | inl (o, e) ↦ elim (Option-cases o) [
        | inl missing ↦
            ends_in games stats gv gn sv sn games_laws stats_laws games_frame stats_frame subject
              {t = (start_fresh games stats words set env subject s).1}
              (ground (
                arith,
                load_game-state games stats gv gn sv sn games_laws stats_laws games_frame
                    stats_frame subject s,
              ))
              (start_fresh-IsValid games stats gv gn sv sn games_laws stats_laws games_frame
                stats_frame subject words set env s v)
        | inr (g, present) ↦
            ends_in games stats gv gn sv sn games_laws stats_laws games_frame stats_frame subject
              {t = s}
              (ground (
                arith,
                load_game-state games stats gv gn sv sn games_laws stats_laws games_frame
                    stats_frame subject s,
              ))
              v
      ]
    ]

    stored_round :
        (g : GameState) (s : S)
        → gv s (game_key subject) ≡ some g
        → Valid subject s
        → IsValidRound g
    stored_round g s e v = rw e at v.round

    -- `handleWordle` for a subject and an argument
    guess_for : Text → Program S Reply
    guess_for arg = do
      g ← get_or_init games stats words set env subject
      submit games stats words set env subject g arg

    guess_for-Valid : (arg : Text) (s : S) → Valid subject s → Valid subject (guess_for arg s).1
    unfolding guess_for
    guess_for-Valid arg s v =
        let start = get_or_init games stats words set env subject s in
        let kept = get_or_init-Valid s v in
        elim (Result-cases start.0) [
          | inr (x, e) ↦
              ends_in games stats gv gn sv sn games_laws stats_laws games_frame stats_frame subject
                {t = start.1} (ground arith) kept
          | inl (g, e) ↦
              let stored =
                (get_or_init_lem games stats gv gn sv sn games_laws stats_laws games_frame
                  stats_frame subject words set env s g e).0 in
              ends_in games stats gv gn sv sn games_laws stats_laws games_frame stats_frame subject
                {t = (submit games stats words set env subject g arg start.1).1} (ground arith)
                (submit-IsValid games stats gv gn sv sn games_laws stats_laws games_frame
                  stats_frame subject words set env g arg start.1
                  (stored_round g start.1 stored kept) kept)
        ]

    abandon-Valid :
        (o : Option GameState) (s : S)
        → Valid subject s
        → Valid subject (abandon games stats words set env subject o s).1
    unfolding abandon
    abandon-Valid none s v = v
    abandon-Valid (some g) s v =
        let settle = record_result games stats subject false env.result_now s in
        let kept =
          record_result-IsValid games stats gv gn sv sn games_laws stats_laws games_frame
            stats_frame subject false env.result_now s v in
        elim (Bool-cases (is_finished g)) [
          | inl over ↦
              ends_in games stats gv gn sv sn games_laws stats_laws games_frame stats_frame subject
                {t = s} (ground arith) v
          | inr going ↦
              ends_in games stats gv gn sv sn games_laws stats_laws games_frame stats_frame subject
                {t = settle.1} (ground arith) kept
        ]

    renew-Valid :
        (s : S) → Valid subject s → Valid subject (renew games stats words set env subject s).1
    unfolding renew
    renew-Valid s v =
        let same =
          load_game-state games stats gv gn sv sn games_laws stats_laws games_frame stats_frame
            subject s in
        elim (Result-cases (load_game games stats subject s).0) [
          | inr (x, e) ↦
              ends_in games stats gv gn sv sn games_laws stats_laws games_frame stats_frame subject
                {t = s} (ground (arith, same)) v
          | inl (o, e) ↦
              let leave = abandon games stats words set env subject o s in
              let left = abandon-Valid o s v in
              elim (Result-cases leave.0) [
                | inr (x, f) ↦
                    ends_in games stats gv gn sv sn games_laws stats_laws games_frame stats_frame
                      subject {t = leave.1} (ground (arith, same)) left
                | inl (p, f) ↦
                    ends_in games stats gv gn sv sn games_laws stats_laws games_frame stats_frame
                      subject {t = (start_fresh games stats words set env subject leave.1).1}
                      (ground (arith, same))
                      (start_fresh-IsValid games stats gv gn sv sn games_laws stats_laws games_frame
                        stats_frame subject words set env leave.1 left)
              ]
        ]

    give_up-Valid :
        (s : S) → Valid subject s → Valid subject (give_up games stats words set env subject s).1
    unfolding give_up
    give_up-Valid s v =
        let same =
          load_game-state games stats gv gn sv sn games_laws stats_laws games_frame stats_frame
            subject s in
        elim (Result-cases (load_game games stats subject s).0) [
          | inr (x, e) ↦
              ends_in games stats gv gn sv sn games_laws stats_laws games_frame stats_frame subject
                {t = s} (ground (arith, same)) v
          | inl (o, e) ↦ elim (Option-cases o) [
            | inl missing ↦
                ends_in games stats gv gn sv sn games_laws stats_laws games_frame stats_frame
                  subject {t = s} (ground (arith, same)) v
            | inr (g, present) ↦
                ends_in games stats gv gn sv sn games_laws stats_laws games_frame stats_frame
                  subject {t = (surrender games stats words set env subject g s).1}
                  (ground (arith, same))
                  (surrender-IsValid games stats gv gn sv sn games_laws stats_laws games_frame
                    stats_frame subject words set env g s
                    (loaded games stats gv gn sv sn games_laws stats_laws games_frame stats_frame
                      subject words set env s g v (e ∙ ap ok present))
                    v)
          ]
        ]

  -- For two stores that keep the contract of `DocStore` and leave each other's keys alone: whatever
  -- the outcome, a store error half-way included, the commands keep what is stored for their
  -- subject well formed: at most six guesses in a round, each scored against the target, the round
  -- marked solved exactly when the target was guessed, and in the score no more wins than rounds,
  -- no streak above the best one and no best streak above the wins.
  pub handlers-IsValid :
      (msg : Message) (s : S)
      → Valid (subject_for msg) s
      → Valid (subject_for msg) (handle_wordle games stats words set env (some msg) s).1
        × Valid (subject_for msg) (handle_new games stats words set env (some msg) s).1
        × Valid (subject_for msg) (handle_giveup games stats words set env (some msg) s).1
  unfolding guess_for handle_wordle handle_new handle_giveup
  handlers-IsValid msg s v =
      let subject = subject_for msg in
      elim (Bool-cases (text_eq subject [])) [
        | inl empty ↦ (
          ends_in games stats gv gn sv sn games_laws stats_laws games_frame stats_frame subject
              {t = s} (ground arith) v,
          ends_in games stats gv gn sv sn games_laws stats_laws games_frame stats_frame subject
              {t = s} (ground arith) v,
          ends_in games stats gv gn sv sn games_laws stats_laws games_frame stats_frame subject
              {t = s} (ground arith) v,
        )
        | inr known ↦ (
          ends_in games stats gv gn sv sn games_laws stats_laws games_frame stats_frame subject
              {t = (guess_for subject (arg_after_command msg.text) s).1} (ground arith)
              (guess_for-Valid subject (arg_after_command msg.text) s v),
          ends_in games stats gv gn sv sn games_laws stats_laws games_frame stats_frame subject
              {t = (renew games stats words set env subject s).1} (ground arith)
              (renew-Valid subject s v),
          ends_in games stats gv gn sv sn games_laws stats_laws games_frame stats_frame subject
              {t = (give_up games stats words set env subject s).1} (ground arith)
              (give_up-Valid subject s v),
        )
      ]
