-- ===== src/Wordle/Handlers/Rounds.antt =====
-- What a command does to the number of rounds counted in the score and the number open.
use miti99bot.Base.{ℕ, ◌+◌, ◌≡◌, inl, inr, false, Option, some, List, [], arith, Text, text_eq}
use miti99bot.Chat.{Message, subject_for}
use miti99bot.Storage.Contract.{ok, DocStore, IsDocStore, IsFramed}
use miti99bot.Storage.Program.{Result-cases}
use miti99bot.Wordle.State.{GameState, Stats, load_game}
use miti99bot.Wordle.Handlers.{Reply, Env, start_fresh, abandon, renew, handle_new}
use miti99bot.Wordle.Handlers.Account.{
  score_of, open_rounds, load_game_lem, load_game-state, start_fresh_lem, abandon_lem,
}

module _ {S : Type 0} (games : DocStore S GameState) (stats : DocStore S Stats)
    (gv : S → Text → Option GameState) (gn : S → Text → ℕ) (sv : S → Text → Option Stats)
    (sn : S → Text → ℕ) (games_laws : IsDocStore games gv gn) (stats_laws : IsDocStore stats sv sn)
    (games_frame : IsFramed games sv) (stats_frame : IsFramed stats gv) (words set : List Text)
    (env : Env) where
  -- For two stores that keep the contract of `DocStore` and leave each other's keys alone: a
  -- `/wordle_new` call from an identified subject that ends without an error adds exactly one to
  -- the rounds counted and open together: the new round, while a prior open round becomes counted.
  -- After it exactly one round is open.
  pub handle_new_account :
      (msg : Message) (s : S) (r : Reply)
      → text_eq (subject_for msg) [] ≡ false
      → (handle_new games stats words set env (some msg) s).0 ≡ ok r
      → let subject = subject_for msg in
        let s' = (handle_new games stats words set env (some msg) s).1 in
        ((score_of sv subject s').played
          ≡ (score_of sv subject s).played + open_rounds gv subject s)
        × (open_rounds gv subject s' ≡ 1)
  unfolding handle_new renew
  handle_new_account msg s r known h =
      let subject = subject_for msg in
      elim (Result-cases (load_game games stats subject s).0) [
        | inr (x, e) ↦ ground arith
        | inl (o, e) ↦
            let leave = abandon games stats words set env subject o s in
            elim (Result-cases leave.0) [
              | inr (x, f) ↦ ground (
                arith,
                load_game-state games stats gv gn sv sn games_laws stats_laws games_frame
                    stats_frame subject s,
              )
              | inl (p, f) ↦
                  elim (Result-cases (start_fresh games stats words set env subject leave.1).0) [
                    | inr (x, k) ↦ ground (
                      arith,
                      load_game-state games stats gv gn sv sn games_laws stats_laws games_frame
                          stats_frame subject s,
                    )
                    | inl (g, k) ↦ ground (
                      arith,
                      load_game-state games stats gv gn sv sn games_laws stats_laws games_frame
                          stats_frame subject s,
                      load_game_lem games stats gv gn sv sn games_laws stats_laws games_frame
                          stats_frame subject s o e,
                      abandon_lem games stats gv gn sv sn games_laws stats_laws games_frame
                          stats_frame subject words set env o s p,
                      start_fresh_lem games stats gv gn sv sn games_laws stats_laws games_frame
                          stats_frame subject words set env leave.1 g k,
                    )
                  ]
            ]
      ]
