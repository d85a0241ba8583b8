-- ===== src/Loldle/Handlers/Giveup.antt =====
-- Giving up.
use miti99bot.Base.{
  ℕ, ◌≡◌, refl, inl, inr, false, Option, none, some, List, [], ◌∷◌, arith, Option-cases, Text,
  text_eq, text_eq_iff, ℤ,
}
use miti99bot.Chat.{Message, subject_for}
use miti99bot.Storage.Contract.{ok, DocStore, IsDocStore, IsFramed}
use miti99bot.Storage.Program.{Result-cases}
use miti99bot.Loldle.{Champion}
use miti99bot.Loldle.Lookup.{find_champion_by_exact_name}
use miti99bot.Loldle.State.{
  GameState, Stats, game_key, bump_stats, load_game, clear_game, record_result,
}
use miti99bot.Loldle.Handlers.{Reply, no_active_round, gave_up, Env, give_up, handle_giveup}
use miti99bot.Loldle.Handlers.Account.{score_of, load_game_lem, load_game-state, finish_lem}
use miti99bot.Loldle.Handlers.Continued.{lost_score}

-- The champion that is found has the name.
find_champion_by_exact_name_lem :
    (pool : List Champion) (name : Text)
    → elim (find_champion_by_exact_name pool name) [ none ↦ name | some t ↦ t.champion_name ] ≡ name
unfolding find_champion_by_exact_name
find_champion_by_exact_name_lem [] name = refl
find_champion_by_exact_name_lem (c ∷ pool) name =
    ground (arith, text_eq_iff c.champion_name name, find_champion_by_exact_name_lem pool name)

-- What giving up makes of the score, and the reply to it, for the round that is stored
abbrev pub score_after : Option GameState → Stats → Stats
score_after none before = before
score_after (some g) before = lost_score before

abbrev pub giveup_reply : Option GameState → Reply
giveup_reply none = no_active_round
giveup_reply (some g) = gave_up g.target

module _ {S : Type 0} (games : DocStore S GameState) (stats : DocStore S Stats) (cfg : DocStore S ℤ)
    (gv : S → Text → Option GameState) (gn : S → Text → ℕ) (sv : S → Text → Option Stats)
    (sn : S → Text → ℕ) (games_laws : IsDocStore games gv gn) (stats_laws : IsDocStore stats sv sn)
    (games_frame : IsFramed games sv) (stats_frame : IsFramed stats gv) (champions : List Champion)
    (env : Env) where
  module _ (subject : Text) where
    abbrev IsGivenUp : S → Reply → S → Type 0
    IsGivenUp s r s' =
        (gv s' (game_key subject) ≡ none)
        × (score_of sv subject s' ≡ score_after (gv s (game_key subject)) (score_of sv subject s))
        × (r ≡ giveup_reply (gv s (game_key subject)))

    give_up_lem :
        (s : S) (r : Reply)
        → (give_up games stats cfg champions env subject s).0 ≡ ok r
        → IsGivenUp s r (give_up games stats cfg champions env subject s).1
    unfolding give_up bump_stats
    give_up_lem s r h = elim (Result-cases (load_game games stats cfg subject s).0) [
      | inr (x, l) ↦ absurd (ground (arith, l, h))
      | inl (o, l) ↦ elim (Option-cases o) [
        | inl missing ↦ ground (
          arith,
          l,
          missing,
          h,
          load_game_lem games stats cfg gv gn sv sn games_laws stats_laws games_frame stats_frame
              subject s o l,
          load_game-state games stats cfg gv gn sv sn games_laws stats_laws games_frame stats_frame
              subject s,
        )
        | inr (g, present) ↦ elim (Result-cases (record_result games stats cfg subject false s).0) [
          | inr (x, e) ↦ absurd (
              ground (
                arith,
                l,
                present,
                e,
                h,
                load_game-state games stats cfg gv gn sv sn games_laws stats_laws games_frame
                    stats_frame subject s,
              ))
          | inl (st, e) ↦
              let s' = (record_result games stats cfg subject false s).1 in
              elim (Result-cases (clear_game games stats cfg subject s').0) [
                | inr (x, k) ↦ absurd (
                    ground (
                      arith,
                      l,
                      present,
                      e,
                      k,
                      h,
                      load_game-state games stats cfg gv gn sv sn games_laws stats_laws games_frame
                          stats_frame subject s,
                    ))
                | inl (u, k) ↦ ground (
                  arith,
                  l,
                  present,
                  e,
                  k,
                  h,
                  load_game-state games stats cfg gv gn sv sn games_laws stats_laws games_frame
                      stats_frame subject s,
                  load_game_lem games stats cfg gv gn sv sn games_laws stats_laws games_frame
                      stats_frame subject s o l,
                  find_champion_by_exact_name_lem champions g.target,
                  finish_lem games stats cfg gv gn sv sn games_laws stats_laws games_frame
                      stats_frame subject false s st u e k,
                )
              ]
        ]
      ]
    ]

  -- For two stores of rounds and scores that keep the contract of `DocStore` and leave each
  -- other's keys alone: after a `/loldle_giveup` call from an identified subject that ends
  -- without an error no round is stored. If one was stored before, the score has one round more,
  -- which is no win and ends the streak, and the reply names its target; otherwise the score is
  -- as it was, and the reply says that no round is active.
  pub handle_giveup_lem :
      (msg : Message) (s : S) (r : Reply)
      → text_eq (subject_for msg) [] ≡ false
      → (handle_giveup games stats cfg champions env (some msg) s).0 ≡ ok r
      → let s' = (handle_giveup games stats cfg champions env (some msg) s).1 in
        let round = gv s (game_key (subject_for msg)) in
        (gv s' (game_key (subject_for msg)) ≡ none)
        × (score_of sv (subject_for msg) s' ≡ score_after round (score_of sv (subject_for msg) s))
        × (r ≡ giveup_reply round)
  unfolding handle_giveup
  handle_giveup_lem msg s r known h = ground (arith, known, h, give_up_lem (subject_for msg) s r)
