-- ===== src/Matchmaking/Handlers.antt =====
-- autoBalance and reroll of matchmaking/matchmaking.service.ts.
use inhouse_maker_core_serve.Common.{ℕ, none, List, [], String, map}
use inhouse_maker_core_serve.Model.Outcome.{AppErrorCode}
use inhouse_maker_core_serve.Model.Action.{Action, ◌>>=◌, ◌>>◌, check, pure, save_match}
use inhouse_maker_core_serve.Matches.Access.{assert_host_or_captain, match_with_players}
use inhouse_maker_core_serve.Matchmaking.Metrics.{Doubles}
use inhouse_maker_core_serve.Matchmaking.Candidates.{KeyTexts, CandidateOptions, Candidate}
use inhouse_maker_core_serve.Matchmaking.Service.{
  balanced_rows, Reroll, reroll_options, PowerEntry, stored_candidate, candidates_ready,
}

module _ (d : Doubles) (texts : KeyTexts) (powers : List (PowerEntry d)) where
  unfoldable pub generate_and_persist : ℕ → List ℕ → CandidateOptions → Action (List (Candidate d))
  unfolding candidates_ready
  generate_and_persist k locked options = do
    (m, cs, first) ← check (candidates_ready d texts powers k locked options)
    save_match (balanced_rows first.mode (map (stored_candidate d) cs) m)
    pure cs

  unfoldable pub auto_balance : ℕ → ℕ → List ℕ → List String → Action (List (Candidate d))
  unfolding generate_and_persist assert_host_or_captain
  auto_balance user k locked keys = do
    allowed ← check (assert_host_or_captain k user AppErrorCode.forbidden)
    generate_and_persist k locked (record {
      excluded_candidate_ids = [];
      excluded_combination_keys = keys;
      tiebreak_seed = none;
    })

  unfoldable pub reroll : ℕ → ℕ → Reroll → Action (List (Candidate d))
  unfolding generate_and_persist assert_host_or_captain match_with_players
  reroll user k r = do
    allowed ← check (assert_host_or_captain k user AppErrorCode.forbidden)
    m ← check (match_with_players k)
    generate_and_persist k r.locked_player_ids (reroll_options r m)
