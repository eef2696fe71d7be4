-- ===== src/Matchmaking/Splits.antt =====
-- The loop over the combinations in generateCandidates of matchmaking/matchmaking-algorithm.service.ts:
-- the splits of the players into two teams with their roles and metrics.
use inhouse_maker_core_serve.Common.{
  ℕ, ◌+◌, not, Option, none, some, List, [], ◌∷◌, ◌++◌, map, if◌then◌else◌, ◌==◌, nat_eq, string_eq,
  filter, find?, contains, length, get_elem?, or_else,
}
use inhouse_maker_core_serve.Model.Enums.{TeamSide}
use inhouse_maker_core_serve.Matchmaking.Roles.{
  RoleSeat, RoleAssignment, respects_locked_teams, find_best_role_assignment, for_each,
}
use inhouse_maker_core_serve.Matchmaking.Combinations.{build_combinations}
use inhouse_maker_core_serve.Matchmaking.Metrics.{
  Doubles, RatedPlayer, Seat, HistoryContext, RepeatPenalty, Metrics, sum_role_power, seat_ids,
  repeat_penalty, calculate_metrics,
}

module _ (d : Doubles) where
  open d use {Double}

  -- An element of `splitCandidates`.
  pub record Split : Type 0 where
    pub team_a : List (Seat d)
    pub team_b : List (Seat d)
    pub metrics : Metrics d
    pub repeated : RepeatPenalty d
    pub team_a_power : Double
    pub team_b_power : Double
    pub off_role_count : ℕ

  -- `teamAIndices.map(index => players[index])`
  unfoldable pub picked : List (RatedPlayer d) → List ℕ → List (RatedPlayer d)
  picked players [] = []
  picked players (i ∷ is) = elim (get_elem? players i) [
    | none ↦ picked players is
    | some p ↦ p ∷ picked players is
  ]

  -- `players.filter((_, index) => !teamAIndices.includes(index))`
  unfoldable pub others : ℕ → List (RatedPlayer d) → List ℕ → List (RatedPlayer d)
  others i [] is = []
  others i (p ∷ ps) is = let rest = others (i + 1) ps is in if contains i is then rest else p ∷ rest

  -- The seat with what the search carries along: the nickname, and `lanePower[role] ?? overallPower`.
  abbrev pub rated_seat : RoleSeat → Option (RatedPlayer d) → List (Seat d)
  rated_seat s none = []
  rated_seat s (some p) =
      record {
        user_id = s.user_id;
        nickname = p.nickname;
        team_side = s.team_side;
        assigned_role = s.assigned_role;
        role_power = or_else (p.lane_power s.assigned_role) p.overall_power;
      }
      ∷ []

  unfoldable pub rated_seats : List (RatedPlayer d) → List RoleSeat → List (Seat d)
  rated_seats players [] = []
  rated_seats players (s ∷ ss) =
      rated_seat s (find? (λ p. p.player.user_id == s.user_id) players) ++ rated_seats players ss

  abbrev pub best_assignment : List (RatedPlayer d) → TeamSide → Option RoleAssignment
  best_assignment players side = find_best_role_assignment (map (λ p. p.player) players) side

  -- What is pushed for two teams with their assignments.
  unfoldable pub evaluated :
      Option (HistoryContext d)
      → List (RatedPlayer d)
      → List (RatedPlayer d)
      → RoleAssignment
      → RoleAssignment
      → Split
  unfolding rated_seats calculate_metrics repeat_penalty for_each
  evaluated history players_a players_b assigned_a assigned_b =
      let a = rated_seats players_a assigned_a.assignments in
      let b = rated_seats players_b assigned_b.assignments in
      let repeated = repeat_penalty d (seat_ids d a) (seat_ids d b) history in
      record {
        team_a = a;
        team_b = b;
        metrics = calculate_metrics d players_a players_b a b repeated;
        repeated = repeated;
        team_a_power = sum_role_power d a;
        team_b_power = sum_role_power d b;
        off_role_count = assigned_a.off_role_count + assigned_b.off_role_count;
      }

  -- One turn of the loop over the combinations: the split that it pushes, if any.
  abbrev pub both_assigned :
      Option (HistoryContext d)
      → List (RatedPlayer d)
      → List (RatedPlayer d)
      → Option RoleAssignment
      → Option RoleAssignment
      → List Split
  both_assigned history a b (some assigned_a) (some assigned_b) =
      evaluated history a b assigned_a assigned_b ∷ []
  both_assigned history a b _ _ = []

  unfoldable pub split_of :
      Option (HistoryContext d) → List (RatedPlayer d) → List (RatedPlayer d) → List Split
  split_of history a b =
      if not (respects_locked_teams (map (λ p. p.player) a) (map (λ p. p.player) b))
      then []
      else both_assigned history a b (best_assignment a TeamSide.team_a)
          (best_assignment b TeamSide.team_b)

  unfoldable pub splits_of :
      Option (HistoryContext d) → List (RatedPlayer d) → List (List ℕ) → List Split
  splits_of history players [] = []
  splits_of history players (is ∷ rest) =
      split_of history (picked players is) (others 0 players is) ++ splits_of history players rest

  unfoldable pub split_candidates : Option (HistoryContext d) → List (RatedPlayer d) → List Split
  split_candidates history players =
      splits_of history players
        (filter (λ is. contains 0 is) (build_combinations (length players) 5))
