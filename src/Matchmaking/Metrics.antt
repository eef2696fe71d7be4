-- ===== src/Matchmaking/Metrics.antt =====
-- calculateMetrics and what it is made of, in matchmaking/matchmaking-algorithm.service.ts. The
-- doubles of the language are the parameter `Doubles`; sums are taken in the order of the code.
-- Players have different ids.
use inhouse_maker_core_serve.Common.{
  ℕ, ◌-◌, Bool, not, ◌&&◌, ◌||◌, Option, none, some, List, [], ◌∷◌, ◌++◌, map, if◌then◌else◌, ◌==◌,
  nat_eq, filter, find?, contains, length, take, leb, ltb, String,
}
use inhouse_maker_core_serve.Common.Sorting.{sort}
use inhouse_maker_core_serve.Model.Enums.{Position, position_eq, TeamSide}
use inhouse_maker_core_serve.Matches.Teams.{lanes}
use inhouse_maker_core_serve.Matchmaking.Roles.{AlgorithmPlayer, role_cost, for_each}

-- `literal n k` is the number n / 10 ^ k as it is written in the code.
pub record Doubles : Type 1 where
  pub Double : Type 0
  pub literal : ℕ → ℕ → Double
  pub infinity : Double
  pub plus : Double → Double → Double
  pub minus : Double → Double → Double
  pub times : Double → Double → Double
  pub divided : Double → Double → Double
  pub power : Double → Double → Double
  pub absolute : Double → Double
  pub root : Double → Double
  pub less : Double → Double → Bool
  pub same : Double → Double → Bool
  pub to_fixed : ℕ → Double → Double

-- `for (right = left + 1; …)` in a loop over `left`, with sortPair on each pair.
abbrev pub Pair : Type 0
Pair = ℕ × ℕ

abbrev pub sort_pair : ℕ → ℕ → Pair
sort_pair left right = if ltb left right then (left, right) else (right, left)

unfoldable pub build_pairs : List ℕ → List Pair
build_pairs [] = []
build_pairs (x ∷ xs) = map (sort_pair x) xs ++ build_pairs xs

module _ (d : Doubles) where
  open d use {
    Double, literal, infinity, plus, minus, times, divided, power, absolute, root, less, same,
    to_fixed,
  }

  -- AlgorithmPlayer with its powers and preferences.
  pub record RatedPlayer : Type 0 where
    pub player : AlgorithmPlayer
    pub nickname : String
    pub overall_power : Double
    pub lane_power : Position → Option Double
    pub same_team_preferences : List ℕ
    pub avoid_team_preferences : List ℕ

  -- An element of `MatchmakingCandidate['teamA']`.
  pub record Seat : Type 0 where
    pub user_id : ℕ
    pub nickname : String
    pub team_side : TeamSide
    pub assigned_role : Position
    pub role_power : Double

  -- PairHistorySummary, by the key of the pair.
  pub record PairHistory : Type 0 where
    pub pair : Pair
    pub same_team_matches : ℕ
    pub weighted_score : Double
    pub recent_match_ids : List ℕ

  -- MatchHistoryContext
  pub record HistoryContext : Type 0 where
    pub recent_window_size : ℕ
    pub matches_analyzed : ℕ
    pub pairs : List PairHistory

  pub record PenalizedPair : Type 0 where
    pub history : PairHistory
    pub penalty : Double

  -- RepeatTeamPenaltyBreakdown
  pub record RepeatPenalty : Type 0 where
    pub total_penalty : Double
    pub repeated_duo_count : ℕ
    pub penalized_pairs : List PenalizedPair

  pub record Metrics : Type 0 where
    pub team_power_gap : Double
    pub lane_matchup_gap : Double
    pub off_role_penalty : Double
    pub repeat_team_penalty : Double
    pub preference_violation_penalty : Double
    pub volatility_cluster_penalty : Double

  abbrev pub number : ℕ → Double
  number n = literal n 0

  abbrev pub sum : List Double → Double
  sum xs = for_each plus (number 0) xs

  -- sumRolePower
  abbrev pub sum_role_power : List Seat → Double
  sum_role_power team = sum (map (λ s. s.role_power) team)

  -- `team.find(player => player.assignedRole === role)?.rolePower ?? 0`
  abbrev power_at : Position → List Seat → Double
  power_at role team = elim (find? (λ s. s.assigned_role == role) team) [
    | none ↦ number 0
    | some s ↦ s.role_power
  ]

  abbrev lane_gap : List Seat → List Seat → Double
  lane_gap a b =
      divided (sum (map (λ role. absolute (minus (power_at role a) (power_at role b))) lanes))
        (number 20)

  abbrev cost_in_tenths : Option ℕ → Double
  cost_in_tenths none = infinity
  cost_in_tenths (some c) = divided (number c) (number 10)

  abbrev off_role_of : List RatedPlayer → Seat → Double
  off_role_of players s = elim (find? (λ p. p.player.user_id == s.user_id) players) [
    | none ↦ number 0
    | some p ↦ cost_in_tenths (role_cost p.player s.assigned_role)
  ]

  abbrev pub seat_ids : List Seat → List ℕ
  seat_ids team = map (λ s. s.user_id) team

  -- preferencePenalty
  abbrev violations : List ℕ → Double → RatedPlayer → Double
  violations ids total p =
      plus
        (plus total (
          times (number (length (filter (λ u. not (contains u ids)) p.same_team_preferences)))
            (literal 6 1)))
        (times (number (length (filter (λ u. contains u ids) p.avoid_team_preferences)))
          (literal 12 1))

  unfoldable pub preference_penalty : List RatedPlayer → List Seat → Double
  unfolding for_each
  preference_penalty players team = for_each (violations (seat_ids team)) (number 0) players

  -- standardDeviation
  unfoldable pub standard_deviation : List Double → Double
  unfolding for_each
  standard_deviation xs =
      let count = number (length xs) in
      let average = divided (sum xs) count in
      root (divided (sum (map (λ x. power (minus x average) (number 2)) xs)) count)

  -- `Number((weightedSameTeamScore * 1.4 + Math.max(0, sameTeamMatches - 1) * 0.9).toFixed(4))`
  abbrev pair_penalty : PairHistory → Double
  pair_penalty h = to_fixed 4 (
      plus (times h.weighted_score (literal 14 1))
        (times (number (h.same_team_matches - 1)) (literal 9 1)))

  -- One pair of a team: without a history it is skipped, and so with a penalty of 0 or less.
  abbrev penalized : List ℕ → HistoryContext → Pair → List PenalizedPair
  penalized ids context (left, right) =
      elim (find? (λ h. h.pair.0 == left && h.pair.1 == right) context.pairs) [
        | none ↦ []
        | some h ↦
            if not (contains left ids) || not (contains right ids)
            then []
            else if less (pair_penalty h) (number 0) || same (pair_penalty h) (number 0)
            then []
            else record {
              history = record h { weighted_score = to_fixed 4 h.weighted_score };
              penalty = pair_penalty h;
            }
              ∷ []
      ]

  unfoldable pub penalized_of : List ℕ → HistoryContext → List Pair → List PenalizedPair
  penalized_of ids context [] = []
  penalized_of ids context (p ∷ ps) = penalized ids context p ++ penalized_of ids context ps

  abbrev no_penalty : RepeatPenalty
  no_penalty = record { total_penalty = number 0; repeated_duo_count = 0; penalized_pairs = [] }

  -- calculateRepeatTeamPenalty, with a history.
  abbrev repeat_penalty_of : List ℕ → List ℕ → HistoryContext → RepeatPenalty
  repeat_penalty_of a b context =
      let found =
        sort (λ l r. less l.penalty r.penalty)
          (penalized_of (a ++ b) context (build_pairs a ++ build_pairs b)) in
      record {
        total_penalty = sum (map (λ x. x.penalty) found);
        repeated_duo_count = length (filter (λ x. leb 2 x.history.same_team_matches) found);
        penalized_pairs = take 6 found;
      }

  unfoldable pub repeat_penalty : List ℕ → List ℕ → Option HistoryContext → RepeatPenalty
  unfolding for_each build_pairs penalized_of sort
  repeat_penalty a b none = no_penalty
  repeat_penalty a b (some context) =
      if context.matches_analyzed == 0 then no_penalty else repeat_penalty_of a b context

  -- calculateMetrics
  unfoldable pub calculate_metrics :
      List RatedPlayer → List RatedPlayer → List Seat → List Seat → RepeatPenalty → Metrics
  unfolding for_each role_cost preference_penalty standard_deviation
  calculate_metrics players_a players_b a b repeated = record {
    team_power_gap =
        to_fixed 4 (divided (absolute (minus (sum_role_power a) (sum_role_power b))) (number 10));
    lane_matchup_gap = to_fixed 4 (lane_gap a b);
    off_role_penalty = to_fixed 4 (sum (map (off_role_of (players_a ++ players_b)) (a ++ b)));
    repeat_team_penalty = to_fixed 4 repeated.total_penalty;
    preference_violation_penalty =
        to_fixed 4 (plus (preference_penalty players_a a) (preference_penalty players_b b));
    volatility_cluster_penalty = to_fixed 4 (
        divided
          (absolute (
            minus (standard_deviation (map (λ s. s.role_power) a))
              (standard_deviation (map (λ s. s.role_power) b))))
          (number 3));
  }
