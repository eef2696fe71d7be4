-- ===== src/Matchmaking/History.antt =====
-- buildMatchHistoryContext of matchmaking/matchmaking.service.ts: who played in one team lately.
use inhouse_maker_core_serve.Common.{
  ℕ, ◌+◌, Bool, true, false, not, ◌&&◌, ◌||◌, Option, none, some, List, [], ◌∷◌, ◌++◌, map,
  eq_option, if◌then◌else◌, ◌==◌, nat_eq, filter, contains, length, take, ltb, any, is_some,
  change_first,
}
use inhouse_maker_core_serve.Common.Sorting.{sort}
use inhouse_maker_core_serve.Model.Enums.{
  TeamSide, side_eq, MatchStatus, status_eq, ResultStatus, result_eq,
}
use inhouse_maker_core_serve.Model.Rows.{Match, MatchResult}
use inhouse_maker_core_serve.Model.World.{World}
use inhouse_maker_core_serve.Matchmaking.Roles.{for_each}
use inhouse_maker_core_serve.Matchmaking.Metrics.{
  Doubles, Pair, build_pairs, PairHistory, HistoryContext, number,
}

abbrev has_confirmed_result : Option MatchResult → Bool
has_confirmed_result none = false
has_confirmed_result (some r) = r.result_status == ResultStatus.confirmed

-- The `where` of the query.
abbrev is_recent : ℕ → ℕ → List ℕ → Match → Bool
is_recent group k users m =
    m.group_id == group
    && not (m.id == k)
    && (m.status == MatchStatus.confirmed || m.status == MatchStatus.closed)
    && has_confirmed_result m.result
    && any (λ p. contains p.user_id users && is_some p.team_side) m.players

-- A descending order of times puts missing ones first.
abbrev is_before : Option ℕ → Option ℕ → Bool
is_before none r = false
is_before (some x) none = true
is_before (some x) (some y) = ltb x y

abbrev is_older_match : Match → Match → Bool
is_older_match l r =
    if is_before l.scheduled_at r.scheduled_at
    then true
    else if is_before r.scheduled_at l.scheduled_at
    then false
    else ltb l.created_at r.created_at

-- `recentHistoryWindow`
abbrev pub recent_history_window : ℕ
recent_history_window = 8

unfoldable pub recent_matches : ℕ → ℕ → List ℕ → World → List Match
unfolding sort
recent_matches group k users w =
    take recent_history_window (sort is_older_match (filter (is_recent group k users) w.matches))

-- The players on a side who are in the current match too, in pairs.
abbrev pairs_on : List ℕ → Match → TeamSide → List Pair
pairs_on users m side = build_pairs (
    map (λ p. p.user_id)
      (filter (λ p. eq_option p.team_side (some side) && contains p.user_id users) m.players))

module _ (d : Doubles) where
  open d use {Double, literal, plus, minus, times, less}

  -- `Math.max(0.35, 1.35 - index * 0.15)`
  abbrev recency_weight : ℕ → Double
  recency_weight index =
      let weight = minus (literal 135 2) (times (number d index) (literal 15 2)) in
      if less (literal 35 2) weight then weight else literal 35 2

  abbrev is_pair : Pair → PairHistory d → Bool
  is_pair pair h = h.pair.0 == pair.0 && h.pair.1 == pair.1

  abbrev new_pair : Pair → PairHistory d
  new_pair pair = record {
    pair = pair;
    same_team_matches = 0;
    weighted_score = number d 0;
    recent_match_ids = [];
  }

  abbrev recorded : Double → ℕ → PairHistory d → PairHistory d
  recorded weight k h = record h {
    same_team_matches = h.same_team_matches + 1;
    weighted_score = plus h.weighted_score weight;
    recent_match_ids = take 5 (h.recent_match_ids ++ k ∷ []);
  }

  unfoldable pub record_pair : Double → ℕ → List (PairHistory d) → Pair → List (PairHistory d)
  record_pair weight k hs pair =
      if any (is_pair pair) hs
      then change_first (is_pair pair) (recorded weight k) hs
      else hs ++ recorded weight k (new_pair pair) ∷ []

  -- The body of `recentMatches.forEach`.
  unfoldable pub record_match : List ℕ → ℕ → Match → List (PairHistory d) → List (PairHistory d)
  unfolding for_each record_pair build_pairs
  record_match users index m hs =
      for_each (record_pair (recency_weight index) m.id) hs
        (pairs_on users m TeamSide.team_a ++ pairs_on users m TeamSide.team_b)

  unfoldable pub record_matches :
      List ℕ → ℕ → List Match → List (PairHistory d) → List (PairHistory d)
  unfolding record_match
  record_matches users index [] hs = hs
  record_matches users index (m ∷ ms) hs =
      record_matches users (index + 1) ms (record_match users index m hs)

  unfoldable pub build_match_history_context : ℕ → ℕ → List ℕ → World → HistoryContext d
  unfolding recent_matches record_matches
  build_match_history_context group k users w =
      let recent = recent_matches group k users w in
      record {
        recent_window_size = recent_history_window;
        matches_analyzed = length recent;
        pairs = record_matches users 0 recent [];
      }
