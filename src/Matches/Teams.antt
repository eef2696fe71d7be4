-- ===== src/Matches/Teams.antt =====
-- Teams: the assignments of saveManualBalance and assignCandidate, the readiness of a match for a
-- result (toResultInputState), of matches/matches.service.ts.
use inhouse_maker_core_serve.Common.{
  ℕ, Bool, false, not, ◌&&◌, Option, none, some, List, [], ◌∷◌, ◌++◌, map, if◌then◌else◌, ◌==◌,
  nat_eq, filter, all, any, length, is_some, eq_nat,
}
use inhouse_maker_core_serve.Model.Enums.{
  Position, position_eq, TeamSide, side_eq, ParticipationStatus, ResultStatus, result_eq,
}
use inhouse_maker_core_serve.Model.Rows.{Match, MatchPlayer, MatchResult, Assignment}

-- The five lanes that a team has to fill.
abbrev pub lanes : List Position
lanes = Position.top ∷ Position.jungle ∷ Position.mid ∷ Position.adc ∷ Position.support ∷ []

abbrev seat : Assignment → MatchPlayer → MatchPlayer
seat a p = record p {
  team_side = some a.team_side;
  assigned_role = some a.assigned_role;
  participation_status = ParticipationStatus.locked_in;
}

-- `update` where the match and the user fit: no row is an error, and the transaction rolls back.
unfoldable pub seat_one : Assignment → List MatchPlayer → Option (List MatchPlayer)
seat_one a [] = none
seat_one a (p ∷ ps) =
    if p.user_id == a.user_id
    then some (seat a p ∷ ps)
    else elim (seat_one a ps) [ none ↦ none | some qs ↦ some (p ∷ qs) ]

unfoldable pub seat_all : List Assignment → List MatchPlayer → Option (List MatchPlayer)
unfolding seat_one
seat_all [] ps = some ps
seat_all (a ∷ rest) ps = elim (seat_one a ps) [ none ↦ none | some qs ↦ seat_all rest qs ]

-- ManualBalancePlayerDto and SaveManualBalanceDto
pub record ManualPlayer : Type 0 where
  pub user_id : ℕ
  pub assigned_role : Position

pub record ManualBalance : Type 0 where
  pub blue_team : List ManualPlayer
  pub red_team : List ManualPlayer

abbrev on_side : TeamSide → ManualPlayer → Assignment
on_side side p = record { user_id = p.user_id; team_side = side; assigned_role = p.assigned_role }

unfoldable pub assignments : ManualBalance → List Assignment
assignments d =
    map (on_side TeamSide.team_a) d.blue_team ++ map (on_side TeamSide.team_b) d.red_team

abbrev pub on_team : TeamSide → MatchPlayer → Bool
on_team side p = elim p.team_side [ none ↦ false | some s ↦ s == side ]

abbrev pub in_lane : Position → MatchPlayer → Bool
in_lane lane p = elim p.assigned_role [ none ↦ false | some r ↦ r == lane ]

abbrev pub is_assigned : MatchPlayer → Bool
is_assigned p = is_some p.team_side && is_some p.assigned_role

-- Five assigned players on the side, and a player of the side in each lane.
unfoldable pub has_lane_targets : List MatchPlayer → TeamSide → Bool
has_lane_targets assigned side =
    let team = filter (on_team side) assigned in
    eq_nat (length team) 5 && all (λ lane. any (in_lane lane) team) lanes

pub data InputBlock : Type 0 where
  player_count_not_10 team_or_role_missing lane_targets_incomplete : InputBlock
  result_already_finalized : InputBlock

abbrev pub is_finalized : Option MatchResult → Bool
is_finalized none = false
is_finalized (some r) = r.result_status == ResultStatus.confirmed

-- `resultInputBlockedReason` of toResultInputState; `canSubmitResult` says that it is null.
unfoldable pub result_input_blocked : Match → Option InputBlock
unfolding has_lane_targets
result_input_blocked m =
    let assigned = filter is_assigned m.players in
    if not (eq_nat (length m.players) 10)
    then some InputBlock.player_count_not_10
    else if not (eq_nat (length assigned) (length m.players))
    then some InputBlock.team_or_role_missing
    else if not (all (has_lane_targets assigned) (TeamSide.team_a ∷ TeamSide.team_b ∷ []))
    then some InputBlock.lane_targets_incomplete
    else if is_finalized m.result
    then some InputBlock.result_already_finalized
    else none

unfoldable pub can_submit_result : Match → Bool
unfolding result_input_blocked
can_submit_result m = not (is_some (result_input_blocked m))
