-- ===== src/Model/Rows.antt =====
-- The rows of prisma/schema.prisma that belong to a match: InhouseMatch with its players, its
-- result (unique per match) with the result's confirmations, and its player stats.
-- Ids are cuid texts that the code only compares, so they are numbers; so are times, in
-- milliseconds. A player's snapshot keeps the fields that the code reads back from the JSON.
use inhouse_maker_core_serve.Common.{ℕ, String, Bool, Option, List}
use inhouse_maker_core_serve.Model.Enums.{
  Position, MatchStatus, TeamSide, ResultStatus, InputMode, ParticipationStatus, LaneResult,
  ConfirmationAction, BalanceMode,
}

-- A value inside a JSON object; only texts are looked at.
pub data JsonValue : Type 0 where
  text : String → JsonValue
  other : JsonValue

abbrev pub JsonObject : Type 0
JsonObject = List (String × JsonValue)

pub record Snapshot : Type 0 where
  pub primary_position : Option Position
  pub secondary_position : Option Position
  pub is_fill_available : Bool
  pub overall_power : ℕ

pub record MatchPlayer : Type 0 where
  pub id : ℕ
  pub user_id : ℕ
  pub riot_account_id : Option ℕ
  pub team_side : Option TeamSide
  pub assigned_role : Option Position
  pub position_pref_snapshot : Option Snapshot
  pub same_team_preferences : List ℕ
  pub avoid_team_preferences : List ℕ
  pub participation_status : ParticipationStatus
  pub is_captain : Bool

pub record Confirmation : Type 0 where
  pub user_id : ℕ
  pub result_version : ℕ
  pub action : ConfirmationAction
  pub diff : Option JsonObject
  pub proposed_winning_team : Option TeamSide
  pub comment : Option String
  pub created_at : ℕ

-- QuickResultPlayerDto of results/dto/results.dto.ts
pub record QuickResultPlayer : Type 0 where
  pub user_id : ℕ
  pub kills : ℕ
  pub deaths : ℕ
  pub assists : ℕ
  pub lane_result : LaneResult
  pub contribution_rating : Option ℕ

-- The JSON kept with a result. `players` is absent where the payload began as null.
pub record Payload : Type 0 where
  pub winning_team : TeamSide
  pub mvp_user_id : Option ℕ
  pub balance_rating : Option ℕ
  pub players : Option (List QuickResultPlayer)

pub record MatchResult : Type 0 where
  pub id : ℕ
  pub winning_team : Option TeamSide
  pub mvp_user_id : Option ℕ
  pub balance_rating : Option ℕ
  pub result_status : ResultStatus
  pub input_mode : InputMode
  pub submitted_by : ℕ
  pub confirmed_at : Option ℕ
  pub payload : Option Payload
  pub idempotency_key : Option String
  pub admin_resolved_by : Option ℕ
  pub admin_resolution_note : Option String
  pub admin_resolved_at : Option ℕ
  pub version : ℕ
  pub updated_at : ℕ
  pub confirmations : List Confirmation

pub record PlayerStat : Type 0 where
  pub user_id : ℕ
  pub team_side : TeamSide
  pub role : Position
  pub kills : ℕ
  pub deaths : ℕ
  pub assists : ℕ
  pub lane_result : LaneResult
  pub contribution_rating : Option ℕ
  pub stat_status : ResultStatus

-- A player's place in a stored candidate or in a manual balance.
pub record Assignment : Type 0 where
  pub user_id : ℕ
  pub team_side : TeamSide
  pub assigned_role : Position

-- What is read back of an entry of `candidatesJson`.
pub record StoredCandidate : Type 0 where
  pub candidate_no : ℕ
  pub mode : BalanceMode
  pub candidate_id : Option String
  pub combination_key : Option String
  pub team_a : List Assignment
  pub team_b : List Assignment

pub record Match : Type 0 where
  pub id : ℕ
  pub group_id : ℕ
  pub created_by : ℕ
  pub title : Option String
  pub notes : Option String
  pub status : MatchStatus
  pub scheduled_at : Option ℕ
  pub created_at : ℕ
  pub balance_mode : Option BalanceMode
  pub selected_candidate_no : Option ℕ
  pub candidates : Option (List StoredCandidate)
  pub players : List MatchPlayer
  pub result : Option MatchResult
  pub stats : List PlayerStat
