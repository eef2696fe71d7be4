-- ===== src/Examples/Data.antt =====
-- A group with a system admin, ten members and no match yet; what is sent to the service.
use inhouse_maker_core_serve.Common.{ℕ, ◌+◌, true, false, none, some, List, [], ◌∷◌, map, String}
use inhouse_maker_core_serve.Model.Enums.{
  Position, TeamSide, GroupRole, LaneResult, ConfirmationAction,
}
use inhouse_maker_core_serve.Model.Rows.{QuickResultPlayer, Confirmation}
use inhouse_maker_core_serve.Model.Kinds.{GroupVisibility, JoinPolicy, UserStatus}
use inhouse_maker_core_serve.Model.World.{World, User, GroupMember, Group}
use inhouse_maker_core_serve.Matches.Roster.{PlayerInput}
use inhouse_maker_core_serve.Matches.Teams.{ManualBalance, ManualPlayer}
use inhouse_maker_core_serve.Matches.Handlers.{MatchInput}
use inhouse_maker_core_serve.Results.Input.{QuickResult}
use inhouse_maker_core_serve.Results.Rows.{Resolution}
use inhouse_maker_core_serve.Results.Handlers.{ConfirmInput}

abbrev pub player_ids : List ℕ
player_ids = 1 ∷ 2 ∷ 3 ∷ 4 ∷ 5 ∷ 6 ∷ 7 ∷ 8 ∷ 9 ∷ 10 ∷ []

abbrev pub some_user : ℕ → User
some_user u = record {
  id = u;
  is_admin = false;
  email = "";
  nickname = "";
  refresh_token_hash = none;
  status = UserStatus.active;
  primary_position = some Position.mid;
  secondary_position = none;
  is_fill_available = true;
  overall_power = none;
  profile_image_url = none;
  style_tags = none;
  manner_score = 100;
  noshow_count = 0;
  terms_agreed_at = none;
  privacy_agreed_at = none;
  marketing_opt_in_at = none;
  withdrawn_at = none;
}

abbrev some_member : ℕ → GroupMember
some_member u = record { group_id = 30; user_id = u; role = GroupRole.member }

abbrev some_group : Group
some_group = record {
  id = 30;
  owner_user_id = 20;
  name = "Sunday games";
  region = none;
  description = none;
  visibility = GroupVisibility.private_group;
  join_policy = JoinPolicy.invite_only;
  tags = none;
  archived_at = none;
}

abbrev pub no_matches : World
no_matches = record {
  matches = [];
  groups = some_group ∷ [];
  identities = [];
  riot_accounts = [];
  match_summaries = [];
  stored_urls = [];
  posts = [];
  blocks = [];
  reports = [];
  members =
      record { group_id = 30; user_id = 20; role = GroupRole.owner } ∷ map some_member player_ids;
  users = record (some_user 20) { is_admin = true } ∷ map some_user player_ids;
  audit_log = [];
  notifications = [];
  jobs = [];
  now = 1000;
  next_id = 100;
}

abbrev pub plain_match : MatchInput
plain_match = record { title = none; notes = none; scheduled_at = none }

abbrev joins : ℕ → PlayerInput
joins u = record {
  user_id = u;
  riot_account_id = none;
  participation_status = none;
  same_team_preferences = none;
  avoid_team_preferences = none;
  is_captain = none;
}

abbrev leads : ℕ → PlayerInput
leads u = record (joins u) { is_captain = some true }

abbrev pub ten_players : List PlayerInput
ten_players =
    leads 1
    ∷ joins 2
    ∷ joins 3
    ∷ joins 4
    ∷ joins 5
    ∷ leads 6
    ∷ joins 7
    ∷ joins 8
    ∷ joins 9
    ∷ joins 10
    ∷ []

abbrev plays : ℕ → Position → ManualPlayer
plays u role = record { user_id = u; assigned_role = role }

abbrev five : ℕ → List ManualPlayer
five u =
    plays u Position.top
    ∷ plays (u + 1) Position.jungle
    ∷ plays (u + 2) Position.mid
    ∷ plays (u + 3) Position.adc
    ∷ plays (u + 4) Position.support
    ∷ []

abbrev pub two_teams : ManualBalance
two_teams = record { blue_team = five 1; red_team = five 6 }

abbrev line : ℕ → QuickResultPlayer
line u = record {
  user_id = u;
  kills = 3;
  deaths = 2;
  assists = 5;
  lane_result = LaneResult.even;
  contribution_rating = none;
}

abbrev pub team_a_won : QuickResult
team_a_won = record {
  winning_team = TeamSide.team_a;
  mvp_user_id = 3;
  balance_rating = none;
  balance_feeling = some 4;
  players = map line player_ids;
}

abbrev pub first_key : String
first_key = "key-1"

abbrev pub yes_sir : ConfirmInput
yes_sir = record { action = ConfirmationAction.confirm; diff = none; comment = none }

abbrev pub contradicts : ConfirmInput
contradicts = record { action = ConfirmationAction.dispute; diff = none; comment = none }

abbrev pub in_favour_of_a : Resolution
in_favour_of_a = record {
  winning_team = TeamSide.team_a;
  mvp_user_id = none;
  balance_rating = none;
  balance_feeling = none;
  note = "checked";
}

abbrev pub says : ℕ → ConfirmationAction → ℕ → Confirmation
says u action at_time = record {
  user_id = u;
  result_version = 1;
  action = action;
  diff = none;
  proposed_winning_team = none;
  comment = none;
  created_at = at_time;
}
