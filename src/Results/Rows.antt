-- ===== src/Results/Rows.antt =====
-- The writes of results/results.service.ts, as changes of a match with its result and stats.
use inhouse_maker_core_serve.Common.{
  ℕ, ◌+◌, Bool, not, ◌&&◌, ◌||◌, Option, none, some, List, [], ◌∷◌, ◌++◌, map, any, ◌==◌, nat_eq,
  string_eq, eq_option, filter, length, if◌then◌else◌, is_some, String,
}
use inhouse_maker_core_serve.Model.Enums.{
  MatchStatus, TeamSide, side_eq, ResultStatus, result_eq, InputMode, action_eq, Position,
}
use inhouse_maker_core_serve.Model.Rows.{
  Match, MatchPlayer, MatchResult, PlayerStat, Confirmation, QuickResultPlayer, Payload, JsonObject,
  JsonValue,
}
use inhouse_maker_core_serve.Results.Input.{QuickResult}
use inhouse_maker_core_serve.Results.Policy.{evaluate}
use inhouse_maker_core_serve.Matches.Access.{has_joined, find_player}

-- `undefined` in an update leaves the column alone.
abbrev keep_or : {A : Type 0} → Option A → Option A → Option A
keep_or none old = old
keep_or (some x) old = some x

abbrev quick_payload : QuickResult → ℕ → Payload
quick_payload d balance = record {
  winning_team = d.winning_team;
  mvp_user_id = some d.mvp_user_id;
  balance_rating = some balance;
  players = some d.players;
}

-- The result that submitQuickResult updates, or creates where there is none.
unfoldable pub saved_result :
    ℕ → ℕ → ℕ → QuickResult → ℕ → Option String → Option MatchResult → MatchResult
saved_result fresh now user d balance key (some r) = record r {
  winning_team = some d.winning_team;
  mvp_user_id = some d.mvp_user_id;
  balance_rating = some balance;
  input_mode = InputMode.quick;
  submitted_by = user;
  result_status = ResultStatus.partial;
  payload = some (quick_payload d balance);
  idempotency_key = keep_or key r.idempotency_key;
  version = r.version + 1;
  updated_at = now;
}
saved_result fresh now user d balance key none = record {
  id = fresh;
  winning_team = some d.winning_team;
  mvp_user_id = some d.mvp_user_id;
  balance_rating = some balance;
  result_status = ResultStatus.partial;
  input_mode = InputMode.quick;
  submitted_by = user;
  confirmed_at = none;
  payload = some (quick_payload d balance);
  idempotency_key = key;
  admin_resolved_by = none;
  admin_resolution_note = none;
  admin_resolved_at = none;
  version = 1;
  updated_at = now;
  confirmations = [];
}

abbrev pub created_stat : TeamSide → Position → QuickResultPlayer → PlayerStat
created_stat side role p = record {
  user_id = p.user_id;
  team_side = side;
  role = role;
  kills = p.kills;
  deaths = p.deaths;
  assists = p.assists;
  lane_result = p.lane_result;
  contribution_rating = p.contribution_rating;
  stat_status = ResultStatus.partial;
}

abbrev pub updated_stat : PlayerStat → PlayerStat → PlayerStat
updated_stat old new = record new {
  contribution_rating = keep_or new.contribution_rating old.contribution_rating;
}

abbrev pub same_user : PlayerStat → PlayerStat → Bool
same_user new s = s.user_id == new.user_id

-- `upsert` on match and user: the row with this user is updated, or one is created.
unfoldable pub upsert_stat : PlayerStat → List PlayerStat → List PlayerStat
upsert_stat new ss =
    if any (same_user new) ss
    then map (λ s. if same_user new s then updated_stat s new else s) ss
    else ss ++ new ∷ []

-- The stats of one player of the input; `none` is the exception for a missing team or role.
abbrev pub seated : Option MatchPlayer → Option (TeamSide × Position)
seated none = none
seated (some p) = elim p.team_side [
  | none ↦ none
  | some side ↦ elim p.assigned_role [ none ↦ none | some role ↦ some (side, role) ]
]

abbrev pub put_stat :
    QuickResultPlayer → List PlayerStat → Option (TeamSide × Position) → Option (List PlayerStat)
put_stat p ss none = none
put_stat p ss (some (side, role)) = some (upsert_stat (created_stat side role p) ss)

unfoldable pub upsert_all :
    Match → List QuickResultPlayer → List PlayerStat → Option (List PlayerStat)
unfolding upsert_stat
upsert_all m [] ss = some ss
upsert_all m (p ∷ ps) ss = elim (put_stat p ss (seated (find_player p.user_id m))) [
  | none ↦ none
  | some ss' ↦ upsert_all m ps ss'
]

abbrev pub submitted_rows : Match → MatchResult → List PlayerStat → Match
submitted_rows m r ss = record m {
  result = some r;
  stats = ss;
  status = MatchStatus.result_pending;
}

-- extractProposedWinningTeam
abbrev side_of_text : Option JsonValue → Option TeamSide
side_of_text none = none
side_of_text (some JsonValue.other) = none
side_of_text (some (JsonValue.text s)) =
    if s == "A" then some TeamSide.team_a else if s == "B" then some TeamSide.team_b else none

unfoldable pub json_field : String → JsonObject → Option JsonValue
json_field k [] = none
json_field k ((j, v) ∷ o) = if j == k then some v else json_field k o

unfoldable pub proposed_winning_team : Option JsonObject → Option TeamSide
unfolding json_field
proposed_winning_team none = none
proposed_winning_team (some diff) = side_of_text (json_field "winningTeam" diff)

abbrev pub with_stat_status : ResultStatus → PlayerStat → PlayerStat
with_stat_status s t = record t { stat_status = s }

abbrev pub match_status_of : ResultStatus → MatchStatus
match_status_of ResultStatus.confirmed = MatchStatus.confirmed
match_status_of ResultStatus.disputed = MatchStatus.disputed
match_status_of ResultStatus.partial = MatchStatus.result_pending

-- The verdict that finalizeResultStatus writes: on the confirmations of the current version.
abbrev pub current_confirmations : MatchResult → List Confirmation
current_confirmations r = filter (λ c. c.result_version == r.version) r.confirmations

abbrev pub participants : Match → List MatchPlayer
participants m = filter has_joined m.players

abbrev pub captains : Match → List ℕ
captains m = map (λ p. p.user_id) (filter (λ p. p.is_captain) m.players)

unfoldable pub verdict : Match → MatchResult → ResultStatus
verdict m r =
    evaluate (length (participants m)) (captains m) r.winning_team (current_confirmations r)

abbrev pub confirmed_time : ResultStatus → ℕ → Option ℕ
confirmed_time ResultStatus.confirmed now = some now
confirmed_time _ now = none

abbrev pub finalized_result : ResultStatus → ℕ → MatchResult → MatchResult
finalized_result s now r = record r {
  result_status = s;
  confirmed_at = confirmed_time s now;
  updated_at = now;
}

-- The transaction of finalizeResultStatus.
unfoldable pub finalized_rows : ResultStatus → ℕ → Match → MatchResult → Match
finalized_rows s now m r = record m {
  result = some (finalized_result s now r);
  stats = map (with_stat_status s) m.stats;
  status = match_status_of s;
}

-- AdminResolveResultDto
pub record Resolution : Type 0 where
  pub winning_team : TeamSide
  pub mvp_user_id : Option ℕ
  pub balance_rating : Option ℕ
  pub balance_feeling : Option ℕ
  pub note : String

-- `factualChange` of adminResolveDispute
unfoldable pub is_factual_change : MatchResult → Resolution → Option ℕ → Bool
is_factual_change r d balance =
    not (eq_option r.winning_team (some d.winning_team))
    || is_some d.mvp_user_id && not (eq_option d.mvp_user_id r.mvp_user_id)
    || is_some balance && not (eq_option balance r.balance_rating)

unfoldable pub resolved_result : ℕ → ℕ → Resolution → Option ℕ → MatchResult → MatchResult
unfolding is_factual_change
resolved_result now user d balance r = record r {
  winning_team = some d.winning_team;
  mvp_user_id = keep_or d.mvp_user_id r.mvp_user_id;
  balance_rating = keep_or balance r.balance_rating;
  payload = some (record {
    winning_team = d.winning_team;
    mvp_user_id = keep_or d.mvp_user_id r.mvp_user_id;
    balance_rating = keep_or balance r.balance_rating;
    players = elim r.payload [ none ↦ none | some p ↦ p.players ];
  });
  result_status = ResultStatus.confirmed;
  confirmed_at = some now;
  admin_resolved_by = some user;
  admin_resolution_note = some d.note;
  admin_resolved_at = some now;
  version = if is_factual_change r d balance then r.version + 1 else r.version;
  updated_at = now;
}

-- The transaction of adminResolveDispute.
unfoldable pub resolved_rows : ℕ → ℕ → Resolution → Option ℕ → Match → MatchResult → Match
unfolding resolved_result
resolved_rows now user d balance m r = record m {
  result = some (resolved_result now user d balance r);
  stats = map (with_stat_status ResultStatus.confirmed) m.stats;
  status = MatchStatus.confirmed;
}
