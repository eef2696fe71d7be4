-- ===== src/Matches/Roster.antt =====
-- The players of a match: addPlayers, updatePlayer, lockMatch and reopenMatch of
-- matches/matches.service.ts, as changes of the match's rows.
-- `undefined` in an update leaves a column alone.
use inhouse_maker_core_serve.Common.{
  ℕ, ◌+◌, Bool, true, false, not, ◌&&◌, Option, none, some, List, [], ◌∷◌, map, if◌then◌else◌, ◌==◌,
  nat_eq, find?, filter, contains, or_else, is_some,
}
use inhouse_maker_core_serve.Model.Enums.{MatchStatus, ParticipationStatus, participation_eq}
use inhouse_maker_core_serve.Model.Rows.{Match, MatchPlayer, MatchResult, Snapshot}
use inhouse_maker_core_serve.Model.World.{World, User}

-- MatchPlayerInputDto
pub record PlayerInput : Type 0 where
  pub user_id : ℕ
  pub riot_account_id : Option ℕ
  pub participation_status : Option ParticipationStatus
  pub same_team_preferences : Option (List ℕ)
  pub avoid_team_preferences : Option (List ℕ)
  pub is_captain : Option Bool

-- createPositionPreferenceSnapshot; no user gives the empty object.
abbrev position_snapshot : Option User → Option Snapshot
position_snapshot none = none
position_snapshot (some u) = some (record {
  primary_position = u.primary_position;
  secondary_position = u.secondary_position;
  is_fill_available = u.is_fill_available;
  overall_power = or_else u.overall_power 50;
})

abbrev pub user_ids : Match → List ℕ
user_ids m = map (λ p. p.user_id) m.players

-- The inputs of users that are not in the match yet.
unfoldable pub new_inputs : Match → List PlayerInput → List PlayerInput
new_inputs m is = filter (λ i. not (contains i.user_id (user_ids m))) is

abbrev create_input : World → ℕ → PlayerInput → MatchPlayer
create_input w fresh i = record {
  id = fresh;
  user_id = i.user_id;
  riot_account_id = i.riot_account_id;
  team_side = none;
  assigned_role = none;
  position_pref_snapshot = position_snapshot (find? (λ u. u.id == i.user_id) w.users);
  same_team_preferences = or_else i.same_team_preferences [];
  avoid_team_preferences = or_else i.avoid_team_preferences [];
  participation_status = or_else i.participation_status ParticipationStatus.accepted;
  is_captain = or_else i.is_captain false;
}

unfoldable pub create_inputs : World → ℕ → List PlayerInput → List MatchPlayer
create_inputs w fresh [] = []
create_inputs w fresh (i ∷ is) = create_input w fresh i ∷ create_inputs w (fresh + 1) is

-- What the database asks of the rows of `createMany`: each user exists, and none is given twice.
unfoldable pub insertable : World → List PlayerInput → Bool
insertable w [] = true
insertable w (i ∷ is) =
    is_some (find? (λ u. u.id == i.user_id) w.users)
    && not (contains i.user_id (map (λ j. j.user_id) is))
    && insertable w is

-- UpdateMatchPlayerDto
pub record PlayerUpdate : Type 0 where
  pub riot_account_id : Option ℕ
  pub participation_status : Option ParticipationStatus
  pub same_team_preferences : Option (List ℕ)
  pub avoid_team_preferences : Option (List ℕ)
  pub is_captain : Option Bool

abbrev pub update_columns : PlayerUpdate → MatchPlayer → MatchPlayer
update_columns d p = record p {
  riot_account_id = elim d.riot_account_id [ none ↦ p.riot_account_id | some r ↦ some r ];
  participation_status = or_else d.participation_status p.participation_status;
  same_team_preferences = or_else d.same_team_preferences p.same_team_preferences;
  avoid_team_preferences = or_else d.avoid_team_preferences p.avoid_team_preferences;
  is_captain = or_else d.is_captain p.is_captain;
}

abbrev pub with_status : ParticipationStatus → MatchPlayer → MatchPlayer
with_status s p = record p { participation_status = s }

-- `updateMany` where the player is LOCKED_IN
abbrev pub unlock : MatchPlayer → MatchPlayer
unlock p =
    if p.participation_status == ParticipationStatus.locked_in
    then with_status ParticipationStatus.accepted p
    else p

abbrev pub update_by_id : ℕ → (MatchPlayer → MatchPlayer) → List MatchPlayer → List MatchPlayer
update_by_id k f ps = map (λ p. if p.id == k then f p else p) ps

-- A match back in recruiting, with no balance.
abbrev pub recruiting_again : List MatchPlayer → Match → Match
recruiting_again ps m = record m {
  status = MatchStatus.recruiting;
  balance_mode = none;
  selected_candidate_no = none;
  candidates = none;
  players = ps;
}

-- The transaction of updatePlayer.
unfoldable pub update_player_rows : ℕ → PlayerUpdate → Bool → Match → Match
update_player_rows player d should_reopen m =
    let ps = update_by_id player (update_columns d) m.players in
    if should_reopen then recruiting_again (map unlock ps) m else record m { players = ps }

-- The transaction of lockMatch.
unfoldable pub lock_rows : Match → Match
lock_rows m = record m {
  players = map (with_status ParticipationStatus.locked_in) m.players;
  status = MatchStatus.locked;
}

abbrev pub unassign : MatchPlayer → MatchPlayer
unassign p = record p {
  team_side = none;
  assigned_role = none;
  participation_status = ParticipationStatus.accepted;
}

-- A result goes, with its confirmations and the stats.
abbrev pub without_result : Option MatchResult → Match → Match
without_result none m = m
without_result (some r) m = record m { result = none; stats = [] }

-- The transaction of reopenMatch.
unfoldable pub reopen_rows : Match → Match
reopen_rows m = recruiting_again (map unassign m.players) (without_result m.result m)
