-- ===== src/Matches/Guards.antt =====
-- What each handler of matches/matches.service.ts reads and refuses before it writes.
use inhouse_maker_core_serve.Common.{
  ℕ, Bool, not, ◌||◌, Option, List, [], ◌∷◌, ◌++◌, map, ◌==◌, nat_eq, eq_nat, find?, filter,
  contains, all, length, or_else, count_distinct,
}
use inhouse_maker_core_serve.Model.Enums.{MatchStatus, status_eq, position_eq}
use inhouse_maker_core_serve.Model.Rows.{Match, MatchPlayer, Assignment, StoredCandidate}
use inhouse_maker_core_serve.Model.World.{World}
use inhouse_maker_core_serve.Model.Outcome.{
  Outcome, ok, ◌>>=◌, ◌>>◌, reject_if, or_reject, HttpStatus, AppErrorCode,
}
use inhouse_maker_core_serve.Groups.{assert_group_member}
use inhouse_maker_core_serve.Matches.Access.{
  match_with_players, assert_host_or_captain, assert_host_or_group_admin,
  assert_admin_or_group_admin, has_joined,
}
use inhouse_maker_core_serve.Matches.Roster.{user_ids}
use inhouse_maker_core_serve.Matches.Teams.{ManualBalance, assignments, is_finalized, seat_all}

-- `status === a || status === b || …`
abbrev status_in : List MatchStatus → Match → Bool
status_in ss m = contains m.status ss

abbrev edit_closed : List MatchStatus
edit_closed = MatchStatus.in_progress ∷ MatchStatus.confirmed ∷ MatchStatus.closed ∷ []

abbrev edit_needs_reopen : List MatchStatus
edit_needs_reopen = MatchStatus.balanced ∷ MatchStatus.result_pending ∷ MatchStatus.disputed ∷ []

-- addPlayers, up to the write.
unfoldable pub add_players_ready : ℕ → ℕ → World → Outcome Match
unfolding match_with_players assert_host_or_group_admin
add_players_ready user k w = do
  m ← match_with_players k w
  assert_host_or_group_admin m user w
  reject_if (not (status_in (MatchStatus.draft ∷ MatchStatus.recruiting ∷ []) m))
      HttpStatus.bad_request AppErrorCode.match_edit_not_allowed
  ok m

-- updatePlayer: the match and the player's row.
unfoldable pub update_player_ready : ℕ → ℕ → ℕ → World → Outcome (Match × MatchPlayer)
unfolding match_with_players assert_admin_or_group_admin
update_player_ready user k player w = do
  m ← match_with_players k w
  assert_admin_or_group_admin m.group_id user AppErrorCode.forbidden w
  reject_if (status_in edit_closed m) HttpStatus.bad_request AppErrorCode.match_edit_not_allowed
  reject_if (status_in edit_needs_reopen m) HttpStatus.bad_request
      AppErrorCode.match_edit_not_allowed
  p ←
      or_reject (find? (λ p. p.id == player) m.players) HttpStatus.not_found
        AppErrorCode.match_player_not_found
  ok (m, p)

-- lockMatch
unfoldable pub lock_ready : ℕ → ℕ → World → Outcome Match
unfolding match_with_players assert_host_or_group_admin
lock_ready user k w = do
  m ← match_with_players k w
  assert_host_or_group_admin m user w
  reject_if (not (eq_nat (length m.players) 10)) HttpStatus.bad_request
      AppErrorCode.match_lock_not_ready
  reject_if (not (eq_nat (length (filter has_joined m.players)) 10)) HttpStatus.bad_request
      AppErrorCode.match_lock_not_ready
  ok m

abbrev refuse_balance : Bool → Outcome (Unit {0})
refuse_balance c = reject_if c HttpStatus.bad_request AppErrorCode.match_balance_invalid

-- assertManualBalanceEditable
unfoldable pub assert_manual_editable : Match → Outcome (Unit {0})
assert_manual_editable m = do
  refuse_balance (status_in edit_closed m)
  refuse_balance (not (eq_nat (length m.players) 10))

-- normalizeManualBalanceAssignments
unfoldable pub normalize_assignments : Match → ManualBalance → Outcome (List Assignment)
unfolding assignments
normalize_assignments m d =
    let seats = assignments d in
    let ids = map (λ s. s.user_id) seats in
    let current = user_ids m in
    let blue_roles = map (λ p. p.assigned_role) d.blue_team in
    let red_roles = map (λ p. p.assigned_role) d.red_team in
    do
      refuse_balance (not (eq_nat (length d.blue_team) 5) || not (eq_nat (length d.red_team) 5))
      refuse_balance (not (eq_nat (length seats) (count_distinct current)))
      refuse_balance (not (eq_nat (count_distinct ids) (length seats)))
      refuse_balance (not (all (λ u. contains u current) ids))
      refuse_balance (not (eq_nat (count_distinct blue_roles) (length d.blue_team)))
      refuse_balance (not (eq_nat (count_distinct red_roles) (length d.red_team)))
      ok seats

-- saveManualBalance: the match, and its players with their seats.
unfoldable pub manual_balance_ready :
    ℕ → ℕ → ManualBalance → World → Outcome (Match × List MatchPlayer)
unfolding assert_host_or_captain match_with_players assert_manual_editable normalize_assignments
manual_balance_ready user k d w = do
  assert_host_or_captain k user AppErrorCode.forbidden w
  m ← match_with_players k w
  assert_manual_editable m
  seats ← normalize_assignments m d
  ps ←
      or_reject (seat_all seats m.players) HttpStatus.internal_server_error
        AppErrorCode.database_error
  ok (m, ps)

abbrev find_candidate : ℕ → Match → Option StoredCandidate
find_candidate number m = find? (λ c. c.candidate_no == number) (or_else m.candidates [])

-- assignCandidate: the match, the candidate, and the players with their seats.
unfoldable pub assign_ready :
    ℕ → ℕ → ℕ → World → Outcome (Match × StoredCandidate × List MatchPlayer)
unfolding assert_host_or_captain match_with_players
assign_ready user k number w = do
  m ← match_with_players k w
  assert_host_or_captain k user AppErrorCode.forbidden w
  c ←
      or_reject (find_candidate number m) HttpStatus.not_found
        AppErrorCode.match_candidate_not_found
  ps ←
      or_reject (seat_all (c.team_a ++ c.team_b) m.players) HttpStatus.internal_server_error
        AppErrorCode.database_error
  ok (m, c, ps)

-- reopenMatch
unfoldable pub reopen_ready : ℕ → ℕ → World → Outcome Match
unfolding match_with_players assert_admin_or_group_admin
reopen_ready user k w = do
  m ← match_with_players k w
  assert_admin_or_group_admin m.group_id user AppErrorCode.forbidden w
  reject_if (status_in edit_closed m || is_finalized m.result) HttpStatus.bad_request
      AppErrorCode.match_reopen_not_allowed
  reject_if (not (status_in (MatchStatus.locked ∷ edit_needs_reopen) m)) HttpStatus.bad_request
      AppErrorCode.match_reopen_not_allowed
  ok m

-- getRematchInput, up to the shape of its response.
unfoldable pub rematch_ready : ℕ → ℕ → World → Outcome Match
unfolding match_with_players
rematch_ready user k w = do
  m ← match_with_players k w
  a ← assert_group_member m.group_id user w
  reject_if (eq_nat (length m.players) 0) HttpStatus.not_found
      AppErrorCode.rematch_input_unavailable
  ok m
