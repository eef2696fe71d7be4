-- ===== src/Matches/Access.antt =====
-- Who may do what with a match: getMatchWithPlayers and the three assertions of
-- matches/matches.service.ts, and assertResultResolutionAuthority of results/results.service.ts.
use inhouse_maker_core_serve.Common.{
  ℕ, Bool, true, false, not, ◌&&◌, ◌||◌, Option, none, some, ◌==◌, nat_eq, find?,
}
use inhouse_maker_core_serve.Model.Enums.{ParticipationStatus, participation_eq}
use inhouse_maker_core_serve.Model.Rows.{Match, MatchPlayer}
use inhouse_maker_core_serve.Model.World.{World, find_match}
use inhouse_maker_core_serve.Model.Outcome.{
  Outcome, ok, ◌>>=◌, reject_if, or_reject, HttpStatus, AppErrorCode,
}
use inhouse_maker_core_serve.Groups.{
  find_membership, is_group_admin_role, is_system_admin, assert_group_member,
}

unfoldable pub match_with_players : ℕ → World → Outcome Match
match_with_players k w =
    or_reject (find_match k w.matches) HttpStatus.not_found AppErrorCode.match_not_found

-- The row of the requester, and whether it makes an owner or admin of the group.
abbrev pub is_group_admin : ℕ → ℕ → World → Bool
is_group_admin group user w = elim (find_membership group user w) [
  | none ↦ false
  | some m ↦ is_group_admin_role (some m.role)
]

abbrev pub find_player : ℕ → Match → Option MatchPlayer
find_player user m = find? (λ p. p.user_id == user) m.players

abbrev pub is_captain : ℕ → Match → Bool
is_captain user m = elim (find_player user m) [ none ↦ false | some p ↦ p.is_captain ]

abbrev pub is_participant : ℕ → Match → Bool
is_participant user m = elim (find_player user m) [ none ↦ false | some p ↦ true ]

-- assertMatchHostOrCaptain, with the code that its options may replace.
unfoldable pub assert_host_or_captain : ℕ → ℕ → AppErrorCode → World → Outcome (Unit {0})
unfolding match_with_players
assert_host_or_captain k user forbidden_code w = do
  m ← match_with_players k w
  let host = m.created_by == user
  let captain = is_captain user m
  let admin = is_group_admin m.group_id user w
  reject_if (not host && not captain && not admin) HttpStatus.forbidden forbidden_code

-- assertMatchHostOrGroupAdmin
unfoldable pub assert_host_or_group_admin : Match → ℕ → World → Outcome (Unit {0})
assert_host_or_group_admin m user w =
    reject_if (not (m.created_by == user) && not (is_group_admin m.group_id user w))
      HttpStatus.forbidden AppErrorCode.forbidden

-- assertAdminOrGroupAdmin, and assertResultResolutionAuthority with its own code.
unfoldable pub assert_admin_or_group_admin : ℕ → ℕ → AppErrorCode → World → Outcome (Unit {0})
assert_admin_or_group_admin group user forbidden_code w =
    reject_if (not (is_system_admin user w || is_group_admin group user w)) HttpStatus.forbidden
      forbidden_code

-- getMatch, up to the shape of its response.
unfoldable pub get_match : ℕ → ℕ → World → Outcome Match
unfolding match_with_players assert_group_member
get_match user k w = do m ← match_with_players k w; a ← assert_group_member m.group_id user w; ok m

-- ACCEPTED or LOCKED_IN
abbrev pub has_joined : MatchPlayer → Bool
has_joined p =
    p.participation_status == ParticipationStatus.accepted
    || p.participation_status == ParticipationStatus.locked_in
