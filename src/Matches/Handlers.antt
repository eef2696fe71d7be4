-- ===== src/Matches/Handlers.antt =====
-- The handlers of matches/matches.service.ts, whole: checks, writes, audit entry, response.
use inhouse_maker_core_serve.Common.{
  ℕ, ◌+◌, Option, none, some, List, [], ◌∷◌, ◌++◌, if◌then◌else◌, ◌==◌, nat_eq, or_else, length,
}
use inhouse_maker_core_serve.Common.{String}
use inhouse_maker_core_serve.Model.Enums.{MatchStatus, status_eq, BalanceMode}
use inhouse_maker_core_serve.Model.Rows.{Match, MatchPlayer, StoredCandidate}
use inhouse_maker_core_serve.Model.World.{World, AuditAction, put_match}
use inhouse_maker_core_serve.Model.Outcome.{Outcome, ok, or_reject, HttpStatus, AppErrorCode}
use inhouse_maker_core_serve.Model.Action.{
  Action, ◌>>=◌, ◌>>◌, check, gets, modify, save_match, audit,
}
use inhouse_maker_core_serve.Groups.{assert_group_member}
use inhouse_maker_core_serve.Matches.Access.{get_match}
use inhouse_maker_core_serve.Matches.Roster.{
  PlayerInput, new_inputs, insertable, create_inputs, PlayerUpdate, update_player_rows, lock_rows,
  reopen_rows,
}
use inhouse_maker_core_serve.Matches.Teams.{ManualBalance}
use inhouse_maker_core_serve.Matches.Guards.{
  add_players_ready, update_player_ready, lock_ready, manual_balance_ready, assign_ready,
  reopen_ready,
}

-- CreateMatchDto
pub record MatchInput : Type 0 where
  pub title : Option String
  pub notes : Option String
  pub scheduled_at : Option ℕ

abbrev pub new_match : ℕ → ℕ → ℕ → ℕ → MatchInput → Match
new_match k now group user d = record {
  id = k;
  group_id = group;
  created_by = user;
  title = d.title;
  notes = d.notes;
  status = MatchStatus.recruiting;
  scheduled_at = d.scheduled_at;
  created_at = now;
  balance_mode = none;
  selected_candidate_no = none;
  candidates = none;
  players = [];
  result = none;
  stats = [];
}

unfoldable pub create_match : ℕ → ℕ → MatchInput → Action Match
create_match user group d = do
  access ← check (assert_group_member group user)
  fresh ← gets (λ w. w.next_id)
  modify (λ w. record w {
    matches = w.matches ++ new_match fresh w.now group user d ∷ [];
    next_id = fresh + 1;
  })
  check (get_match user fresh)

-- The write of addPlayers: `createMany`, if there is anything to create.
abbrev pub insert_players : Match → List PlayerInput → World → Outcome (Match × ℕ)
insert_players m [] w = ok (m, w.next_id)
insert_players m (i ∷ is) w =
    let rows = create_inputs w w.next_id (i ∷ is) in
    or_reject
      (if insertable w (i ∷ is)
        then some (record m { players = m.players ++ rows }, w.next_id + length rows)
        else none)
      HttpStatus.internal_server_error AppErrorCode.database_error

unfoldable pub add_players : ℕ → ℕ → List PlayerInput → Action Match
add_players user k inputs = do
  m ← check (add_players_ready user k)
  (m', fresh) ← check (insert_players m (new_inputs m inputs))
  modify (λ w. record w { matches = put_match m' w.matches; next_id = fresh })
  check (get_match user k)

unfoldable pub update_player : ℕ → ℕ → ℕ → PlayerUpdate → Action Match
update_player user k player d = do
  (m, p) ← check (update_player_ready user k player)
  save_match (update_player_rows player d (m.status == MatchStatus.locked) m)
  audit (some user) AuditAction.match_player_updated player
  check (get_match user k)

unfoldable pub lock_match : ℕ → ℕ → Action Match
lock_match user k = do
  m ← check (lock_ready user k)
  save_match (lock_rows m)
  audit (some user) AuditAction.match_locked k
  check (get_match user k)

abbrev pub manual_rows : Match → List MatchPlayer → Match
manual_rows m ps = record m {
  players = ps;
  status = MatchStatus.balanced;
  selected_candidate_no = none;
  balance_mode = some (or_else m.balance_mode BalanceMode.balanced);
}

unfoldable pub save_manual_balance : ℕ → ℕ → ManualBalance → Action Match
save_manual_balance user k d = do
  (m, ps) ← check (manual_balance_ready user k d)
  save_match (manual_rows m ps)
  audit (some user) AuditAction.match_manual_balance_saved k
  check (get_match user k)

abbrev pub assign_rows : Match → StoredCandidate → List MatchPlayer → Match
assign_rows m c ps = record m {
  players = ps;
  status = MatchStatus.balanced;
  selected_candidate_no = some c.candidate_no;
  balance_mode = some c.mode;
}

unfoldable pub assign_candidate : ℕ → ℕ → ℕ → Action Match
assign_candidate user k number = do
  (m, c, ps) ← check (assign_ready user k number)
  save_match (assign_rows m c ps)
  audit (some user) AuditAction.match_balanced k
  check (get_match user k)

unfoldable pub reopen_match : ℕ → ℕ → Action Match
reopen_match user k = do
  m ← check (reopen_ready user k)
  save_match (reopen_rows m)
  audit (some user) AuditAction.match_reopened k
  check (get_match user k)
