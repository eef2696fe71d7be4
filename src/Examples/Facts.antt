-- ===== src/Examples/Facts.antt =====
-- What the match that was played through looks like on the way, by computation.
use inhouse_maker_core_serve.Matches.Handlers.{create_match, save_manual_balance, add_players}
use inhouse_maker_core_serve.Results.Handlers.{
  confirm_result, submit_quick_result, admin_recipients, announce, confirmed_rows, distinct,
  finalize_result_status,
}
use inhouse_maker_core_serve.Results.Guards.{
  Submission, confirm_ready, submit_ready, save_ready, confirmation_needed, finalize_ready,
  submission_response,
}
use inhouse_maker_core_serve.Matches.Guards.{
  manual_balance_ready, add_players_ready, assert_manual_editable, normalize_assignments,
}
use inhouse_maker_core_serve.Groups.{assert_group_member, assert_active, group_access}
use inhouse_maker_core_serve.Matches.Roster.{new_inputs, insertable, create_inputs, user_ids}
use inhouse_maker_core_serve.Model.World.{put_match, World, find_match}
use inhouse_maker_core_serve.Matches.Teams.{
  seat_all, assignments, seat_one, can_submit_result, result_input_blocked, has_lane_targets,
}
use inhouse_maker_core_serve.Results.Input.{
  balance_feeling, assert_input_ready, is_incomplete, input_ids,
}
use inhouse_maker_core_serve.Common.Sorting.{insert_sorted, sort}
use inhouse_maker_core_serve.Matches.Access.{
  assert_host_or_captain, assert_host_or_group_admin, get_match, match_with_players,
}
use inhouse_maker_core_serve.Results.Policy.{
  captains_confirmed, evaluate, evaluate_latest, keep_first, keep_one, latest_by_user,
  reaches_quorum,
}
use inhouse_maker_core_serve.Results.Rows.{
  finalized_rows, json_field, proposed_winning_team, saved_result, upsert_all, upsert_stat, verdict,
}
use inhouse_maker_core_serve.Model.Action.{create_notifications}
use inhouse_maker_core_serve.Common.{
  ℕ, ◌≡◌, refl, Bool, true, false, not, ◌&&◌, Option, none, some, List, [], ◌∷◌, is_some, or_else,
  arith, contains, all, All, Has, IsDistinct, contains→Has, Has→contains, nat_eq,
}
use inhouse_maker_core_serve.Model.Enums.{MatchStatus, ResultStatus}
use inhouse_maker_core_serve.Model.Rows.{MatchResult}
use inhouse_maker_core_serve.Model.Outcome.{Outcome, ok, err, AppErrorCode}
use inhouse_maker_core_serve.Results.Readiness.{NamesPlayers}
use inhouse_maker_core_serve.Examples.Data.{team_a_won, first_key}
use inhouse_maker_core_serve.Examples.Played.{
  after_seats, after_submit, after_both, after_dispute, match_in, blank_match,
}

pub or_else_found : {A : Type 0} (o : Option A) (d : A) → is_some o ≡ true → o ≡ some (or_else o d)
or_else_found none d h = cc
or_else_found (some x) d h = refl

abbrev pub blank_result : MatchResult
blank_result = saved_result 0 0 1 team_a_won 4 none none

abbrev pub result_in : World → MatchResult
result_in w = or_else (match_in w).result blank_result

-- The row of the match and its result are there.
pub record IsPlayed (w : World) : Type 0 where
  pub found : find_match 100 w.matches ≡ some (match_in w)
  pub result : (match_in w).result ≡ some (result_in w)

is_played :
    (w : World)
    → is_some (find_match 100 w.matches) ≡ true
    → is_some (match_in w).result ≡ true
    → IsPlayed w
is_played w f r = record {
  found = or_else_found (find_match 100 w.matches) blank_match f;
  result = or_else_found (match_in w).result blank_result r;
}

pub record IsSubmitted : Type 0 where
  pub played : IsPlayed after_submit
  pub status : (result_in after_submit).result_status ≡ ResultStatus.partial
  pub key : (result_in after_submit).idempotency_key ≡ some first_key
  pub auth : assert_host_or_captain 100 1 AppErrorCode.result_save_forbidden after_submit ≡ ok tt

pub when_submitted : IsSubmitted
unfolding create_match confirm_result confirm_ready submit_quick_result submit_ready
    save_manual_balance manual_balance_ready add_players add_players_ready assert_group_member
    new_inputs insertable put_match create_inputs seat_all balance_feeling save_ready
    assert_input_ready insert_sorted sort assert_active group_access assert_host_or_captain
    assert_host_or_group_admin get_match match_with_players assert_manual_editable
    normalize_assignments assignments seat_one confirmation_needed finalize_ready
    submission_response admin_recipients announce confirmed_rows distinct finalize_result_status
    is_incomplete captains_confirmed evaluate evaluate_latest keep_first keep_one latest_by_user
    reaches_quorum finalized_rows json_field proposed_winning_team saved_result upsert_all
    upsert_stat verdict create_notifications
when_submitted = record {
  played = is_played after_submit refl refl;
  status = refl;
  key = refl;
  auth = refl;
}

pub record IsSettled (w : World) (s : MatchStatus) (t : ResultStatus) : Type 0 where
  pub played : IsPlayed w
  pub status : (match_in w).status ≡ s
  pub result_status : (result_in w).result_status ≡ t

pub when_confirmed : IsSettled after_both MatchStatus.confirmed ResultStatus.confirmed
unfolding create_match confirm_result confirm_ready submit_quick_result submit_ready
    save_manual_balance manual_balance_ready add_players add_players_ready assert_group_member
    new_inputs insertable put_match create_inputs seat_all balance_feeling save_ready
    assert_input_ready insert_sorted sort assert_active group_access assert_host_or_captain
    assert_host_or_group_admin get_match match_with_players assert_manual_editable
    normalize_assignments assignments seat_one confirmation_needed finalize_ready
    submission_response admin_recipients announce confirmed_rows distinct finalize_result_status
    is_incomplete captains_confirmed evaluate evaluate_latest keep_first keep_one latest_by_user
    reaches_quorum finalized_rows json_field proposed_winning_team saved_result upsert_all
    upsert_stat verdict create_notifications
when_confirmed = record {
  played = is_played after_both refl refl;
  status = refl;
  result_status = refl;
}

when_disputed : IsSettled after_dispute MatchStatus.disputed ResultStatus.disputed
unfolding create_match confirm_result confirm_ready submit_quick_result submit_ready
    save_manual_balance manual_balance_ready add_players add_players_ready assert_group_member
    new_inputs insertable put_match create_inputs seat_all balance_feeling save_ready
    assert_input_ready insert_sorted sort assert_active group_access assert_host_or_captain
    assert_host_or_group_admin get_match match_with_players assert_manual_editable
    normalize_assignments assignments seat_one confirmation_needed finalize_ready
    submission_response admin_recipients announce confirmed_rows distinct finalize_result_status
    is_incomplete captains_confirmed evaluate evaluate_latest keep_first keep_one latest_by_user
    reaches_quorum finalized_rows json_field proposed_winning_team saved_result upsert_all
    upsert_stat verdict create_notifications
when_disputed = record {
  played = is_played after_dispute refl refl;
  status = refl;
  result_status = refl;
}

pub seats-ready : can_submit_result (match_in after_seats) ≡ true
unfolding create_match confirm_result confirm_ready submit_quick_result submit_ready
    save_manual_balance manual_balance_ready add_players add_players_ready assert_group_member
    new_inputs insertable put_match create_inputs seat_all balance_feeling save_ready
    assert_input_ready insert_sorted sort assert_active group_access assert_host_or_captain
    assert_host_or_group_admin get_match match_with_players assert_manual_editable
    normalize_assignments assignments seat_one confirmation_needed finalize_ready
    submission_response admin_recipients announce confirmed_rows distinct finalize_result_status
    is_incomplete captains_confirmed evaluate evaluate_latest keep_first keep_one latest_by_user
    reaches_quorum finalized_rows json_field proposed_winning_team saved_result upsert_all
    upsert_stat verdict create_notifications can_submit_result result_input_blocked has_lane_targets
seats-ready = refl

abbrev pub apart : List ℕ → Bool
apart [] = true
apart (x ∷ xs) = not (contains x xs) && apart xs

pub apart-IsDistinct : (xs : List ℕ) → apart xs ≡ true → IsDistinct xs
apart-IsDistinct [] h = tt
apart-IsDistinct (x ∷ xs) h =
    (λ m. let e = Has→contains x xs m in ground arith, apart-IsDistinct xs (ground arith))

pub each-Has : (xs ys : List ℕ) → all (λ x. contains x ys) xs ≡ true → All (λ x. Has x ys) xs
each-Has [] ys h = tt
each-Has (x ∷ xs) ys h = (contains→Has x ys (ground arith), each-Has xs ys (ground arith))

pub seats-NamesPlayers : NamesPlayers (match_in after_seats) team_a_won
unfolding create_match confirm_result confirm_ready submit_quick_result submit_ready
    save_manual_balance manual_balance_ready add_players add_players_ready assert_group_member
    new_inputs insertable put_match create_inputs seat_all balance_feeling save_ready
    assert_input_ready insert_sorted sort assert_active group_access assert_host_or_captain
    assert_host_or_group_admin get_match match_with_players assert_manual_editable
    normalize_assignments assignments seat_one confirmation_needed finalize_ready
    submission_response admin_recipients announce confirmed_rows distinct finalize_result_status
    is_incomplete captains_confirmed evaluate evaluate_latest keep_first keep_one latest_by_user
    reaches_quorum finalized_rows json_field proposed_winning_team saved_result upsert_all
    upsert_stat verdict create_notifications
seats-NamesPlayers = record {
  as_many = refl;
  once = apart-IsDistinct (input_ids team_a_won.players) refl;
  known = each-Has (input_ids team_a_won.players) (user_ids (match_in after_seats)) refl;
  complete = each-Has (user_ids (match_in after_seats)) (input_ids team_a_won.players) refl;
  mvp_plays = contains→Has {A = ℕ} 3 (user_ids (match_in after_seats)) refl;
}

abbrev is_ok : {A : Type 0} → Outcome A → Bool
is_ok (ok x) = true
is_ok (err s c) = false

abbrev ok_or : {A : Type 0} → Outcome A → A → A
ok_or (ok x) d = x
ok_or (err s c) d = d

ok_found : {A : Type 0} (o : Outcome A) (d : A) → is_ok o ≡ true → o ≡ ok (ok_or o d)
ok_found (ok x) d h = refl
ok_found (err s c) d h = cc

-- How the first submission goes on.
abbrev pub first_submission : Submission
first_submission =
    ok_or (submit_ready 1 100 team_a_won (some first_key) after_seats)
      (Submission.replay blank_match blank_result)

pub first-accepted :
    submit_ready 1 100 team_a_won (some first_key) after_seats ≡ ok first_submission
unfolding create_match confirm_result confirm_ready submit_quick_result submit_ready
    save_manual_balance manual_balance_ready add_players add_players_ready assert_group_member
    new_inputs insertable put_match create_inputs seat_all balance_feeling save_ready
    assert_input_ready insert_sorted sort assert_active group_access assert_host_or_captain
    assert_host_or_group_admin get_match match_with_players assert_manual_editable
    normalize_assignments assignments seat_one confirmation_needed finalize_ready
    submission_response admin_recipients announce confirmed_rows distinct finalize_result_status
    is_incomplete captains_confirmed evaluate evaluate_latest keep_first keep_one latest_by_user
    reaches_quorum finalized_rows json_field proposed_winning_team saved_result upsert_all
    upsert_stat verdict create_notifications
first-accepted = ok_found _ (Submission.replay blank_match blank_result) refl
