-- ===== src/Results/Guards.antt =====
-- What each handler of results/results.service.ts reads and refuses before it writes.
use inhouse_maker_core_serve.Common.{
  ℕ, ◌+◌, ◌-◌, ◌*◌, ◌/◌, Bool, true, false, not, ◌&&◌, Option, none, some, List, ◌==◌, nat_eq,
  string_eq, find?, if◌then◌else◌, is_some, String, eq_option,
}
use inhouse_maker_core_serve.Model.Enums.{ResultStatus, result_eq, TeamSide}
use inhouse_maker_core_serve.Model.Rows.{Match, MatchResult, PlayerStat}
use inhouse_maker_core_serve.Model.World.{World}
use inhouse_maker_core_serve.Model.Outcome.{
  Outcome, ok, ◌>>=◌, ◌>>◌, reject_if, or_reject, HttpStatus, AppErrorCode,
}
use inhouse_maker_core_serve.Groups.{find_membership}
use inhouse_maker_core_serve.Matches.Access.{
  match_with_players, assert_host_or_captain, assert_admin_or_group_admin, is_participant,
}
use inhouse_maker_core_serve.Results.Input.{
  QuickResult, balance_feeling, optional_balance_feeling, assert_input_ready,
}
use inhouse_maker_core_serve.Results.Rows.{Resolution, upsert_all}

-- ResultSubmissionResponseDto; `savedAt` is the row's time.
pub record SubmissionResponse : Type 0 where
  pub result_id : ℕ
  pub match_id : ℕ
  pub status : ResultStatus
  pub confirmation_needed : ℕ
  pub updated_by : ℕ
  pub saved_at : ℕ
  pub winning_team : Option TeamSide
  pub mvp_user_id : Option ℕ
  pub balance_rating : Option ℕ
  pub is_finalized : Bool

-- `Math.max(0, Math.ceil(participantCount * 0.7) - 1)`; the product of doubles does not round
-- above a whole number that it ought to reach.
unfoldable pub confirmation_needed : ℕ → ℕ
confirmation_needed participant_count = (7 * participant_count + 9) / 10 - 1

-- buildSubmissionResponse
unfoldable pub submission_response : ℕ → MatchResult → ℕ → SubmissionResponse
unfolding confirmation_needed
submission_response k r participant_count = record {
  result_id = r.id;
  match_id = k;
  status = r.result_status;
  confirmation_needed = confirmation_needed participant_count;
  updated_by = r.submitted_by;
  saved_at = r.updated_at;
  winning_team = r.winning_team;
  mvp_user_id = r.mvp_user_id;
  balance_rating = r.balance_rating;
  is_finalized = r.result_status == ResultStatus.confirmed;
}

-- `existing?.idempotencyKey && existing.idempotencyKey === idempotencyKey`; "" counts as absent.
abbrev pub repeats_key : Option String → Option MatchResult → Bool
repeats_key key none = false
repeats_key key (some r) = elim r.idempotency_key [
  | none ↦ false
  | some old ↦ not (old == "") && eq_option (some old) key
]

abbrev pub is_confirmed : Option MatchResult → Bool
is_confirmed none = false
is_confirmed (some r) = r.result_status == ResultStatus.confirmed

-- How submitQuickResult goes on: it answers with the result that the same key saved, or it saves.
pub data Submission : Type 0 where
  replay : Match → MatchResult → Submission
  proceed : Match → ℕ → List PlayerStat → Submission

-- The checks behind the replay test, and the stats that the transaction is to write.
unfoldable pub save_ready : Match → ℕ → QuickResult → Outcome Submission
save_ready m balance d = do
  reject_if (is_confirmed m.result) HttpStatus.conflict AppErrorCode.result_already_finalized
  assert_input_ready m d
  stats ←
      or_reject (upsert_all m d.players m.stats) HttpStatus.bad_request AppErrorCode.invalid_request
  ok (Submission.proceed m balance stats)

abbrev pub replay_or_save : Match → ℕ → QuickResult → Option MatchResult → Bool → Outcome Submission
replay_or_save m balance d (some r) true = ok (Submission.replay m r)
replay_or_save m balance d _ _ = save_ready m balance d

unfoldable pub submit_ready : ℕ → ℕ → QuickResult → Option String → World → Outcome Submission
unfolding assert_host_or_captain match_with_players
submit_ready user k d key w = do
  assert_host_or_captain k user AppErrorCode.result_save_forbidden w
  m ← match_with_players k w
  balance ← balance_feeling d.balance_rating d.balance_feeling
  replay_or_save m balance d m.result (repeats_key key m.result)

-- `findFirst` on the result's id within the match.
abbrev pub find_result : ℕ → Match → Option MatchResult
find_result result m = elim m.result [
  | none ↦ none
  | some r ↦ if r.id == result then some r else none
]

abbrev pub result_or_reject : ℕ → Match → Outcome MatchResult
result_or_reject result m =
    or_reject (find_result result m) HttpStatus.not_found AppErrorCode.result_not_found

-- confirmResult
unfoldable pub confirm_ready : ℕ → ℕ → ℕ → World → Outcome (Match × MatchResult)
unfolding match_with_players
confirm_ready user k result w = do
  m ← match_with_players k w
  reject_if (not (is_participant user m)) HttpStatus.forbidden AppErrorCode.result_confirm_forbidden
  r ← result_or_reject result m
  ok (m, r)

-- finalizeResultStatus: the result with its match.
abbrev pub holds_result : ℕ → Match → Bool
holds_result result m = is_some (find_result result m)

unfoldable pub finalize_ready : ℕ → World → Outcome (Match × MatchResult)
finalize_ready result w = do
  m ←
      or_reject (find? (holds_result result) w.matches) HttpStatus.not_found
        AppErrorCode.result_not_found
  r ← result_or_reject result m
  ok (m, r)

-- The part that getDisputeDetail and adminResolveDispute share: only a disputed result.
abbrev disputed_or_reject : ℕ → Match → Outcome MatchResult
disputed_or_reject result m = do
  r ← result_or_reject result m
  reject_if (not (r.result_status == ResultStatus.disputed)) HttpStatus.bad_request
      AppErrorCode.result_invalid_state
  ok r

abbrev is_unknown_mvp : Option ℕ → Match → Bool
is_unknown_mvp none m = false
is_unknown_mvp (some mvp) m = not (is_participant mvp m)

-- adminResolveDispute: the match, its result, and the balance feeling if one is given.
unfoldable pub resolve_ready :
    ℕ → ℕ → ℕ → Resolution → World → Outcome (Match × MatchResult × Option ℕ)
unfolding match_with_players assert_admin_or_group_admin optional_balance_feeling
resolve_ready user k result d w = do
  m ← match_with_players k w
  assert_admin_or_group_admin m.group_id user AppErrorCode.result_resolve_forbidden w
  balance ← optional_balance_feeling d.balance_rating d.balance_feeling
  reject_if (is_unknown_mvp d.mvp_user_id m) HttpStatus.bad_request AppErrorCode.invalid_request
  r ← disputed_or_reject result m
  ok (m, r, balance)

-- getMatchResult, up to the shape of its response.
unfoldable pub get_match_result : ℕ → ℕ → World → Outcome (MatchResult × List PlayerStat)
unfolding match_with_players
get_match_result user k w = do
  m ← match_with_players k w
  reject_if (not (is_participant user m) && not (is_some (find_membership m.group_id user w)))
      HttpStatus.forbidden AppErrorCode.result_view_forbidden
  r ← or_reject m.result HttpStatus.not_found AppErrorCode.result_not_found
  ok (r, m.stats)

-- getDisputeDetail, up to the dispute summary.
unfoldable pub dispute_ready : ℕ → ℕ → ℕ → World → Outcome (Match × MatchResult)
unfolding match_with_players assert_admin_or_group_admin
dispute_ready user k result w = do
  m ← match_with_players k w
  assert_admin_or_group_admin m.group_id user AppErrorCode.result_resolve_forbidden w
  r ← disputed_or_reject result m
  ok (m, r)
