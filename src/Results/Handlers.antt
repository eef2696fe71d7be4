-- ===== src/Results/Handlers.antt =====
-- The handlers of results/results.service.ts, whole: checks, writes, audit entries, notifications
-- and queued jobs, in the order of the code; and the job of results/results.processor.ts.
-- Log lines are left out.
use inhouse_maker_core_serve.Common.{
  ℕ, ◌+◌, Bool, true, not, ◌&&◌, Option, none, some, List, [], ◌∷◌, ◌++◌, map, ◌==◌, nat_eq, filter,
  length, if◌then◌else◌, String, contains,
}
use inhouse_maker_core_serve.Model.Enums.{ResultStatus, result_eq, ConfirmationAction, role_eq}
use inhouse_maker_core_serve.Model.Rows.{
  Match, MatchPlayer, MatchResult, PlayerStat, Confirmation, JsonObject,
}
use inhouse_maker_core_serve.Model.World.{
  World, AuditAction, NotificationType, NotificationInput, Job, PowerReason, put_match,
}
use inhouse_maker_core_serve.Model.Outcome.{ok}
use inhouse_maker_core_serve.Model.Action.{
  Action, ◌>>=◌, ◌>>◌, check, gets, pure, save_match, audit, enqueue_all, create_many,
}
use inhouse_maker_core_serve.Groups.{is_group_admin_role}
use inhouse_maker_core_serve.Results.Input.{QuickResult}
use inhouse_maker_core_serve.Results.Rows.{
  saved_result, submitted_rows, proposed_winning_team, participants, verdict, finalized_rows,
  Resolution, resolved_result, resolved_rows,
}
use inhouse_maker_core_serve.Results.Guards.{
  SubmissionResponse, submission_response, Submission, submit_ready, confirm_ready, finalize_ready,
  resolve_ready,
}

abbrev pub notice : NotificationType → ℕ → ℕ → NotificationInput
notice kind result user = record { user_id = user; kind = kind; related_entity_id = result }

abbrev recalculate : PowerReason → List ℕ → List Job
recalculate reason us = map (λ u. Job.recalculate_power_profile u reason) us

abbrev ids_of : List MatchPlayer → List ℕ
ids_of ps = map (λ p. p.user_id) ps

abbrev others : ℕ → List ℕ → List ℕ
others user us = filter (λ u. not (u == user)) us

-- The transaction of submitQuickResult, and the row that it returns.
abbrev pub save_submission :
    ℕ → QuickResult → Option String → Match → ℕ → List PlayerStat → Action MatchResult
save_submission user d key m balance stats w =
    let r = saved_result w.next_id w.now user d balance key m.result in
    (
      ok r,
      record w {
        matches = put_match (submitted_rows m r stats) w.matches;
        next_id = w.next_id + 1;
      },
    )

abbrev pub submit : ℕ → QuickResult → Option String → Submission → Action SubmissionResponse
submit user d key (Submission.replay m r) = pure (submission_response m.id r (length m.players))
submit user d key (Submission.proceed m balance stats) = do
  r ← save_submission user d key m balance stats
  audit (some user) AuditAction.result_submitted r.id
  create_many (
      map (notice NotificationType.result_confirmation_request r.id)
        (others user (ids_of m.players)))
  enqueue_all (recalculate (PowerReason.result_partial m.id) (ids_of m.players))
  pure (submission_response m.id r (length m.players))

unfoldable pub submit_quick_result : ℕ → ℕ → QuickResult → Option String → Action SubmissionResponse
submit_quick_result user k d key = do s ← check (submit_ready user k d key); submit user d key s

-- `[...new Set(xs)]`
unfoldable pub distinct : List ℕ → List ℕ → List ℕ
distinct seen [] = []
distinct seen (x ∷ xs) = if contains x seen then distinct seen xs else x ∷ distinct (x ∷ seen) xs

-- getResultAdminRecipientUserIds
unfoldable pub admin_recipients : ℕ → World → List ℕ
unfolding distinct
admin_recipients group w = distinct [] (
    map (λ u. u.id) (filter (λ u. u.is_admin) w.users)
    ++ map (λ g. g.user_id)
        (filter (λ g. g.group_id == group && is_group_admin_role (some g.role)) w.members))

-- What finalizeResultStatus sends when the status has just become CONFIRMED or DISPUTED.
abbrev pub follow_up : ResultStatus → Match → MatchResult → Action (Unit {0})
follow_up ResultStatus.confirmed m r = do
  enqueue_all (recalculate (PowerReason.result_confirmed m.id) (ids_of (participants m)))
  create_many (map (notice NotificationType.result_confirmed r.id) (ids_of (participants m)))
follow_up ResultStatus.disputed m r = do
  enqueue_all (recalculate (PowerReason.result_disputed m.id) (ids_of (participants m)))
  recipients ← gets (admin_recipients m.group_id)
  create_many (map (notice NotificationType.result_disputed r.id) recipients)
follow_up ResultStatus.partial m r = pure tt

abbrev pub on_transition : ResultStatus → Match → MatchResult → Action (Unit {0})
on_transition status m r = do
  audit none AuditAction.result_status_transitioned r.id
  follow_up status m r

-- The audit entry and what follows it, if the status is not the one that the result had.
unfoldable pub announce : ResultStatus → Match → MatchResult → Action (Unit {0})
announce status m r = if status == r.result_status then pure tt else on_transition status m r

unfoldable pub finalize_result_status : ℕ → Bool → Action ResultStatus
finalize_result_status result enqueue_followup = do
  (m, r) ← check (finalize_ready result)
  let status = verdict m r
  now ← gets (λ w. w.now)
  save_match (finalized_rows status now m r)
  enqueue_all (if enqueue_followup then Job.finalize_result_confirmation result ∷ [] else [])
  announce status m r
  pure status

-- ConfirmResultDto
pub record ConfirmInput : Type 0 where
  pub action : ConfirmationAction
  pub diff : Option JsonObject
  pub comment : Option String

abbrev pub confirmation : ℕ → ConfirmInput → ℕ → MatchResult → Confirmation
confirmation user d now r = record {
  user_id = user;
  result_version = r.version;
  action = d.action;
  diff = d.diff;
  proposed_winning_team = proposed_winning_team d.diff;
  comment = d.comment;
  created_at = now;
}

abbrev pub with_confirmation : ℕ → ConfirmInput → ℕ → MatchResult → MatchResult
with_confirmation user d now r = record r {
  confirmations = r.confirmations ++ confirmation user d now r ∷ [];
}

-- `matchResultConfirmation.create`
unfoldable pub confirmed_rows : ℕ → ConfirmInput → ℕ → Match → MatchResult → Match
confirmed_rows user d now m r = record m { result = some (with_confirmation user d now r) }

unfoldable pub confirm_result : ℕ → ℕ → ℕ → ConfirmInput → Action SubmissionResponse
confirm_result user k result d = do
  (m, r) ← check (confirm_ready user k result)
  now ← gets (λ w. w.now)
  save_match (confirmed_rows user d now m r)
  audit (some user) AuditAction.result_confirmation_updated r.id
  next_status ← finalize_result_status r.id true
  pure (
      submission_response k (record r { result_status = next_status; updated_at = now })
        (length m.players))

-- AdminResolveResultResponseDto
pub record ResolveResponse : Type 0 where
  pub result_id : ℕ
  pub status : ResultStatus
  pub version : ℕ
  pub admin_resolved_at : Option ℕ

unfoldable pub admin_resolve_dispute : ℕ → ℕ → ℕ → Resolution → Action ResolveResponse
admin_resolve_dispute user k result d = do
  (m, r, balance) ← check (resolve_ready user k result d)
  now ← gets (λ w. w.now)
  save_match (resolved_rows now user d balance m r)
  audit (some user) AuditAction.result_admin_resolved result
  enqueue_all (recalculate (PowerReason.admin_resolved k) (ids_of (participants m)))
  create_many (
      map (notice NotificationType.result_admin_resolved result)
        (others user (ids_of (participants m))))
  let updated = resolved_result now user d balance r
  pure (record {
    result_id = result;
    status = updated.result_status;
    version = updated.version;
    admin_resolved_at = updated.admin_resolved_at;
  })
