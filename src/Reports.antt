-- ===== src/Reports.antt =====
-- Reports on users and recruiting posts: reports/reports.service.ts. `updatedAt` is left out.
pub mod Handlers
pub mod Window
use inhouse_maker_core_serve.Common.{
  ℕ, ◌-◌, ◌*◌, ◌+◌, Bool, true, false, not, ◌&&◌, Option, none, some, List, [], ◌∷◌, ◌++◌,
  if◌then◌else◌, ◌==◌, nat_eq, string_eq, any, filter, take, is_some, leb, ltb, String,
}
use inhouse_maker_core_serve.Common.Sorting.{sort}
use inhouse_maker_core_serve.Model.Kinds.{ReportTargetType, target_eq, ReportReason, ReportStatus}
use inhouse_maker_core_serve.Model.World.{World, Report}
use inhouse_maker_core_serve.Model.Outcome.{
  Outcome, ok, err, ◌>>=◌, ◌>>◌, reject_if, HttpStatus, AppErrorCode,
}
use inhouse_maker_core_serve.Blocks.{find_active_user}
use inhouse_maker_core_serve.Recruiting.{find_live_post}

-- CreateReportDto
pub record ReportInput : Type 0 where
  pub target_type : ReportTargetType
  pub target_id : ℕ
  pub reason : ReportReason
  pub detail : Option String

abbrev pub recent_duplicate_window_ms : ℕ
recent_duplicate_window_ms = 10 * 60 * 1000

-- assertReportTargetExists
unfoldable pub assert_target_exists : ℕ → ReportTargetType → ℕ → World → Outcome (Unit {0})
assert_target_exists reporter ReportTargetType.user target w = do
  reject_if (reporter == target) HttpStatus.bad_request AppErrorCode.report_self_not_allowed
  reject_if (not (is_some (find_active_user target w))) HttpStatus.not_found
      AppErrorCode.report_target_not_found
assert_target_exists reporter ReportTargetType.recruitment target w =
    reject_if (not (is_some (find_live_post target w))) HttpStatus.not_found
      AppErrorCode.report_target_not_found
assert_target_exists reporter ReportTargetType.comment target w =
    err HttpStatus.bad_request AppErrorCode.report_target_unsupported
assert_target_exists reporter ReportTargetType.message target w =
    err HttpStatus.bad_request AppErrorCode.report_target_unsupported

-- The reports of one user on one target since a time.
abbrev pub is_recent : ℕ → ReportTargetType → ℕ → ℕ → Report → Bool
is_recent reporter kind target since r =
    r.reporter_user_id == reporter
    && r.target_type == kind
    && r.target_id == target
    && leb since r.created_at

-- assertNoRecentDuplicate; on the subtraction that stops at 0 an early clock gives the epoch.
unfoldable pub assert_no_recent_duplicate : ℕ → ReportTargetType → ℕ → World → Outcome (Unit {0})
assert_no_recent_duplicate reporter kind target w =
    reject_if (any (is_recent reporter kind target (w.now - recent_duplicate_window_ms)) w.reports)
      HttpStatus.conflict AppErrorCode.report_recent_duplicate

-- createReport, up to the write.
unfoldable pub report_ready : ℕ → ReportInput → World → Outcome (Unit {0})
unfolding assert_target_exists assert_no_recent_duplicate
report_ready reporter d w = do
  assert_target_exists reporter d.target_type d.target_id w
  assert_no_recent_duplicate reporter d.target_type d.target_id w

-- `dto.detail || null`
abbrev pub non_empty : Option String → Option String
non_empty none = none
non_empty (some s) = if s == "" then none else some s

-- listMyReports: the hundred newest.
unfoldable pub my_reports : ℕ → World → List Report
unfolding sort
my_reports reporter w = take 100 (
    sort (λ l r. ltb l.created_at r.created_at)
      (filter (λ r. r.reporter_user_id == reporter) w.reports))
