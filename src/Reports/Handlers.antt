-- ===== src/Reports/Handlers.antt =====
-- createReport of reports/reports.service.ts.
use inhouse_maker_core_serve.Common.{ℕ, ◌+◌, [], ◌∷◌, ◌++◌}
use inhouse_maker_core_serve.Model.Kinds.{ReportStatus}
use inhouse_maker_core_serve.Model.World.{World, Report}
use inhouse_maker_core_serve.Model.Action.{Action, ◌>>=◌, ◌>>◌, check, gets, modify, pure}
use inhouse_maker_core_serve.Reports.{ReportInput, report_ready, non_empty}

abbrev pub new_report : ℕ → ReportInput → World → Report
new_report reporter d w = record {
  id = w.next_id;
  reporter_user_id = reporter;
  target_type = d.target_type;
  target_id = d.target_id;
  reason = d.reason;
  detail = non_empty d.detail;
  status = ReportStatus.pending;
  created_at = w.now;
}

unfoldable pub create_report : ℕ → ReportInput → Action Report
create_report reporter d = do
  check (report_ready reporter d)
  r ← gets (new_report reporter d)
  modify (λ w. record w { reports = w.reports ++ r ∷ []; next_id = w.next_id + 1 })
  pure r
