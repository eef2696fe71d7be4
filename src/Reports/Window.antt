-- ===== src/Reports/Window.antt =====
-- A second report on the same target: reports/reports.service.ts.
use inhouse_maker_core_serve.Common.{
  ℕ, ◌+◌, ◌-◌, ◌≤◌, ◌<◌, ◌≡◌, refl, ◌∙◌, Bool, true, false, ◌||◌, Option, List, [], ◌∷◌, ◌++◌,
  arith, All, any, any-append, Bool-cases, inl, inr, if◌then◌else◌, nat_eq, ==_refl, leb, String,
}
use inhouse_maker_core_serve.Model.Kinds.{ReportTargetType, target_eq, ReportReason}
use inhouse_maker_core_serve.Model.World.{World, Report}
use inhouse_maker_core_serve.Model.Outcome.{
  Outcome, ok, err, Outcome-cases, HttpStatus, AppErrorCode, ◌>>=◌ as bind,
}
use inhouse_maker_core_serve.Model.Action.{◌>>=◌}
use inhouse_maker_core_serve.Reports.{
  ReportInput, recent_duplicate_window_ms, assert_target_exists, is_recent,
  assert_no_recent_duplicate, report_ready,
}
use inhouse_maker_core_serve.Reports.Handlers.{new_report, create_report}

-- The same target, for whatever reason.
abbrev pub again : ReportInput → ReportReason → Option String → ReportInput
again d reason detail = record d { reason = reason; detail = detail }

abbrev pub at_time : ℕ → World → World
at_time t w = record w { now = t }

-- What a first report leaves.
abbrev pub reported : ℕ → ReportInput → World → World
reported reporter d w = record w {
  reports = w.reports ++ new_report reporter d w ∷ [];
  next_id = w.next_id + 1;
}

create_report-ready :
    (reporter : ℕ) (d : ReportInput) (w : World)
    → report_ready reporter d w ≡ ok tt
    → create_report reporter d w ≡ (ok (new_report reporter d w), reported reporter d w)
unfolding create_report
create_report-ready reporter d w e = rw (e, ◌>>=◌) refl

create_report-refused :
    (reporter : ℕ) (d : ReportInput) (w : World) (s : HttpStatus) (c : AppErrorCode)
    → report_ready reporter d w ≡ err s c
    → create_report reporter d w ≡ (err s c, w)
unfolding create_report
create_report-refused reporter d w s c e = rw (e, ◌>>=◌) refl

-- The target still exists when a report has been written and time has passed.
target-reported :
    (reporter t : ℕ) (d : ReportInput) (w : World) (kind : ReportTargetType) (target : ℕ)
    → assert_target_exists reporter kind target (at_time t (reported reporter d w))
      ≡ assert_target_exists reporter kind target w
unfolding assert_target_exists
target-reported reporter t d w ReportTargetType.user target = refl
target-reported reporter t d w ReportTargetType.recruitment target = refl
target-reported reporter t d w ReportTargetType.comment target = refl
target-reported reporter t d w ReportTargetType.message target = refl

recent_new :
    (reporter since : ℕ) (d : ReportInput) (w : World)
    → is_recent reporter d.target_type d.target_id since (new_report reporter d w) ≡ leb since w.now
recent_new reporter since d w =
    rw (==_refl reporter, ==_refl d.target_type, ==_refl d.target_id) refl

none_recent :
    (reporter since now : ℕ) (kind : ReportTargetType) (target : ℕ) (rs : List Report)
    → now < since
    → All (λ r. r.created_at ≤ now) rs
    → any (is_recent reporter kind target since) rs ≡ false
none_recent reporter since now kind target [] h old = refl
none_recent reporter since now kind target (r ∷ rs) h (hr, old) =
    ground (arith, none_recent reporter since now kind target rs h old)

ready-target :
    (reporter : ℕ) (d : ReportInput) (w : World)
    → report_ready reporter d w ≡ ok tt
    → assert_target_exists reporter d.target_type d.target_id w ≡ ok tt
unfolding report_ready
ready-target reporter d w e =
    elim (Outcome-cases (assert_target_exists reporter d.target_type d.target_id w)) [
      | inl (x, e') ↦ e'
      | inr (s, c, e') ↦ let refused : err s c ≡ ok tt = rw (e', bind) at e in cc
    ]

-- The check of the second report comes down to the window.
report_ready-again :
    (reporter t : ℕ) (d : ReportInput) (reason : ReportReason) (detail : Option String) (w : World)
    → report_ready reporter d w ≡ ok tt
    → report_ready reporter (again d reason detail) (at_time t (reported reporter d w)) ≡ (
        if any
            (is_recent reporter d.target_type d.target_id (t - recent_duplicate_window_ms))
            w.reports
          || leb (t - recent_duplicate_window_ms) w.now
        then err HttpStatus.conflict AppErrorCode.report_recent_duplicate
        else ok tt)
unfolding report_ready assert_no_recent_duplicate
report_ready-again reporter t d reason detail w e =
    let since = t - recent_duplicate_window_ms in
    let there : assert_target_exists reporter d.target_type d.target_id
          (at_time t (reported reporter d w))
        ≡ ok tt =
      target-reported reporter t d w d.target_type d.target_id ∙ ready-target reporter d w e in
    let split =
      any-append (is_recent reporter d.target_type d.target_id since) w.reports
        (new_report reporter d w ∷ []) in
    let new = recent_new reporter since d w in rw (there, bind, split, new) (ground arith)

abbrev window_verdict : ℕ → World → Bool → Outcome (Unit {0})
window_verdict t w earlier =
    if earlier || leb (t - recent_duplicate_window_ms) w.now
    then err HttpStatus.conflict AppErrorCode.report_recent_duplicate
    else ok tt

soon_refused :
    (t : ℕ) (w : World) (earlier : Bool)
    → leb t (w.now + recent_duplicate_window_ms) ≡ true
    → window_verdict t w earlier ≡ err HttpStatus.conflict AppErrorCode.report_recent_duplicate
soon_refused t w earlier h = ground arith

late_since :
    (t : ℕ) (w : World)
    → leb t (w.now + recent_duplicate_window_ms) ≡ false
    → w.now < t - recent_duplicate_window_ms
late_since t w h = ground arith

late_accepted :
    (t : ℕ) (w : World) (earlier : Bool)
    → earlier ≡ false
    → leb t (w.now + recent_duplicate_window_ms) ≡ false
    → window_verdict t w earlier ≡ ok tt
late_accepted t w earlier none_before h = ground arith

-- A report that was accepted, at a time ahead of which no report is dated, bars the same user from
-- another on the same target, for whatever reason, until ten minutes have passed, and a report that
-- is refused changes nothing; after that it is accepted again.
pub create_report-again :
    (reporter t : ℕ) (d : ReportInput) (reason : ReportReason) (detail : Option String) (w : World)
    → report_ready reporter d w ≡ ok tt
    → All (λ r. r.created_at ≤ w.now) w.reports
    → create_report reporter (again d reason detail) (at_time t (create_report reporter d w).1) ≡ (
        let later = at_time t (reported reporter d w) in
        if leb t (w.now + recent_duplicate_window_ms)
        then (err HttpStatus.conflict AppErrorCode.report_recent_duplicate, later)
        else (
          ok (new_report reporter (again d reason detail) later),
          reported reporter (again d reason detail) later,
        ))
create_report-again reporter t d reason detail w e dated =
    rw (create_report-ready reporter d w e)
      (elim (Bool-cases (leb t (w.now + recent_duplicate_window_ms))) [
        | inl soon ↦ rw soon (
            create_report-refused reporter (again d reason detail)
              (at_time t (reported reporter d w)) _ _
              (report_ready-again reporter t d reason detail w e
                ∙ soon_refused t w (any _ w.reports) soon))
        | inr late ↦ rw late (
            create_report-ready reporter (again d reason detail) (at_time t (reported reporter d w))
              (report_ready-again reporter t d reason detail w e
                ∙ late_accepted t w _
                    (none_recent reporter _ w.now d.target_type d.target_id w.reports
                      (late_since t w late) dated)
                    late))
      ])
