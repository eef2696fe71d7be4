-- ===== src/Examples/Community.antt =====
-- Blocks, groups, recruiting posts, reports and notifications of the group of Examples/Data.antt.
use inhouse_maker_core_serve.Common.{
  ℕ, ◌+◌, ◌≡◌, refl, none, some, List, [], ◌∷◌, All, arith, leb, if◌then◌else◌,
}
use inhouse_maker_core_serve.Model.Kinds.{ReportTargetType, ReportReason}
use inhouse_maker_core_serve.Model.World.{World, NotificationInput, NotificationType}
use inhouse_maker_core_serve.Model.Outcome.{ok, err, HttpStatus, AppErrorCode}
use inhouse_maker_core_serve.Model.Action.{created_notification}
use inhouse_maker_core_serve.Blocks.{block_ready, unblock_ready, resolve_visibility, visible_author}
use inhouse_maker_core_serve.Blocks.Handlers.{block_user, unblock_user, remove_block, upsert_block}
use inhouse_maker_core_serve.Blocks.Spec.{
  BlockRequest, blocks_of, serve_all as block_all, replay_all, is_active, serve_all-replay_all,
  resolve_visibility-visible_author,
}
use inhouse_maker_core_serve.Admin.Paging.{walk, walk-drop}
use inhouse_maker_core_serve.Admin.{drop}
use inhouse_maker_core_serve.Notifications.{dispatch}
use inhouse_maker_core_serve.Notifications.Life.{
  Event, IsConsistent, serve_all as live_all, serve_all-AllConsistent,
}
use inhouse_maker_core_serve.Notifications.Delivery.{IsDispatched, dispatch-dispatch}
use inhouse_maker_core_serve.Reports.{
  ReportInput, assert_target_exists, assert_no_recent_duplicate, report_ready,
  recent_duplicate_window_ms,
}
use inhouse_maker_core_serve.Reports.Handlers.{create_report, new_report}
use inhouse_maker_core_serve.Reports.Window.{again, at_time, reported, create_report-again}
use inhouse_maker_core_serve.Examples.Data.{no_matches}

-- 1 blocks 2, thinks better of it, and is blocked by 2.
abbrev quarrel : List BlockRequest
quarrel = BlockRequest.block 1 2 ∷ BlockRequest.unblock 1 2 ∷ BlockRequest.block 2 1 ∷ []

serve_all-replay_all_example :
    blocks_of (block_all quarrel no_matches)
    ≡ replay_all (is_active no_matches) quarrel (blocks_of no_matches)
serve_all-replay_all_example = serve_all-replay_all quarrel no_matches

resolve_visibility-visible_author_example :
    ((resolve_visibility 1 2 (block_all quarrel no_matches)).visible
      ≡ visible_author 1 2 (block_all quarrel no_matches))
    × (visible_author 1 2 (block_all quarrel no_matches)
        ≡ visible_author 2 1 (block_all quarrel no_matches))
unfolding block_all block_user block_ready unblock_user unblock_ready remove_block upsert_block
resolve_visibility-visible_author_example =
    resolve_visibility-visible_author 1 2 (block_all quarrel no_matches) refl

abbrev four_rows : List ℕ
four_rows = 4 ∷ 5 ∷ 6 ∷ 7 ∷ []

walk-drop_example : walk 3 2 1 four_rows ≡ drop 1 four_rows
walk-drop_example = walk-drop 3 2 1 four_rows (omega arith) (omega arith)

abbrev ping : NotificationInput
ping = record { user_id = 2; kind = NotificationType.recruiting_posted; related_entity_id = 50 }

abbrev busy_day : List Event
busy_day =
    Event.created (ping ∷ ping ∷ [])
    ∷ Event.dispatched 100
    ∷ Event.read 2 101
    ∷ Event.dispatched 101
    ∷ Event.all_read 2
    ∷ []

serve_all-AllConsistent_example : All IsConsistent (live_all busy_day no_matches).notifications
serve_all-AllConsistent_example = serve_all-AllConsistent busy_day no_matches tt

abbrev pinged : World
pinged = record no_matches { notifications = created_notification 100 ping ∷ [] }

dispatch-dispatch_example :
    IsDispatched 100 (dispatch 100 pinged).1
    × (dispatch 100 (dispatch 100 pinged).1 ≡ (ok tt, (dispatch 100 pinged).1))
dispatch-dispatch_example = dispatch-dispatch 100 pinged (created_notification 100 ping) refl

abbrev complaint : ReportInput
complaint = record {
  target_type = ReportTargetType.user;
  target_id = 2;
  reason = ReportReason.spam;
  detail = none;
}

abbrev another : ReportInput
another = again complaint ReportReason.harassment (some "again")

complaint-ready : report_ready 1 complaint no_matches ≡ ok tt
unfolding report_ready assert_target_exists assert_no_recent_duplicate
complaint-ready = refl

create_report-again_example :
    create_report 1 another (at_time 600 (create_report 1 complaint no_matches).1) ≡ (
      let later = at_time 600 (reported 1 complaint no_matches) in
      if leb 600 (1000 + recent_duplicate_window_ms)
      then (err HttpStatus.conflict AppErrorCode.report_recent_duplicate, later)
      else (ok (new_report 1 another later), reported 1 another later))
create_report-again_example =
    create_report-again 1 600 complaint ReportReason.harassment (some "again") no_matches
      complaint-ready tt
