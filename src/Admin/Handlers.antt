-- ===== src/Admin/Handlers.antt =====
-- updateAdminFlag and updateRecruitingPostStatus of admin/admin.service.ts.
use inhouse_maker_core_serve.Common.{ℕ, Bool, some, change_first, ◌==◌, nat_eq}
use inhouse_maker_core_serve.Model.Kinds.{RecruitingPostStatus}
use inhouse_maker_core_serve.Model.World.{User, RecruitingPost, AuditAction}
use inhouse_maker_core_serve.Model.Action.{Action, ◌>>=◌, ◌>>◌, check, modify, pure, audit}
use inhouse_maker_core_serve.Recruiting.{is_post}
use inhouse_maker_core_serve.Admin.{admin_flag_ready, post_status_ready}

abbrev set_admin_flag : Bool → User → User
set_admin_flag flag u = record u { is_admin = flag }

unfoldable pub update_admin_flag : ℕ → ℕ → Bool → Action Bool
update_admin_flag requester target flag = do
  u ← check (admin_flag_ready requester target)
  modify
      (λ w. record w { users = change_first (λ u. u.id == target) (set_admin_flag flag) w.users })
  audit (some requester) AuditAction.admin_flag_changed target
  pure flag

unfoldable pub with_status : RecruitingPostStatus → RecruitingPost → RecruitingPost
with_status s p = record p { status = s }

unfoldable pub update_post_status : ℕ → ℕ → RecruitingPostStatus → Action RecruitingPostStatus
update_post_status requester post s = do
  p ← check (post_status_ready requester post)
  modify (λ w. record w { posts = change_first (is_post post) (with_status s) w.posts })
  audit (some requester) AuditAction.recruiting_status_changed post
  pure s
