-- ===== src/Recruiting/Handlers.antt =====
-- The handlers of recruiting/recruiting.service.ts that write.
use inhouse_maker_core_serve.Common.{
  ℕ, ◌+◌, not, ◌&&◌, some, List, [], ◌∷◌, ◌++◌, ◌==◌, nat_eq, map, change_first, filter,
}
use inhouse_maker_core_serve.Model.World.{
  World, GroupMember, RecruitingPost, AuditAction, NotificationType, NotificationInput,
}
use inhouse_maker_core_serve.Model.Outcome.{reject_if, HttpStatus, AppErrorCode}
use inhouse_maker_core_serve.Model.Action.{
  Action, ◌>>=◌, ◌>>◌, check, gets, modify, pure, audit, create_many,
}
use inhouse_maker_core_serve.Groups.{assert_group_member}
use inhouse_maker_core_serve.Recruiting.{
  is_post, has_applied, get_post_ready, accessible_post, mutable_post, apply_ready, cancel_ready,
}
use inhouse_maker_core_serve.Recruiting.Detail.{PostDetail, detail_of, detail_of_updated}
use inhouse_maker_core_serve.Recruiting.Changes.{
  CreatePost, UpdatePost, ApplyInput, new_post, is_empty_update, updated_post, deleted_post,
  new_application, with_application, without_application,
}

-- getPost
unfoldable pub get_post : ℕ → ℕ → Action PostDetail
get_post requester post = do p ← check (get_post_ready requester post); gets (detail_of p requester)

-- getAccessiblePostDetail
unfoldable pub accessible_post_detail : ℕ → ℕ → Action PostDetail
accessible_post_detail requester post = do
  p ← check (accessible_post requester post)
  gets (detail_of p requester)

abbrev write_post : ℕ → (RecruitingPost → RecruitingPost) → Action (Unit {0})
write_post post f = modify λ w. record w { posts = change_first (is_post post) f w.posts }

-- The members of the group other than the author are told.
abbrev posted_notifications : ℕ → ℕ → ℕ → World → List NotificationInput
posted_notifications post group requester w =
    map
      (λ (m : GroupMember). record {
        user_id = m.user_id;
        kind = NotificationType.recruiting_posted;
        related_entity_id = post;
      })
      (filter (λ m. m.group_id == group && not (m.user_id == requester)) w.members)

unfoldable pub create_post : ℕ → CreatePost → Action PostDetail
create_post requester d = do
  access ← check (assert_group_member d.group_id requester)
  k ← gets (λ w. w.next_id)
  modify (λ w. record w { posts = w.posts ++ new_post k requester w.now d ∷ []; next_id = k + 1 })
  told ← gets (posted_notifications k d.group_id requester)
  create_many told
  accessible_post_detail requester k

unfoldable pub update_post : ℕ → ℕ → UpdatePost → Action PostDetail
update_post requester post d = do
  p ← check (mutable_post requester post)
  check (λ w. reject_if (is_empty_update d) HttpStatus.bad_request AppErrorCode.validation_error)
  write_post post (updated_post d)
  audit (some requester) AuditAction.recruiting_updated post
  gets (detail_of_updated (updated_post d p) requester)

-- The response of deletePost is the time of the deletion.
unfoldable pub delete_post : ℕ → ℕ → Action ℕ
delete_post requester post = do
  p ← check (mutable_post requester post)
  now ← gets (λ w. w.now)
  write_post post (deleted_post now)
  audit (some requester) AuditAction.recruiting_deleted post
  pure now

abbrev pub author_notification : NotificationType → RecruitingPost → NotificationInput
author_notification kind p = record {
  user_id = p.created_by;
  kind = kind;
  related_entity_id = p.id;
}

-- `create` with the unique index on post and user (P2002).
unfoldable pub create_application : ℕ → RecruitingPost → ApplyInput → Action (Unit {0})
create_application requester p d = do
  check (λ w. reject_if (has_applied requester p) HttpStatus.conflict AppErrorCode.already_applied)
  modify (λ w. record w {
    posts =
        change_first (is_post p.id) (with_application (new_application w.next_id requester w.now d))
          w.posts;
    next_id = w.next_id + 1;
  })

unfoldable pub apply_to_post : ℕ → ℕ → ApplyInput → Action PostDetail
apply_to_post requester post d = do
  p ← check (apply_ready requester post)
  create_application requester p d
  audit (some requester) AuditAction.recruiting_apply post
  create_many (author_notification NotificationType.recruiting_applied p ∷ [])
  accessible_post_detail requester post

unfoldable pub cancel_application : ℕ → ℕ → Action PostDetail
cancel_application requester post = do
  found ← check (cancel_ready requester post)
  write_post post (without_application found.1.id)
  audit (some requester) AuditAction.recruiting_cancel post
  create_many (author_notification NotificationType.recruiting_application_cancelled found.0 ∷ [])
  accessible_post_detail requester post
