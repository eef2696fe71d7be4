-- ===== src/Recruiting.antt =====
-- Recruiting posts and the applications to them: what recruiting/recruiting.service.ts looks up and
-- checks before it writes. Log lines are left out.
pub mod Detail
pub mod Changes
pub mod Handlers
pub mod Listing
pub mod Ready
pub mod Sound
pub mod Applied
pub mod RoundTrip
pub mod Flags
pub mod Listed
pub mod Requests
use inhouse_maker_core_serve.Common.{
  ℕ, Bool, true, false, not, ◌&&◌, ◌||◌, Option, none, some, List, [], ◌∷◌, if◌then◌else◌, ◌==◌,
  nat_eq, find?, find_where, any, is_some, length, leb,
}
use inhouse_maker_core_serve.Model.Kinds.{
  GroupVisibility, visibility_eq, RecruitingPostStatus, post_status_eq,
}
use inhouse_maker_core_serve.Model.World.{World, Application, RecruitingPost}
use inhouse_maker_core_serve.Model.Outcome.{
  Outcome, ok, ◌>>=◌, ◌>>◌, reject_if, or_reject, HttpStatus, AppErrorCode,
}
use inhouse_maker_core_serve.Blocks.{visible_author}
use inhouse_maker_core_serve.Groups.{
  find_group, find_membership, assert_group_member, is_system_admin,
}

-- `group: { is: { archivedAt: null } }`
abbrev pub in_active_group : RecruitingPost → World → Bool
in_active_group p w = elim (find_group p.group_id w) [
  | none ↦ false
  | some g ↦ not (is_some g.archived_at)
]

abbrev pub has_visibility : GroupVisibility → RecruitingPost → World → Bool
has_visibility v p w = elim (find_group p.group_id w) [ none ↦ false | some g ↦ g.visibility == v ]

-- The conditions on a post that cancelApplication and listApplicants set.
abbrev pub is_post : ℕ → RecruitingPost → Bool
is_post post p = p.id == post

abbrev pub is_live : World → RecruitingPost → Bool
is_live w p = not (is_some p.deleted_at) && in_active_group p w

abbrev pub find_live_post : ℕ → World → Option RecruitingPost
find_live_post post w = find_where (is_post post) (is_live w) w.posts

-- findPostDetail, and the same conditions in updatePost, deletePost and applyToPost.
unfoldable pub find_post_detail : ℕ → ℕ → World → Option RecruitingPost
find_post_detail post requester w =
    find_where (is_post post) (λ p. is_live w p && visible_author requester p.created_by w) w.posts

abbrev pub applies : ℕ → Application → Bool
applies user a = a.user_id == user

abbrev pub has_applied : ℕ → RecruitingPost → Bool
has_applied user p = any (applies user) p.applications

-- resolveApplicantCapacity
abbrev pub applicant_capacity : RecruitingPost → Option ℕ
applicant_capacity p = elim p.required_positions [
  | [] ↦ none
  | r ∷ rs ↦ some (length p.required_positions)
]

-- `capacity !== null && count >= capacity`
abbrev pub is_full : Option ℕ → ℕ → Bool
is_full none count = false
is_full (some capacity) count = leb capacity count

-- getPost, up to the response.
unfoldable pub get_post_ready : ℕ → ℕ → World → Outcome RecruitingPost
get_post_ready requester post w = do
  p ←
      or_reject (find_post_detail post requester w) HttpStatus.not_found
        AppErrorCode.recruiting_not_found
  reject_if
      (has_visibility GroupVisibility.private_group p w
        && not (is_some (find_membership p.group_id requester w)))
      HttpStatus.forbidden AppErrorCode.group_access_forbidden
  ok p

-- `if (post.group.visibility === PRIVATE) assertGroupMember(...)`
unfoldable pub private_needs_member : ℕ → RecruitingPost → World → Outcome (Unit {0})
private_needs_member requester p w =
    if has_visibility GroupVisibility.private_group p w
    then (assert_group_member p.group_id requester w >>= λ _. ok tt)
    else ok tt

-- getAccessiblePostDetail, up to the response.
unfoldable pub accessible_post : ℕ → ℕ → World → Outcome RecruitingPost
accessible_post requester post w = do
  p ←
      or_reject (find_post_detail post requester w) HttpStatus.not_found
        AppErrorCode.recruiting_not_found
  private_needs_member requester p w
  ok p

-- The checks that updatePost and deletePost share.
unfoldable pub mutable_post : ℕ → ℕ → World → Outcome RecruitingPost
mutable_post requester post w = do
  p ← or_reject (find_post_detail post requester w) HttpStatus.not_found AppErrorCode.not_found
  reject_if (not (p.created_by == requester) && not (is_system_admin requester w))
      HttpStatus.forbidden AppErrorCode.forbidden
  ok p

-- applyToPost, up to the write.
unfoldable pub apply_ready : ℕ → ℕ → World → Outcome RecruitingPost
apply_ready requester post w = do
  p ←
      or_reject (find_post_detail post requester w) HttpStatus.not_found
        AppErrorCode.recruiting_not_found
  reject_if (p.created_by == requester) HttpStatus.forbidden AppErrorCode.forbidden
  reject_if (not (p.status == RecruitingPostStatus.recruiting)) HttpStatus.conflict
      AppErrorCode.recruiting_closed
  private_needs_member requester p w
  reject_if (has_applied requester p) HttpStatus.conflict AppErrorCode.already_applied
  reject_if (is_full (applicant_capacity p) (length p.applications)) HttpStatus.conflict
      AppErrorCode.recruiting_closed
  ok p

-- cancelApplication, up to the write: the post and the application.
unfoldable pub cancel_ready : ℕ → ℕ → World → Outcome (RecruitingPost × Application)
cancel_ready requester post w = do
  p ← or_reject (find_live_post post w) HttpStatus.not_found AppErrorCode.recruiting_not_found
  a ←
      or_reject (find? (applies requester) p.applications) HttpStatus.not_found
        AppErrorCode.not_found
  ok (p, a)

-- listApplicants, up to the response.
unfoldable pub applicants_ready : ℕ → ℕ → World → Outcome RecruitingPost
applicants_ready requester post w = do
  p ← or_reject (find_live_post post w) HttpStatus.not_found AppErrorCode.not_found
  reject_if (not (p.created_by == requester) && not (is_system_admin requester w))
      HttpStatus.forbidden AppErrorCode.forbidden
  ok p
