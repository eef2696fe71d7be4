-- ===== src/Recruiting/Flags.antt =====
-- What a response of recruiting/recruiting.service.ts tells the requester, against what the handlers
-- then do.
use inhouse_maker_core_serve.Common.{
  filter, ℕ, ◌≡◌, ◌↔◌, true, false, not, ◌&&◌, some, [], ◌∷◌, ◌++◌, arith, is_some, nat_eq,
  find_where-find?, change_first,
}
use inhouse_maker_core_serve.Model.Kinds.{GroupVisibility, visibility_eq, post_status_eq}
use inhouse_maker_core_serve.Model.World.{World, RecruitingPost, AuditAction}
use inhouse_maker_core_serve.Model.Outcome.{ok, ◌>>=◌ as bind}
use inhouse_maker_core_serve.Model.Action.{◌>>=◌}
use inhouse_maker_core_serve.Blocks.{visible_author}
use inhouse_maker_core_serve.Groups.{
  find_membership, group_access, assert_active, assert_group_member,
}
use inhouse_maker_core_serve.Recruiting.{
  is_post, applies, has_applied, has_visibility, in_active_group, is_live, find_post_detail,
  get_post_ready, private_needs_member, apply_ready,
}
use inhouse_maker_core_serve.Recruiting.Changes.{UpdatePost, updated_post}
use inhouse_maker_core_serve.Recruiting.Detail.{
  first_of, first_of-filter, detail_of, to_detail, apply_blocked_reason,
}
use inhouse_maker_core_serve.Recruiting.Ready.{apply_ready-IsOpenTo}

-- In a group that is not archived, a member passes assertGroupMember.
member-private_needs_member :
    (u : ℕ) (p : RecruitingPost) (w : World)
    → in_active_group p w ≡ true
    → (has_visibility GroupVisibility.private_group p w
        && not (is_some (find_membership p.group_id u w)))
      ≡ false
    → private_needs_member u p w ≡ ok tt
unfolding private_needs_member assert_group_member group_access assert_active
member-private_needs_member u p w active h = ground arith

get_post_ready-found :
    (u k : ℕ) (w : World) (p : RecruitingPost)
    → get_post_ready u k w ≡ ok p
    → (find_post_detail k u w ≡ some p)
      × ((has_visibility GroupVisibility.private_group p w
            && not (is_some (find_membership p.group_id u w)))
          ≡ false)
unfolding get_post_ready
get_post_ready-found u k w p e = (ground arith, ground arith)

found-active :
    (u k : ℕ) (w : World) (p : RecruitingPost)
    → find_post_detail k u w ≡ some p
    → in_active_group p w ≡ true
unfolding find_post_detail
found-active u k w p read =
    let (found, kept) =
      find_where-find? (is_post k) (λ p. is_live w p && visible_author u p.created_by w) w.posts p
        read in
    ground arith

-- The flag `canApply` on a post that its reader may see is set exactly if an application by that
-- reader would pass the checks, on public and private groups alike.
pub can_apply-apply_ready :
    (u k : ℕ) (w : World) (p : RecruitingPost)
    → get_post_ready u k w ≡ ok p
    → ((detail_of p u w).can_apply ≡ true) ↔ (apply_ready u k w ≡ ok p)
unfolding detail_of to_detail apply_blocked_reason apply_ready
can_apply-apply_ready u k w p e =
    let (read, admitted) = get_post_ready-found u k w p e in
    let active = found-active u k w p read in
    let member = member-private_needs_member u p w active admitted in
    let same : is_some (first_of (some (filter (applies u) p.applications))) ≡ has_applied u p =
      first_of-filter (applies u) p.applications in
    (
      λ h. rw (read, bind, member) (ground arith),
      λ h.
          let t = apply_ready-IsOpenTo u k w p h in
          let other = t.other in
          let unapplied = t.new in let opened = t.opened in let room = t.room in ground arith,
    )

abbrev updated : ℕ → ℕ → UpdatePost → World → World
updated u k d w = record w {
  posts = change_first (is_post k) (updated_post d) w.posts;
  audit_log =
      w.audit_log
      ++ record { user_id = some u; action = AuditAction.recruiting_updated; entity_id = k } ∷ [];
}
