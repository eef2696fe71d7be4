-- ===== src/Examples/Posts.antt =====
-- A recruiting post in the group of Examples/Data.antt, and members who apply to it; groups and their
-- members besides.
use inhouse_maker_core_serve.Common.{
  ℕ, ◌+◌, ◌≡◌, ◌↔◌, refl, true, false, none, some, List, [], ◌∷◌, All, any, length, arith,
}
use inhouse_maker_core_serve.Common.Sorting.{sort, insert_sorted}
use inhouse_maker_core_serve.Model.Enums.{Position, GroupRole}
use inhouse_maker_core_serve.Model.Kinds.{RecruitingPostType, RecruitingPostStatus}
use inhouse_maker_core_serve.Model.World.{World, RecruitingPost}
use inhouse_maker_core_serve.Model.Outcome.{ok}
use inhouse_maker_core_serve.Blocks.{visible_author}
use inhouse_maker_core_serve.Groups.{group_access, assert_active, assert_group_member}
use inhouse_maker_core_serve.Groups.Changes.{CreateGroup, AddMember}
use inhouse_maker_core_serve.Groups.GroupRequests.{
  GroupRequest, HasSoundGroups, serve_all as groups_all, serve_all-HasSoundGroups,
}
use inhouse_maker_core_serve.Recruiting.{
  apply_ready, get_post_ready, find_post_detail, private_needs_member, applies, applicant_capacity,
}
use inhouse_maker_core_serve.Recruiting.Changes.{ApplyInput, UpdatePost}
use inhouse_maker_core_serve.Recruiting.Detail.{detail_of}
use inhouse_maker_core_serve.Recruiting.Handlers.{apply_to_post, cancel_application}
use inhouse_maker_core_serve.Recruiting.Ready.{find_post}
use inhouse_maker_core_serve.Recruiting.Requests.{
  PostRequest, AllSound, serve_all as posts_all, serve_all-AllSound,
}
use inhouse_maker_core_serve.Recruiting.RoundTrip.{IsWithin, apply_to_post-IsWithin, cancel-apply}
use inhouse_maker_core_serve.Recruiting.Flags.{can_apply-apply_ready}
use inhouse_maker_core_serve.Recruiting.Listing.{
  PostQuery, list_posts, post_where, visible_group, member_group_ready, scheduled_at_filter,
}
use inhouse_maker_core_serve.Recruiting.Listed.{list_posts-get_post_ready}
use inhouse_maker_core_serve.Examples.Data.{no_matches}

abbrev wanted : RecruitingPost
wanted = record {
  id = 50;
  group_id = 30;
  created_by = 20;
  post_type = RecruitingPostType.member_recruit;
  title = "One more for Sunday";
  body = none;
  tags = none;
  scheduled_at = none;
  required_positions = Position.mid ∷ [];
  status = RecruitingPostStatus.recruiting;
  deleted_at = none;
  created_at = 900;
  applications = [];
}

abbrev posted : World
posted = record no_matches { posts = wanted ∷ [] }

posted-AllSound : AllSound posted
posted-AllSound = (record { once = tt; others = λ h. h; fresh = tt; cleared = λ h. refl }, tt)

abbrev me : ApplyInput
me = record { position = some Position.mid; memo = none }

abbrev closes : UpdatePost
closes = record {
  title = none;
  body = none;
  tags = none;
  scheduled_at = none;
  required_positions = none;
  status = some RecruitingPostStatus.closed;
}

abbrev a_busy_post : List PostRequest
a_busy_post =
    PostRequest.apply_for 1 50 me
    ∷ PostRequest.apply_for 2 50 me
    ∷ PostRequest.cancel 1 50
    ∷ PostRequest.apply_for 2 50 me
    ∷ PostRequest.update 20 50 closes
    ∷ PostRequest.delete 20 50
    ∷ PostRequest.set_status 20 50 RecruitingPostStatus.recruiting
    ∷ []

serve_all-AllSound_example : AllSound (posts_all a_busy_post posted)
serve_all-AllSound_example = serve_all-AllSound a_busy_post posted posted-AllSound

one-ready : apply_ready 1 50 posted ≡ ok wanted
unfolding apply_ready find_post_detail visible_author private_needs_member assert_group_member
    group_access assert_active
one-ready = refl

apply_to_post-IsWithin_example :
    (q : RecruitingPost) × (find_post 50 (apply_to_post 1 50 me posted).1 ≡ some q)
    × (length q.applications ≡ length wanted.applications + 1)
    × (any (applies 1) q.applications ≡ true)
    × IsWithin (applicant_capacity q) (length q.applications)
apply_to_post-IsWithin_example = apply_to_post-IsWithin 1 50 me posted wanted one-ready

cancel-apply_example :
    (cancel_application 1 50 (apply_to_post 1 50 me posted).1).1.posts ≡ posted.posts
cancel-apply_example = cancel-apply 1 50 me posted wanted posted-AllSound one-ready

one-reads : get_post_ready 1 50 posted ≡ ok wanted
unfolding get_post_ready find_post_detail visible_author
one-reads = refl

can_apply-apply_ready_example :
    ((detail_of wanted 1 posted).can_apply ≡ true) ↔ (apply_ready 1 50 posted ≡ ok wanted)
can_apply-apply_ready_example = can_apply-apply_ready 1 50 posted wanted one-reads

-- The same post with the application of 1.
abbrev wanted_by_one : RecruitingPost
wanted_by_one = record wanted {
  applications =
      record { id = 60; user_id = 1; position = some Position.mid; memo = none; created_at = 950 }
      ∷ [];
}

abbrev posted_with_one : World
posted_with_one = record no_matches { posts = wanted_by_one ∷ [] }

abbrev anything : PostQuery
anything = record {
  group_id = none;
  post_type = none;
  status = none;
  scheduled_from = none;
  scheduled_to = none;
  include_unscheduled = false;
  required_positions = [];
  region = [];
  tags = [];
  limit = none;
}

one-sees : list_posts 1 anything posted ≡ ok (wanted ∷ [])
unfolding list_posts sort insert_sorted post_where visible_group visible_author member_group_ready
    scheduled_at_filter
one-sees = refl

list_posts-get_post_ready_example : All (λ p. get_post_ready 1 p.id posted ≡ ok p) (wanted ∷ [])
list_posts-get_post_ready_example =
    list_posts-get_post_ready 1 anything posted (wanted ∷ []) (refl, tt) one-sees

abbrev new_club : CreateGroup
new_club = record {
  name = "Monday games";
  region = none;
  description = none;
  visibility = none;
  join_policy = none;
  tags = none;
}

abbrev invites : ℕ → GroupRole → AddMember
invites u role = record { user_id = u; role = some role }

abbrev a_club : List GroupRequest
a_club =
    GroupRequest.create 1 new_club
    ∷ GroupRequest.add 1 100 (invites 2 GroupRole.admin)
    ∷ GroupRequest.add 2 100 (invites 3 GroupRole.member)
    ∷ GroupRequest.add 2 100 (invites 3 GroupRole.owner)
    ∷ GroupRequest.delete 1 100
    ∷ []

abbrev small : World
small = record no_matches {
  members =
      record { group_id = 30; user_id = 20; role = GroupRole.owner }
      ∷ record { group_id = 30; user_id = 1; role = GroupRole.member }
      ∷ [];
}

small-HasSoundGroups : HasSoundGroups small
small-HasSoundGroups = record {
  group_ids = (omega arith, tt);
  member_ids = (omega arith, (omega arith, tt));
  unique = (refl, (refl, tt));
  owners = (refl, tt);
  only_owners = (refl, (refl, tt));
}

serve_all-HasSoundGroups_example : HasSoundGroups (groups_all a_club small)
serve_all-HasSoundGroups_example = serve_all-HasSoundGroups a_club small small-HasSoundGroups
