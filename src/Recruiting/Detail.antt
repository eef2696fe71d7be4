-- ===== src/Recruiting/Detail.antt =====
-- The response for one post: toDetail and resolveApplyCapability of
-- recruiting/recruiting.service.ts. `updatedAt` is left out.
use inhouse_maker_core_serve.Common.{
  ◌≡◌, refl, Bool-cases, any, filter, ◌∷◌, inl, inr, ℕ, ◌-◌, Bool, false, not, Option, none, some,
  List, [], if◌then◌else◌, ◌==◌, nat_eq, is_some, or_else, length, String,
}
use inhouse_maker_core_serve.Model.Enums.{Position}
use inhouse_maker_core_serve.Model.Kinds.{RecruitingPostType, RecruitingPostStatus, post_status_eq}
use inhouse_maker_core_serve.Model.World.{World, Application, RecruitingPost}
use inhouse_maker_core_serve.Groups.{
  group_access, is_system_admin, BlockedReason, Capability, blocked_reason,
}
use inhouse_maker_core_serve.Recruiting.{applies, applicant_capacity, is_full}

pub data ApplyBlockedReason : Type 0 where
  auth_required own_post already_applied recruiting_closed capacity_reached : ApplyBlockedReason

-- resolveApplyCapability; the application is possible when there is no reason.
unfoldable pub apply_blocked_reason :
    Option ℕ → ℕ → RecruitingPostStatus → Option ℕ → ℕ → Bool → Option ApplyBlockedReason
apply_blocked_reason none created_by status capacity count is_applied =
    some ApplyBlockedReason.auth_required
apply_blocked_reason (some requester) created_by status capacity count is_applied =
    if created_by == requester
    then some ApplyBlockedReason.own_post
    else if is_applied
    then some ApplyBlockedReason.already_applied
    else if not (status == RecruitingPostStatus.recruiting)
    then some ApplyBlockedReason.recruiting_closed
    else if is_full capacity count
    then some ApplyBlockedReason.capacity_reached
    else none

-- RecruitingPostResponseDto
pub record PostDetail : Type 0 where
  pub id : ℕ
  pub group_id : ℕ
  pub post_type : RecruitingPostType
  pub title : String
  pub body : Option String
  pub tags : List String
  pub required_positions : List Position
  pub status : RecruitingPostStatus
  pub scheduled_at : Option ℕ
  pub created_by : ℕ
  pub created_at : ℕ
  pub capacity : Option ℕ
  pub remaining_slots : Option ℕ
  pub applicant_count : ℕ
  pub is_applied : Bool
  pub can_apply : Bool
  pub apply_blocked : Option ApplyBlockedReason
  pub create_match_blocked : Option BlockedReason
  pub invite_members_blocked : Option BlockedReason
  pub my_application : Option Application

-- The reason that getGroupCapabilities gives for one capability.
abbrev group_capability : ℕ → Option ℕ → Capability → World → Option BlockedReason
group_capability group requester capability w =
    blocked_reason (group_access group requester w)
      (elim requester [ none ↦ false | some u ↦ is_system_admin u w ]) capability

-- `Math.max(0, capacity - applicantCount)`
abbrev remaining : Option ℕ → ℕ → Option ℕ
remaining none count = none
remaining (some capacity) count = some (capacity - count)

-- `_count?` and `applications?` of a post, which only some queries select.
pub record Selected : Type 0 where
  pub count : Option ℕ
  pub applications : Option (List Application)

-- `post.applications?.[0] ?? null`
abbrev pub first_of : Option (List Application) → Option Application
first_of none = none
first_of (some []) = none
first_of (some (a ∷ rest)) = some a

-- toDetail
unfoldable pub to_detail : RecruitingPost → Selected → Option ℕ → World → PostDetail
unfolding apply_blocked_reason
to_detail p selected requester w =
    let capacity = applicant_capacity p in
    let count = or_else selected.count 0 in
    let mine = first_of selected.applications in
    let reason =
      apply_blocked_reason requester p.created_by p.status capacity count (is_some mine) in
    record {
      id = p.id;
      group_id = p.group_id;
      post_type = p.post_type;
      title = p.title;
      body = p.body;
      tags = or_else p.tags [];
      required_positions = p.required_positions;
      status = p.status;
      scheduled_at = p.scheduled_at;
      created_by = p.created_by;
      created_at = p.created_at;
      capacity = capacity;
      remaining_slots = remaining capacity count;
      applicant_count = count;
      is_applied = is_some mine;
      can_apply = not (is_some reason);
      apply_blocked = reason;
      create_match_blocked = group_capability p.group_id requester Capability.create_match w;
      invite_members_blocked = group_capability p.group_id requester Capability.invite w;
      my_application = mine;
    }

-- What findPostDetail selects: the count, and the applications of the requester.
abbrev pub selected_detail : RecruitingPost → ℕ → Selected
selected_detail p requester = record {
  count = some (length p.applications);
  applications = some (filter (applies requester) p.applications);
}

-- The response for a post that was read with findPostDetail.
unfoldable pub detail_of : RecruitingPost → ℕ → World → PostDetail
unfolding to_detail
detail_of p requester w = to_detail p (selected_detail p requester) (some requester) w

-- The `update` of updatePost selects neither.
abbrev pub selected_update : Selected
selected_update = record { count = none; applications = none }

-- The response of updatePost.
unfoldable pub detail_of_updated : RecruitingPost → ℕ → World → PostDetail
unfolding to_detail
detail_of_updated p requester w = to_detail p selected_update (some requester) w

pub first_of-filter :
    (f : Application → Bool) (xs : List Application)
    → is_some (first_of (some (filter f xs))) ≡ any f xs
first_of-filter f [] = refl
first_of-filter f (x ∷ xs) = elim (Bool-cases (f x)) [
  | inl hit ↦ rw hit refl
  | inr miss ↦ rw miss (first_of-filter f xs)
]
