-- ===== src/Users.antt =====
-- Users: users/users.service.ts. The positions that power/power-profile.contract.ts assigns, the
-- champions and the power trend are left out of the responses, and log lines everywhere. What comes
-- from libraries, and the file storage behind its interface, is the parameter `UserPorts`.
pub mod Handlers
pub mod Withdrawn
pub mod Invites
pub mod Invitable
use inhouse_maker_core_serve.Common.{
  ℕ, ◌+◌, ◌*◌, Bool, true, false, not, ◌&&◌, ◌||◌, Option, none, some, List, [], ◌∷◌, if◌then◌else◌,
  ◌==◌, nat_eq, string_eq, any, filter, find?, length, contains, is_some, or_else, ltb, String,
}
use inhouse_maker_core_serve.Model.Kinds.{UserStatus}
use inhouse_maker_core_serve.Model.World.{World, User, GroupMember}
use inhouse_maker_core_serve.Model.Outcome.{
  Outcome, ok, err, ◌>>=◌, ◌>>◌, reject_if, or_reject, HttpStatus, AppErrorCode,
}
use inhouse_maker_core_serve.Groups.{find_membership}
use inhouse_maker_core_serve.Auth.{is_user}
use inhouse_maker_core_serve.Blocks.{BlockVisibility, resolve_visibility}

-- The text of an id; the URL that the file storage gives to a file, by its random UUID, its type and
-- its name; `trim()`, `toLocaleLowerCase()`, `startsWith`, `contains` without regard to case, and a
-- positive `localeCompare(_, 'ko')`.
pub record UserPorts : Type 0 where
  pub id_text : ℕ → String
  pub url_of : ℕ → String → String → String
  pub trim : String → String
  pub lower : String → String
  pub starts_with : String → String → Bool
  pub contains_text : String → String → Bool
  pub comes_after : String → String → Bool

-- ensureUserExists, and the reads that throw createUserNotFoundException.
unfoldable pub existing_user : ℕ → World → Outcome User
existing_user user w =
    or_reject (find? (is_user user) w.users) HttpStatus.not_found AppErrorCode.user_not_found

-- `parseStringArray`
abbrev pub tags_of : Option (List String) → List String
tags_of none = []
tags_of (some ts) = ts

-- MeResponseDto
pub record Me : Type 0 where
  pub id : ℕ
  pub email : String
  pub nickname : String
  pub status : UserStatus
  pub profile_image_url : Option String
  pub is_fill_available : Bool
  pub style_tags : List String
  pub manner_score : ℕ
  pub noshow_count : ℕ

abbrev pub me_of : User → Me
me_of u = record {
  id = u.id;
  email = u.email;
  nickname = u.nickname;
  status = u.status;
  profile_image_url = u.profile_image_url;
  is_fill_available = u.is_fill_available;
  style_tags = tags_of u.style_tags;
  manner_score = u.manner_score;
  noshow_count = u.noshow_count;
}

unfoldable pub get_me : ℕ → World → Outcome Me
unfolding existing_user
get_me user w = do u ← existing_user user w; ok (me_of u)

-- UploadedProfileImageFile
pub record ImageFile : Type 0 where
  pub buffer_length : Option ℕ
  pub original_name : String
  pub mime_type : String
  pub size : ℕ

abbrev pub profile_image_max_bytes : ℕ
profile_image_max_bytes = 2 * 1024 * 1024

abbrev allowed_mime_types : List String
allowed_mime_types = "image/jpeg" ∷ "image/png" ∷ []

-- What assertValidProfileImageFile asks of a file with a buffer of that length.
abbrev valid_image : ImageFile → ℕ → Outcome ImageFile
valid_image f n = do
  reject_if (n == 0) HttpStatus.bad_request AppErrorCode.profile_image_required
  reject_if (ltb profile_image_max_bytes f.size || ltb profile_image_max_bytes n)
      HttpStatus.payload_too_large AppErrorCode.profile_image_too_large
  reject_if (not (contains f.mime_type allowed_mime_types)) HttpStatus.bad_request
      AppErrorCode.profile_image_invalid_type
  ok f

abbrev valid_buffer : ImageFile → Option ℕ → Outcome ImageFile
valid_buffer f none = err HttpStatus.bad_request AppErrorCode.profile_image_required
valid_buffer f (some n) = valid_image f n

-- assertValidProfileImageFile
unfoldable pub assert_valid_image : Option ImageFile → Outcome ImageFile
assert_valid_image none = err HttpStatus.bad_request AppErrorCode.profile_image_required
assert_valid_image (some f) = valid_buffer f f.buffer_length

-- `groupMember.count` in one group, and `inhouseGroup.count` over all.
unfoldable pub shared_count : ℕ → ℕ → Option ℕ → World → ℕ
shared_count requester target (some group) w =
    length (
      filter (λ m. m.group_id == group && (m.user_id == requester || m.user_id == target))
        w.members)
shared_count requester target none w = length (
    filter
      (λ g. is_some (find_membership g.id requester w) && is_some (find_membership g.id target w))
      w.groups)

abbrev least_shared : Option ℕ → ℕ
least_shared none = 1
least_shared (some group) = 2

-- assertCanAccessUserScopedResource
unfoldable pub assert_can_access : ℕ → ℕ → Option ℕ → World → Outcome (Unit {0})
assert_can_access requester target group w =
    if requester == target
    then ok tt
    else reject_if (ltb (shared_count requester target group w) (least_shared group))
        HttpStatus.forbidden AppErrorCode.group_access_forbidden

-- UserProfileResponseDto
pub record Profile : Type 0 where
  pub id : ℕ
  pub nickname : String
  pub profile_image_url : Option String
  pub is_fill_available : Bool
  pub recent_power : Option ℕ
  pub profile_visible : Bool
  pub is_blocked_by_me : Bool
  pub is_blocked_user : Bool
  pub can_interact : Bool
  pub style_tags : List String
  pub manner_score : ℕ
  pub noshow_count : ℕ

abbrev hidden_profile : User → BlockVisibility → Profile
hidden_profile u v = record {
  id = u.id;
  nickname = u.nickname;
  profile_image_url = u.profile_image_url;
  is_fill_available = false;
  recent_power = none;
  profile_visible = false;
  is_blocked_by_me = v.is_blocked_by_me;
  is_blocked_user = v.is_blocked_user;
  can_interact = false;
  style_tags = [];
  manner_score = u.manner_score;
  noshow_count = u.noshow_count;
}

abbrev visible_profile : User → BlockVisibility → Profile
visible_profile u v = record (hidden_profile u v) {
  is_fill_available = u.is_fill_available;
  recent_power = u.overall_power;
  profile_visible = true;
  can_interact = v.can_interact;
  style_tags = tags_of u.style_tags;
}

unfoldable pub get_user_profile : ℕ → ℕ → World → Outcome Profile
unfolding assert_can_access existing_user resolve_visibility
get_user_profile requester target w =
    let v = resolve_visibility requester target w in
    do
      assert_can_access requester target none w
      u ← existing_user target w
      ok (if v.visible then visible_profile u v else hidden_profile u v)
