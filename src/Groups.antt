-- ===== src/Groups.antt =====
-- Access to a group: getGroupAccessContext, the two assertions and the capability flags of
-- groups/groups.service.ts. Log lines and the debug details of the exceptions are left out.
pub mod Capabilities
pub mod Changes
pub mod Members
pub mod GroupRequests
pub mod Handlers
use inhouse_maker_core_serve.Common.{
  ℕ, Bool, true, false, not, ◌&&◌, ◌||◌, Option, none, some, List, if◌then◌else◌, ◌==◌, nat_eq,
  find?, is_some,
}
use inhouse_maker_core_serve.Model.Enums.{GroupRole, role_eq}
use inhouse_maker_core_serve.Model.World.{World, Group, GroupMember, User}
use inhouse_maker_core_serve.Model.Outcome.{
  Outcome, ok, err, ◌>>=◌, ◌>>◌, reject_if, HttpStatus, AppErrorCode,
}

-- GroupAccessContext, without the visibility.
pub record GroupAccess : Type 0 where
  pub requester : Option ℕ
  pub group_exists : Bool
  pub group_archived_at : Option ℕ
  pub is_member : Bool
  pub is_leader : Bool
  pub member_role : Option GroupRole

abbrev pub find_group : ℕ → World → Option Group
find_group group w = find? (λ g. g.id == group) w.groups

-- `groupMember.findUnique` on group and user.
abbrev pub find_membership : ℕ → ℕ → World → Option GroupMember
find_membership group user w = find? (λ m. m.group_id == group && m.user_id == user) w.members

abbrev role_of : Option GroupMember → Option GroupRole
role_of none = none
role_of (some m) = some m.role

abbrev no_access : Option ℕ → GroupAccess
no_access requester = record {
  requester = requester;
  group_exists = false;
  group_archived_at = none;
  is_member = false;
  is_leader = false;
  member_role = none;
}

-- toGroupAccessContext, where the membership is the one that was selected for the requester.
abbrev to_access : Option ℕ → Option GroupMember → Option Group → GroupAccess
to_access requester membership none = no_access requester
to_access requester membership (some g) = record {
  requester = requester;
  group_exists = true;
  group_archived_at = g.archived_at;
  is_member = is_some membership;
  is_leader = elim requester [ none ↦ false | some u ↦ g.owner_user_id == u ];
  member_role = role_of membership;
}

unfoldable pub group_access : ℕ → Option ℕ → World → GroupAccess
group_access group requester w =
    to_access requester (elim requester [ none ↦ none | some u ↦ find_membership group u w ])
      (find_group group w)

abbrev pub is_group_admin_role : Option GroupRole → Bool
is_group_admin_role none = false
is_group_admin_role (some r) = r == GroupRole.owner || r == GroupRole.admin

-- assertActiveGroupAccess
unfoldable pub assert_active : GroupAccess → Outcome (Unit {0})
assert_active a = do
  reject_if (not a.group_exists) HttpStatus.not_found AppErrorCode.group_not_found
  reject_if (is_some a.group_archived_at) HttpStatus.not_found AppErrorCode.group_unavailable

unfoldable pub assert_group_member : ℕ → ℕ → World → Outcome GroupAccess
unfolding group_access assert_active
assert_group_member group user w =
    let a = group_access group (some user) w in
    do
      assert_active a
      reject_if (not a.is_member) HttpStatus.forbidden AppErrorCode.group_access_forbidden
      ok a

unfoldable pub assert_group_admin : ℕ → ℕ → World → Outcome GroupAccess
unfolding group_access assert_active
assert_group_admin group user w =
    let a = group_access group (some user) w in
    do
      assert_active a
      reject_if (not a.is_member || not (is_group_admin_role a.member_role)) HttpStatus.forbidden
          AppErrorCode.group_access_forbidden
      ok a

-- getRequesterAdminFlag, and `user?.isAdmin` elsewhere.
abbrev pub is_system_admin : ℕ → World → Bool
is_system_admin user w = elim (find? (λ u. u.id == user) w.users) [
  | none ↦ false
  | some u ↦ u.is_admin
]

pub data BlockedReason : Type 0 where
  auth_required group_not_found group_archived not_group_member not_group_leader : BlockedReason

pub data Capability : Type 0 where
  invite create_match view_members edit_group : Capability

-- What is left of resolveCapabilityBlockedReason for a member.
abbrev member_blocked_reason : GroupAccess → Capability → Option BlockedReason
member_blocked_reason a Capability.invite =
    if is_group_admin_role a.member_role then none else some BlockedReason.not_group_leader
member_blocked_reason a Capability.edit_group =
    if a.is_leader then none else some BlockedReason.not_group_leader
member_blocked_reason a _ = none

abbrev is_edit_group : Capability → Bool
is_edit_group Capability.edit_group = true
is_edit_group _ = false

unfoldable pub blocked_reason : GroupAccess → Bool → Capability → Option BlockedReason
blocked_reason a requester_is_system_admin capability =
    if not (is_some a.requester)
    then some BlockedReason.auth_required
    else if not a.group_exists
    then some BlockedReason.group_not_found
    else if is_some a.group_archived_at
    then some BlockedReason.group_archived
    else if is_edit_group capability && requester_is_system_admin
    then none
    else if not a.is_member
    then some BlockedReason.not_group_member
    else member_blocked_reason a capability

-- resolveCapability(...).allowed
unfoldable pub allowed : GroupAccess → Bool → Capability → Bool
unfolding blocked_reason
allowed a requester_is_system_admin capability =
    not (is_some (blocked_reason a requester_is_system_admin capability))
