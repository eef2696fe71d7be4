-- ===== src/Groups/Capabilities.antt =====
-- The capability flags that a client is shown, against the assertions that guard the handlers of
-- groups/groups.service.ts and matches/matches.service.ts.
use inhouse_maker_core_serve.Common.{ℕ, ◌≡◌, ◌↔◌, Bool, true, some, arith}
use inhouse_maker_core_serve.Model.World.{World}
use inhouse_maker_core_serve.Model.Outcome.{ok}
use inhouse_maker_core_serve.Groups.{
  group_access, assert_group_member, assert_group_admin, Capability, allowed,
}

-- The flag for creating a match is shown exactly to those whom assertGroupMember lets through,
-- whether or not they are system admins.
create_match_flag :
    (group user : ℕ) (admin_flag : Bool) (w : World)
    → (allowed (group_access group (some user) w) admin_flag Capability.create_match ≡ true)
      ↔ (assert_group_member group user w ≡ ok (group_access group (some user) w))
unfolding allowed group_access assert_group_member
create_match_flag group user admin_flag w = ground arith

-- The flag for inviting is shown exactly to those whom assertGroupAdmin lets through, whether or
-- not they are system admins.
invite_flag :
    (group user : ℕ) (admin_flag : Bool) (w : World)
    → (allowed (group_access group (some user) w) admin_flag Capability.invite ≡ true)
      ↔ (assert_group_admin group user w ≡ ok (group_access group (some user) w))
unfolding allowed group_access assert_group_admin
invite_flag group user admin_flag w = ground arith

-- The flags for creating a match and for inviting are shown exactly to those whom assertGroupMember
-- and assertGroupAdmin let through, whether or not they are system admins.
pub access_flags :
    (group user : ℕ) (admin_flag : Bool) (w : World)
    → ((allowed (group_access group (some user) w) admin_flag Capability.create_match ≡ true)
        ↔ (assert_group_member group user w ≡ ok (group_access group (some user) w)))
      × ((allowed (group_access group (some user) w) admin_flag Capability.invite ≡ true)
          ↔ (assert_group_admin group user w ≡ ok (group_access group (some user) w)))
access_flags group user admin_flag w =
    (create_match_flag group user admin_flag w, invite_flag group user admin_flag w)
