-- ===== src/Groups/Changes.antt =====
-- The writes to groups and their members of groups/groups.service.ts, with the checks before them.
use inhouse_maker_core_serve.Common.{
  ℕ, Bool, not, ◌&&◌, ◌||◌, Option, none, some, List, ◌==◌, nat_eq, find?, find_where, is_some,
  or_else, String,
}
use inhouse_maker_core_serve.Model.Enums.{GroupRole, role_eq}
use inhouse_maker_core_serve.Model.Kinds.{GroupVisibility, JoinPolicy}
use inhouse_maker_core_serve.Model.World.{World, Group, GroupMember, User}
use inhouse_maker_core_serve.Model.Outcome.{
  Outcome, ok, ◌>>=◌, ◌>>◌, reject_if, or_reject, HttpStatus, AppErrorCode,
}
use inhouse_maker_core_serve.Groups.{find_membership, assert_group_admin, is_system_admin}

-- CreateGroupDto
pub record CreateGroup : Type 0 where
  pub name : String
  pub region : Option String
  pub description : Option String
  pub visibility : Option GroupVisibility
  pub join_policy : Option JoinPolicy
  pub tags : Option (List String)

-- UpdateGroupDto: a field that is not given, and one that is given as null, differ.
pub record UpdateGroup : Type 0 where
  pub name : Option String
  pub region : Option (Option String)
  pub description : Option (Option String)
  pub visibility : Option GroupVisibility
  pub join_policy : Option JoinPolicy
  pub tags : Option (List String)

-- The row that createGroup writes, with the defaults of prisma/schema.prisma.
abbrev pub new_group : ℕ → ℕ → CreateGroup → Group
new_group k user d = record {
  id = k;
  owner_user_id = user;
  name = d.name;
  region = d.region;
  description = d.description;
  visibility = or_else d.visibility GroupVisibility.private_group;
  join_policy = or_else d.join_policy JoinPolicy.invite_only;
  tags = d.tags;
  archived_at = none;
}

abbrev pub owner_row : ℕ → ℕ → GroupMember
owner_row k user = record { group_id = k; user_id = user; role = GroupRole.owner }

-- `Object.keys(data).length === 0`
abbrev pub is_empty_update : UpdateGroup → Bool
is_empty_update d = not (
    is_some d.name
    || is_some d.region
    || is_some d.description
    || is_some d.visibility
    || is_some d.join_policy
    || is_some d.tags)

-- buildGroupUpdateData, written to the row.
unfoldable pub updated_group : UpdateGroup → Group → Group
updated_group d g = record g {
  name = or_else d.name g.name;
  region = or_else d.region g.region;
  description = or_else d.description g.description;
  visibility = or_else d.visibility g.visibility;
  join_policy = or_else d.join_policy g.join_policy;
  tags = elim d.tags [ none ↦ g.tags | some ts ↦ some ts ];
}

unfoldable pub archived_group : ℕ → Group → Group
archived_group now g = record g { archived_at = some now }

abbrev pub is_group : ℕ → Group → Bool
is_group group g = g.id == group

-- The checks that updateGroup and deleteGroup share.
unfoldable pub mutable_group : ℕ → ℕ → World → Outcome Group
mutable_group requester group w = do
  g ←
      or_reject (find_where (is_group group) (λ g. not (is_some g.archived_at)) w.groups)
        HttpStatus.not_found AppErrorCode.not_found
  reject_if (not (g.owner_user_id == requester) && not (is_system_admin requester w))
      HttpStatus.forbidden AppErrorCode.forbidden
  ok g

-- AddGroupMemberDto
pub record AddMember : Type 0 where
  pub user_id : ℕ
  pub role : Option GroupRole

abbrev find_user : ℕ → World → Option User
find_user user w = find? (λ u. u.id == user) w.users

-- addMember, up to the write: the row to create.
unfoldable pub add_member_ready : ℕ → ℕ → AddMember → World → Outcome GroupMember
add_member_ready requester group d w =
    let role = or_else d.role GroupRole.member in
    do
      access ← assert_group_admin group requester w
      reject_if (role == GroupRole.owner) HttpStatus.bad_request AppErrorCode.invalid_member_role
      reject_if (not (is_some (find_user d.user_id w))) HttpStatus.not_found
          AppErrorCode.user_not_found
      reject_if (d.user_id == requester) HttpStatus.bad_request AppErrorCode.cannot_add_self
      reject_if (is_some (find_membership group d.user_id w)) HttpStatus.conflict
          AppErrorCode.group_member_already_exists
      ok (record { group_id = group; user_id = d.user_id; role = role })
