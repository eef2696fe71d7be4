-- ===== src/Groups/Handlers.antt =====
-- createGroup, updateGroup, deleteGroup and addMember of groups/groups.service.ts. The response of
-- the first two is the row here, without the counts and the flags that are worked out from it.
use inhouse_maker_core_serve.Common.{
  ℕ, ◌+◌, some, List, [], ◌∷◌, ◌++◌, ◌==◌, nat_eq, change_first, filter, is_some,
}
use inhouse_maker_core_serve.Common.{ltb}
use inhouse_maker_core_serve.Common.Sorting.{sort}
use inhouse_maker_core_serve.Model.Enums.{role_index}
use inhouse_maker_core_serve.Model.World.{World, Group, GroupMember, AuditAction}
use inhouse_maker_core_serve.Model.Outcome.{Outcome, ok, err, reject_if, HttpStatus, AppErrorCode}
use inhouse_maker_core_serve.Model.Action.{Action, ◌>>=◌, ◌>>◌, check, gets, modify, pure, audit}
use inhouse_maker_core_serve.Groups.{find_membership, assert_group_member}
use inhouse_maker_core_serve.Groups.Changes.{
  CreateGroup, UpdateGroup, AddMember, new_group, owner_row, is_empty_update, updated_group,
  archived_group, is_group, mutable_group, add_member_ready,
}

unfoldable pub create_group : ℕ → CreateGroup → Action Group
create_group user d = do
  k ← gets (λ w. w.next_id)
  modify (λ w. record w {
    groups = w.groups ++ new_group k user d ∷ [];
    members = w.members ++ owner_row k user ∷ [];
    next_id = k + 1;
  })
  pure (new_group k user d)

abbrev write_group : ℕ → (Group → Group) → Action (Unit {0})
write_group group f = modify λ w. record w { groups = change_first (is_group group) f w.groups }

unfoldable pub update_group : ℕ → ℕ → UpdateGroup → Action Group
update_group requester group d = do
  g ← check (mutable_group requester group)
  check (λ w. reject_if (is_empty_update d) HttpStatus.bad_request AppErrorCode.validation_error)
  write_group group (updated_group d)
  audit (some requester) AuditAction.group_updated group
  pure (updated_group d g)

-- The response of deleteGroup is the time of the archiving.
unfoldable pub delete_group : ℕ → ℕ → Action ℕ
delete_group requester group = do
  g ← check (mutable_group requester group)
  now ← gets (λ w. w.now)
  write_group group (archived_group now)
  audit (some requester) AuditAction.group_archived group
  pure now

-- listMembers, the rows without the users' profiles, by role and then in the order of joining.
unfoldable pub list_members : ℕ → ℕ → World → Outcome (List GroupMember)
unfolding sort
list_members requester group w = elim (assert_group_member group requester w) [
  | ok a ↦ ok (
      sort (λ l r. ltb (role_index r.role) (role_index l.role))
        (filter (λ m. m.group_id == group) w.members))
  | err s c ↦ err s c
]

-- `create` with the unique index on group and user (P2002); the user and the group have been read,
-- so that neither foreign key fails (P2003).
unfoldable pub create_member : GroupMember → Action (Unit {0})
create_member m = do
  check (λ w.
      reject_if (is_some (find_membership m.group_id m.user_id w)) HttpStatus.conflict
        AppErrorCode.group_member_already_exists)
  modify (λ w. record w { members = w.members ++ m ∷ [] })

unfoldable pub add_member : ℕ → ℕ → AddMember → Action (List GroupMember)
add_member requester group d = do
  m ← check (add_member_ready requester group d)
  create_member m
  check (list_members requester group)
