-- ===== src/Users/Invitable.antt =====
-- The candidates of searchMemberCandidates against the checks of addMember: users/users.service.ts
-- and groups/groups.service.ts.
use inhouse_maker_core_serve.Common.{
  ℕ, ◌≡◌, refl, true, not, none, some, Option, List, [], ◌∷◌, map, arith, inl, inr, ◌==◌, nat_eq,
  ==_refl, Bool-cases, All, All-filter, All-weaken, All-map, All-take, any, is_some, is_some-find?,
  String,
}
use inhouse_maker_core_serve.Common.Sorting.Laws.{All-sort}
use inhouse_maker_core_serve.Model.Enums.{GroupRole}
use inhouse_maker_core_serve.Model.World.{World, User, GroupMember}
use inhouse_maker_core_serve.Model.Outcome.{
  Outcome, ok, err, Outcome-cases, ◌>>=◌, HttpStatus, AppErrorCode,
}
use inhouse_maker_core_serve.Auth.{is_user}
use inhouse_maker_core_serve.Groups.{GroupAccess, find_membership, assert_group_admin}
use inhouse_maker_core_serve.Groups.Changes.{add_member_ready}
use inhouse_maker_core_serve.Users.{UserPorts}
use inhouse_maker_core_serve.Users.Invites.{
  InviteBlock, InviteItem, InviteQuery, invite_block, invite_item, find_invite_users,
  MemberCandidate, candidate_of, in_group_query, search_member_candidates,
}

-- Every row is found under its own key.
each_found : (us : List User) → All (λ u. any (is_user u.id) us ≡ true) us
each_found [] = tt
each_found (u ∷ us) =
    (rw (==_refl u.id) refl, All-weaken _ _ us (λ v h. ground arith) (each_found us))

-- What addMember answers to a candidate, read off what is shown.
abbrev pub answer : ℕ → InviteItem → Outcome GroupMember
answer group i = elim i.invite_blocked_reason [
  | none ↦ ok (record { group_id = group; user_id = i.id; role = GroupRole.member })
  | some InviteBlock.cannot_add_self ↦ err HttpStatus.bad_request AppErrorCode.cannot_add_self
  | some InviteBlock.already_member ↦
      err HttpStatus.conflict AppErrorCode.group_member_already_exists
]

abbrev pub IsAnswered : ℕ → ℕ → World → MemberCandidate → Type 0
IsAnswered requester group w c =
    (add_member_ready requester group (record { user_id = c.item.id; role = none }) w
      ≡ answer group c.item)
    × (c.selectable ≡ not (is_some c.item.invite_blocked_reason))

module _ (texts : UserPorts) (requester group : ℕ) (w : World) where
  abbrev Fits : InviteItem → Type 0
  Fits i = IsAnswered requester group w (candidate_of i)

  abbrev found_by : String → Option ℕ → List InviteItem
  found_by text limit = find_invite_users texts requester (in_group_query group text limit) w

  item-IsAnswered :
      (q : InviteQuery) (a : GroupAccess) (u : User)
      → q.group_id ≡ some group
      → assert_group_admin group requester w ≡ ok a
      → any (is_user u.id) w.users ≡ true
      → IsAnswered requester group w (candidate_of (invite_item texts requester q w u))
  unfolding invite_item add_member_ready invite_block
  item-IsAnswered q a u here admin listed =
      let found = is_some-find? (is_user u.id) w.users in
      rw (here, admin, ◌>>=◌, found, listed)
        (elim (Bool-cases (u.id == requester)) [
          | inl self ↦ rw (self, ◌>>=◌) (refl, refl)
          | inr other ↦ elim (Bool-cases (is_some (find_membership group u.id w))) [
            | inl member ↦ rw (other, member, ◌>>=◌) (refl, refl)
            | inr free ↦ rw (other, free, ◌>>=◌) (refl, refl)
          ]
        ])

  found_by-Fits :
      (a : GroupAccess) (text : String) (limit : Option ℕ)
      → assert_group_admin group requester w ≡ ok a
      → All Fits (found_by text limit)
  unfolding find_invite_users
  found_by-Fits a text limit admin =
      let item = invite_item texts requester (in_group_query group text limit) w in
      All-take Fits _ _ (
        All-sort _ Fits _ (
          All-map Fits item _ (
            All-take (λ u. Fits (item u)) _ _
              (All-filter (λ u. Fits (item u)) _ w.users
                (All-weaken _ _ w.users
                  (λ u listed.
                    item-IsAnswered (in_group_query group text limit) a u refl admin listed)
                  (each_found w.users))))))

  -- Every candidate that the search shows to an admin of the group is treated by addMember as shown:
  -- one without a reason is accepted as a member, and one with a reason is refused with the error of
  -- that reason; a candidate is selectable exactly if no reason is shown.
  pub search_member_candidates-add_member_ready :
      (text : String) (limit : Option ℕ) (cs : List MemberCandidate)
      → search_member_candidates texts requester group text limit w ≡ ok cs
      → All (IsAnswered requester group w) cs
  unfolding search_member_candidates
  search_member_candidates-add_member_ready text limit cs e =
      elim (Outcome-cases (assert_group_admin group requester w)) [
        | inl (a, admin) ↦
            let found : ok (map candidate_of (found_by text limit)) ≡ ok cs =
              rw (admin, ◌>>=◌) at e in
            let same : map candidate_of (found_by text limit) ≡ cs = cc in
            rw (← same) (
              All-map (IsAnswered requester group w) candidate_of (found_by text limit)
                (found_by-Fits a text limit admin))
        | inr (s, c, refused) ↦ let no : err s c ≡ ok cs = rw (refused, ◌>>=◌) at e in absurd (cc)
      ]
