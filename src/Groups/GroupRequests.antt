-- ===== src/Groups/GroupRequests.antt =====
-- Requests to groups/groups.service.ts that write, one after the other.
use inhouse_maker_core_serve.Common.{
  ℕ, ◌≡◌, refl, false, List, [], ◌∷◌, Bool-cases, inl, inr, any, is_some-find?, ◌++◌, ap, ◌∙◌,
}
use inhouse_maker_core_serve.Model.World.{World, GroupMember}
use inhouse_maker_core_serve.Model.Outcome.{
  Outcome, ok, err, Outcome-cases, HttpStatus, AppErrorCode,
}
use inhouse_maker_core_serve.Model.Action.{◌>>=◌, ◌>>◌, bind-ok, check}
use inhouse_maker_core_serve.Groups.Changes.{
  CreateGroup, UpdateGroup, AddMember, new_group, is_empty_update, updated_group, archived_group,
  mutable_group, add_member_ready,
}
use inhouse_maker_core_serve.Groups.Handlers.{
  create_group, update_group, delete_group, add_member, create_member, list_members,
}
use inhouse_maker_core_serve.Groups.Members.{
  same_member, IsSound, IsSound-created, IsSound-changed, IsSound-added, add_member_ready-IsAddable,
}

pub data GroupRequest : Type 0 where
  create : ℕ → CreateGroup → GroupRequest
  update : ℕ → ℕ → UpdateGroup → GroupRequest
  delete : ℕ → ℕ → GroupRequest
  add : ℕ → ℕ → AddMember → GroupRequest

unfoldable pub serve : GroupRequest → World → World
serve (GroupRequest.create u d) w = (create_group u d w).1
serve (GroupRequest.update u k d) w = (update_group u k d w).1
serve (GroupRequest.delete u k) w = (delete_group u k w).1
serve (GroupRequest.add u k d) w = (add_member u k d w).1

unfoldable pub serve_all : List GroupRequest → World → World
unfolding serve
serve_all [] w = w
serve_all (q ∷ qs) w = serve_all qs (serve q w)

abbrev pub HasSoundGroups : World → Type 0
HasSoundGroups w = IsSound w.next_id w.groups w.members

create-HasSoundGroups :
    (u : ℕ) (d : CreateGroup) (w : World) → HasSoundGroups w → HasSoundGroups (create_group u d w).1
unfolding create_group
create-HasSoundGroups u d w s =
    IsSound-created w.next_id (new_group w.next_id u d) w.groups w.members refl s

update-HasSoundGroups :
    (u k : ℕ) (d : UpdateGroup) (w : World)
    → HasSoundGroups w
    → HasSoundGroups (update_group u k d w).1
unfolding update_group updated_group
update-HasSoundGroups u k d w s = elim (Outcome-cases (mutable_group u k w)) [
  | inr (t, c, e) ↦ rw (e, ◌>>=◌) s
  | inl (g, e) ↦ elim (Bool-cases (is_empty_update d)) [
    | inl nothing ↦ rw (e, ◌>>=◌, nothing) s
    | inr given ↦
        rw (e, ◌>>=◌, given)
          (IsSound-changed w.next_id k (updated_group d) w.groups w.members (λ g. refl) (λ g. refl)
            s)
  ]
]

delete-HasSoundGroups :
    (u k : ℕ) (w : World) → HasSoundGroups w → HasSoundGroups (delete_group u k w).1
unfolding delete_group archived_group
delete-HasSoundGroups u k w s = elim (Outcome-cases (mutable_group u k w)) [
  | inr (t, c, e) ↦ rw (e, ◌>>=◌) s
  | inl (g, e) ↦
      rw (e, ◌>>=◌)
        (IsSound-changed w.next_id k (archived_group w.now) w.groups w.members (λ g. refl)
          (λ g. refl) s)
]

abbrev with_member : GroupMember → World → World
with_member m w = record w { members = w.members ++ m ∷ [] }

create_member-new :
    (m : GroupMember) (w : World)
    → any (same_member m) w.members ≡ false
    → create_member m w ≡ (ok tt, with_member m w)
unfolding create_member
create_member-new m w new =
    let free = is_some-find? (same_member m) w.members ∙ new in rw (free, ◌>>=◌) refl

world-add :
    (u k : ℕ) (d : AddMember) (w : World) (m : GroupMember)
    → add_member_ready u k d w ≡ ok m
    → any (same_member m) w.members ≡ false
    → (add_member u k d w).1 ≡ with_member m w
unfolding add_member
world-add u k d w m e new =
    ap (λ (r : Outcome (List GroupMember) × World). r.1)
      (bind-ok (check (add_member_ready u k d)) (λ m. create_member m >> check (list_members u k)) w
          m w (ap (λ o. (o, w)) e)
        ∙ bind-ok (create_member m) (λ _. check (list_members u k)) w tt (with_member m w)
            (create_member-new m w new))

world-refused :
    (u k : ℕ) (d : AddMember) (w : World) (t : HttpStatus) (c : AppErrorCode)
    → add_member_ready u k d w ≡ err t c
    → (add_member u k d w).1 ≡ w
unfolding add_member
world-refused u k d w t c e = rw (e, ◌>>=◌) refl

add-HasSoundGroups :
    (u k : ℕ) (d : AddMember) (w : World) → HasSoundGroups w → HasSoundGroups (add_member u k d w).1
add-HasSoundGroups u k d w s = elim (Outcome-cases (add_member_ready u k d w)) [
  | inr (t, c, e) ↦ rw (world-refused u k d w t c e) s
  | inl (m, e) ↦
      let a = add_member_ready-IsAddable u k d w m s.group_ids e in
      rw (world-add u k d w m e a.new)
        (IsSound-added w.next_id m w.groups w.members a.below a.plain a.new s)
]

serve-HasSoundGroups :
    (q : GroupRequest) (w : World) → HasSoundGroups w → HasSoundGroups (serve q w)
unfolding serve
serve-HasSoundGroups (GroupRequest.create u d) w s = create-HasSoundGroups u d w s
serve-HasSoundGroups (GroupRequest.update u k d) w s = update-HasSoundGroups u k d w s
serve-HasSoundGroups (GroupRequest.delete u k) w s = delete-HasSoundGroups u k w s
serve-HasSoundGroups (GroupRequest.add u k d) w s = add-HasSoundGroups u k d w s

-- Whatever groups are created, changed and archived and whoever is added, and in whatever order, no
-- user is a member of a group twice, every group has its owner among its members in the role OWNER,
-- and no one else has that role, where all this held before.
pub serve_all-HasSoundGroups :
    (qs : List GroupRequest) (w : World) → HasSoundGroups w → HasSoundGroups (serve_all qs w)
unfolding serve_all
serve_all-HasSoundGroups [] w s = s
serve_all-HasSoundGroups (q ∷ qs) w s =
    serve_all-HasSoundGroups qs (serve q w) (serve-HasSoundGroups q w s)
