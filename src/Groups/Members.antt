-- ===== src/Groups/Members.antt =====
-- The rows of groups and members that groups/groups.service.ts writes, as a table that stays sound.
use inhouse_maker_core_serve.Common.{
  ℕ, ◌+◌, ◌<◌, ◌≡◌, refl, sym, ◌∙◌, Bool, true, false, not, ◌&&◌, ◌||◌, Option, none, some, List,
  [], ◌∷◌, ◌++◌, arith, All, All-append, All-weaken, All-find?, any, any-append, any-change_first,
  is_some, is_some-find?, inl, inr, ◌==◌, nat_eq, change_first, All-change_first, find?-holds,
}
use inhouse_maker_core_serve.Model.Enums.{GroupRole, role_eq}
use inhouse_maker_core_serve.Model.World.{World, Group, GroupMember}
use inhouse_maker_core_serve.Model.Outcome.{ok, err, Outcome-cases, ◌>>=◌}
use inhouse_maker_core_serve.Groups.{
  GroupAccess, find_group, find_membership, group_access, assert_active, assert_group_admin,
}
use inhouse_maker_core_serve.Groups.Changes.{AddMember, is_group, owner_row, add_member_ready}

abbrev pub same_member : GroupMember → GroupMember → Bool
same_member m n = n.group_id == m.group_id && n.user_id == m.user_id

abbrev pub IsUnique : List GroupMember → Type 0
IsUnique [] = Unit
IsUnique (m ∷ ms) = (any (same_member m) ms ≡ false) × IsUnique ms

-- The owner's row, and the group that an owner's row is about.
abbrev pub has_owner_row : List GroupMember → Group → Bool
has_owner_row ms g =
    any (λ m. m.group_id == g.id && m.user_id == g.owner_user_id && m.role == GroupRole.owner) ms

abbrev pub is_owner_of : List Group → GroupMember → Bool
is_owner_of gs m = any (λ g. g.id == m.group_id && g.owner_user_id == m.user_id) gs

-- A user is a member once, every group has its owner among its members in the role OWNER, and no
-- one else has that role; ids are below the next one to be given.
pub record IsSound (next : ℕ) (gs : List Group) (ms : List GroupMember) : Type 0 where
  pub group_ids : All (λ g. g.id < next) gs
  pub member_ids : All (λ m. m.group_id < next) ms
  pub unique : IsUnique ms
  pub owners : All (λ g. has_owner_row ms g ≡ true) gs
  pub only_owners : All (λ m. (not (m.role == GroupRole.owner) || is_owner_of gs m) ≡ true) ms

IsUnique-append :
    (ms : List GroupMember) (m : GroupMember)
    → IsUnique ms
    → any (same_member m) ms ≡ false
    → IsUnique (ms ++ m ∷ [])
IsUnique-append [] m h new = (refl, tt)
IsUnique-append (n ∷ ms) m (hn, h) new = (
  rw (any-append (same_member n) ms (m ∷ [])) (ground arith),
  IsUnique-append ms m h (ground arith),
)

owner_row-append :
    (ms ns : List GroupMember) (g : Group)
    → has_owner_row ms g ≡ true
    → has_owner_row (ms ++ ns) g ≡ true
owner_row-append ms ns g h = rw (any-append _ ms ns) (ground arith)

owner_of-append :
    (gs hs : List Group) (m : GroupMember)
    → (not (m.role == GroupRole.owner) || is_owner_of gs m) ≡ true
    → (not (m.role == GroupRole.owner) || is_owner_of (gs ++ hs) m) ≡ true
owner_of-append gs hs m h = rw (any-append _ gs hs) (ground arith)

-- No member of a group that does not exist yet.
none_ahead :
    (n : ℕ) (m : GroupMember) (ms : List GroupMember)
    → m.group_id ≡ n
    → All (λ m. m.group_id < n) ms
    → any (same_member m) ms ≡ false
none_ahead n m [] e h = refl
none_ahead n m (x ∷ ms) e (hx, h) = ground (arith, none_ahead n m ms e h)

own_row :
    (n : ℕ) (ms : List GroupMember) (g : Group)
    → g.id ≡ n
    → has_owner_row (ms ++ owner_row n g.owner_user_id ∷ []) g ≡ true
own_row n ms g e = rw (any-append _ ms (owner_row n g.owner_user_id ∷ [])) (ground arith)

own_group :
    (n : ℕ) (gs : List Group) (g : Group)
    → g.id ≡ n
    → is_owner_of (gs ++ g ∷ []) (owner_row n g.owner_user_id) ≡ true
own_group n gs g e = rw (any-append _ gs (g ∷ [])) (ground arith)

-- createGroup
pub IsSound-created :
    (n : ℕ) (g : Group) (gs : List Group) (ms : List GroupMember)
    → g.id ≡ n
    → IsSound n gs ms
    → IsSound (n + 1) (gs ++ g ∷ []) (ms ++ owner_row n g.owner_user_id ∷ [])
IsSound-created n g gs ms e s = record {
  group_ids =
      All-append _ gs (g ∷ [])
        (All-weaken (λ g. g.id < n) (λ g. g.id < n + 1) gs (λ g h. omega arith) s.group_ids)
        (omega arith, tt);
  member_ids =
      All-append _ ms _
        (All-weaken (λ m. m.group_id < n) (λ m. m.group_id < n + 1) ms (λ m h. omega arith)
          s.member_ids)
        (omega arith, tt);
  unique =
      IsUnique-append ms (owner_row n g.owner_user_id) s.unique
        (none_ahead n (owner_row n g.owner_user_id) ms refl s.member_ids);
  owners =
      All-append _ gs (g ∷ []) (All-weaken _ _ gs (λ g. owner_row-append ms _ g) s.owners)
        (own_row n ms g e, tt);
  only_owners =
      All-append _ ms _ (All-weaken _ _ ms (λ m. owner_of-append gs _ m) s.only_owners)
        (own_group n gs g e, tt);
}

owner_of-changed :
    (k : ℕ) (f : Group → Group) (gs : List Group) (m : GroupMember)
    → ((g : Group) → (f g).id ≡ g.id)
    → ((g : Group) → (f g).owner_user_id ≡ g.owner_user_id)
    → is_owner_of (change_first (is_group k) f gs) m ≡ is_owner_of gs m
owner_of-changed k f gs m id owner =
    any-change_first (is_group k) _ f gs (λ g. rw (id g, owner g) refl)

-- updateGroup and deleteGroup: neither the id nor the owner changes.
pub IsSound-changed :
    (n k : ℕ) (f : Group → Group) (gs : List Group) (ms : List GroupMember)
    → ((g : Group) → (f g).id ≡ g.id)
    → ((g : Group) → (f g).owner_user_id ≡ g.owner_user_id)
    → IsSound n gs ms
    → IsSound n (change_first (is_group k) f gs) ms
IsSound-changed n k f gs ms id owner s = record {
  group_ids = All-change_first (is_group k) (λ g. g.id < n) f gs (λ g e h. rw (id g) h) s.group_ids;
  member_ids = s.member_ids;
  unique = s.unique;
  owners =
      All-change_first (is_group k) (λ g. has_owner_row ms g ≡ true) f gs
        (λ g e h. rw (id g, owner g) h) s.owners;
  only_owners = All-weaken _ _ ms (λ m h. rw (owner_of-changed k f gs m id owner) h) s.only_owners;
}

-- addMember
pub IsSound-added :
    (n : ℕ) (m : GroupMember) (gs : List Group) (ms : List GroupMember)
    → m.group_id < n
    → (m.role == GroupRole.owner) ≡ false
    → any (same_member m) ms ≡ false
    → IsSound n gs ms
    → IsSound n gs (ms ++ m ∷ [])
IsSound-added n m gs ms below plain new s = record {
  group_ids = s.group_ids;
  member_ids = All-append _ ms (m ∷ []) s.member_ids (below, tt);
  unique = IsUnique-append ms m s.unique new;
  owners = All-weaken _ _ gs (λ g. owner_row-append ms (m ∷ []) g) s.owners;
  only_owners = All-append _ ms (m ∷ []) s.only_owners (rw plain refl, tt);
}

-- What addMember has found when it lets a request through.
pub record IsAddable (n : ℕ) (gs : List Group) (ms : List GroupMember) (m : GroupMember)
    : Type 0 where
  pub below : m.group_id < n
  pub plain : (m.role == GroupRole.owner) ≡ false
  pub new : any (same_member m) ms ≡ false

admin-group :
    (k u : ℕ) (w : World) (a : GroupAccess)
    → assert_group_admin k u w ≡ ok a
    → is_some (find_group k w) ≡ true
unfolding assert_group_admin group_access assert_active
admin-group k u w a e = ground arith

some_group : (o : Option Group) → is_some o ≡ true → (g : Group) × (o ≡ some g)
some_group none h = absurd (ground arith)
some_group (some g) h = (g, refl)

pub add_member_ready-IsAddable :
    (u k : ℕ) (d : AddMember) (w : World) (m : GroupMember)
    → All (λ g. g.id < w.next_id) w.groups
    → add_member_ready u k d w ≡ ok m
    → IsAddable w.next_id w.groups w.members m
unfolding add_member_ready
add_member_ready-IsAddable u k d w m ids e =
    let group : m.group_id ≡ k = ground arith in
    let user : m.user_id ≡ d.user_id = ground arith in
    let free : is_some (find_membership k d.user_id w) ≡ false = ground arith in
    let same = is_some-find? (λ x. x.group_id == k && x.user_id == d.user_id) w.members in
    let new : any (same_member m) w.members ≡ false = rw (group, user) (sym same ∙ free) in
    elim (Outcome-cases (assert_group_admin k u w)) [
      | inr (s, c, refused) ↦
          let out : err s c ≡ ok m = rw (refused, ◌>>=◌) at e in absurd (ground arith)
      | inl (a, admitted) ↦
          let exists = admin-group k u w a admitted in
          let (g, found) = some_group (find_group k w) exists in
          let here = All-find? (λ g. g.id < w.next_id) (is_group k) w.groups ids found in
          let key = find?-holds (is_group k) w.groups g found in
          record { below = ground arith; plain = ground arith; new = new }
    ]
