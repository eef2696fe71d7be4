-- ===== src/Accounts/Rows.antt =====
-- Tables of users, identities and blocks in which withdrawn users have left nothing behind:
-- prisma/schema.prisma, as auth/, users/ and blocks/ write it.
use inhouse_maker_core_serve.Common.{
  ℕ, suc, ◌≤◌, ◌<◌, ◌≡◌, refl, ◌∙◌, Bool, true, false, ◌&&◌, none, some, List, [], ◌∷◌, ◌++◌, map,
  arith, ◌==◌, nat_eq, All, All-append, All-weaken, any, any-append, find?, change_first,
  All-change_first, any-change_first, map-change_first, IsDistinct, IsDistinct-append_last,
}
use inhouse_maker_core_serve.Model.Kinds.{UserStatus, user_status_eq}
use inhouse_maker_core_serve.Model.World.{World, User, Identity, UserBlock}
use inhouse_maker_core_serve.Auth.{is_user}

abbrev pub has_left : User → Bool
has_left u = u.status == UserStatus.withdrawn

-- There is a withdrawn user of that id.
abbrev pub is_withdrawn : List User → ℕ → Bool
is_withdrawn us k = any (λ u. is_user k u && has_left u) us

abbrev pub SignedOut : User → Type 0
SignedOut u = has_left u ≡ true → u.refresh_token_hash ≡ none

-- Ids are distinct and below the next one; a withdrawn user has no session, no identity and no block
-- in either direction.
pub record IsClean (next : ℕ) (us : List User) (is : List Identity) (bs : List UserBlock)
    : Type 0 where
  pub ids : IsDistinct (map (λ u. u.id) us)
  pub below : All (λ u. u.id < next) us
  pub signed_out : All SignedOut us
  pub identities : All (λ i. is_withdrawn us i.user_id ≡ false) is
  pub blockers : All (λ b. is_withdrawn us b.user_id ≡ false) bs
  pub blocked : All (λ b. is_withdrawn us b.target_user_id ≡ false) bs

abbrev pub AllClean : World → Type 0
AllClean w = IsClean w.next_id w.users w.identities w.blocks

-- One table takes the place of another that no one else has left.
pub IsClean-users :
    (next next' : ℕ) (us us' : List User) (is : List Identity) (bs : List UserBlock)
    → ((k : ℕ) → is_withdrawn us k ≡ false → is_withdrawn us' k ≡ false)
    → IsDistinct (map (λ u. u.id) us')
    → All (λ u. u.id < next') us'
    → All SignedOut us'
    → IsClean next us is bs
    → IsClean next' us' is bs
IsClean-users next next' us us' is bs same ids below signed_out c = record {
  ids = ids;
  below = below;
  signed_out = signed_out;
  identities = All-weaken _ _ is (λ i h. same i.user_id h) c.identities;
  blockers = All-weaken _ _ bs (λ b h. same b.user_id h) c.blockers;
  blocked = All-weaken _ _ bs (λ b h. same b.target_user_id h) c.blocked;
}

module _ (us : List User) (k : ℕ) (f : User → User) (same_id : (u : User) → (f u).id ≡ u.id)
    (same_status : (u : User) → (f u).status ≡ u.status) where
  same_withdrawn : (j : ℕ) → is_withdrawn (change_first (is_user k) f us) j ≡ is_withdrawn us j
  same_withdrawn j =
      any-change_first (is_user k) (λ u. is_user j u && has_left u) f us
        (λ u. rw (same_id u, same_status u) refl)

  -- A write to a user that keeps id and status.
  pub IsClean-written :
      (next : ℕ) (is : List Identity) (bs : List UserBlock)
      → ((u : User) → find? (is_user k) us ≡ some u → SignedOut u → SignedOut (f u))
      → IsClean next us is bs
      → IsClean next (change_first (is_user k) f us) is bs
  IsClean-written next is bs still c =
      IsClean-users next next us (change_first (is_user k) f us) is bs (λ j h. same_withdrawn j ∙ h)
        (rw (map-change_first (is_user k) (λ u. u.id) f us same_id) c.ids)
        (All-change_first (is_user k) (λ u. u.id < next) f us (λ u _ h. rw (same_id u) h) c.below)
        (All-change_first (is_user k) SignedOut f us still c.signed_out) c

pub IsClean-later :
    (next next' : ℕ) (us : List User) (is : List Identity) (bs : List UserBlock)
    → next ≤ next'
    → IsClean next us is bs
    → IsClean next' us is bs
IsClean-later next next' us is bs later c =
    IsClean-users next next' us us is bs (λ k h. h) c.ids
      (All-weaken _ _ us (λ u h. omega arith) c.below) c.signed_out c

pub below-new :
    (next : ℕ) (us : List User) → All (λ u. u.id < next) us → any (is_user next) us ≡ false
below-new next [] h = refl
below-new next (u ∷ us) (hu, h) = let rest = below-new next us h in ground arith

pub active-stays :
    (us : List User) (u : User) (k : ℕ)
    → has_left u ≡ false
    → is_withdrawn us k ≡ false
    → is_withdrawn (us ++ u ∷ []) k ≡ false
active-stays us u k active h = rw (any-append _ us (u ∷ []), h, active) (ground arith)

-- A new active user.
pub IsClean-new_user :
    (next : ℕ) (us : List User) (u : User) (is : List Identity) (bs : List UserBlock)
    → u.id ≡ next
    → has_left u ≡ false
    → IsClean next us is bs
    → IsClean (suc next) (us ++ u ∷ []) is bs
IsClean-new_user next us u is bs new active c =
    IsClean-users next (suc next) us (us ++ u ∷ []) is bs (λ k h. active-stays us u k active h)
      (IsDistinct-append_last (λ (v : User). v.id) us u c.ids (rw new (below-new next us c.below)))
      (All-append _ us (u ∷ []) (All-weaken _ _ us (λ v h. omega arith) c.below) (omega arith, tt))
      (All-append SignedOut us (u ∷ []) c.signed_out ((λ left. absurd (ground arith)), tt)) c
