-- ===== src/Accounts/Writes.antt =====
-- The other writes to identities, blocks and withdrawn users, on tables where withdrawn users have
-- left nothing behind: auth/auth.service.ts, users/users.service.ts and blocks/blocks.service.ts.
use inhouse_maker_core_serve.Common.{
  ℕ, ◌<◌, ◌≡◌, refl, sym, ◌∙◌, Bool, false, ◌&&◌, ◌||◌, not, some, List, [], ◌∷◌, ◌++◌, map, arith,
  inl, inr, ◌==◌, nat_eq, eq_nat_iff, Bool-cases, All-append, All-weaken, All-filter,
  All-filter_holds, filter, find?, change_first, All-change_first, any-changed, map-change_first,
  Has, IsDistinct,
}
use inhouse_maker_core_serve.Model.Kinds.{user_status_eq}
use inhouse_maker_core_serve.Model.World.{User, Identity, UserBlock}
use inhouse_maker_core_serve.Auth.{is_user}
use inhouse_maker_core_serve.Users.{UserPorts}
use inhouse_maker_core_serve.Users.Handlers.{withdrawn_user}
use inhouse_maker_core_serve.Accounts.Rows.{has_left, is_withdrawn, SignedOut, IsClean}

not_Has-is_withdrawn :
    (us : List User) (k : ℕ) → ¬ Has k (map (λ u. u.id) us) → is_withdrawn us k ≡ false
not_Has-is_withdrawn [] k h = refl
not_Has-is_withdrawn (u ∷ us) k h = elim (Bool-cases (u.id == k)) [
  | inl hit ↦ absurd (h (inl (sym ((eq_nat_iff u.id k).0 hit))))
  | inr miss ↦ rw miss (not_Has-is_withdrawn us k (λ m. h (inr m)))
]

-- Whoever is found to be active has not left.
pub found-is_withdrawn :
    (us : List User) (k : ℕ) (u : User)
    → IsDistinct (map (λ v. v.id) us)
    → find? (is_user k) us ≡ some u
    → has_left u ≡ false
    → is_withdrawn us k ≡ false
found-is_withdrawn [] k u distinct e active = refl
found-is_withdrawn (v ∷ us) k u (hv, distinct) e active = elim (Bool-cases (v.id == k)) [
  | inl hit ↦
      let found : some v ≡ some u = rw hit at e in
      let it : v ≡ u = cc in
      let here : has_left v ≡ false = rw it active in
      rw (hit, here) (not_Has-is_withdrawn us k (rw (← (eq_nat_iff v.id k).0 hit) hv))
  | inr miss ↦ rw miss (found-is_withdrawn us k u distinct (rw miss at e) active)
]

module _ (next : ℕ) (us : List User) (is : List Identity) (bs : List UserBlock)
    (c : IsClean next us is bs) where
  pub IsClean-new_identity :
      (i : Identity) → is_withdrawn us i.user_id ≡ false → IsClean next us (is ++ i ∷ []) bs
  IsClean-new_identity i here = record {
    ids = c.ids;
    below = c.below;
    signed_out = c.signed_out;
    identities = All-append _ is (i ∷ []) c.identities (here, tt);
    blockers = c.blockers;
    blocked = c.blocked;
  }

  pub IsClean-touched :
      (p : Identity → Bool) (f : Identity → Identity)
      → ((i : Identity) → (f i).user_id ≡ i.user_id)
      → IsClean next us (change_first p f is) bs
  IsClean-touched p f same = record {
    ids = c.ids;
    below = c.below;
    signed_out = c.signed_out;
    identities = All-change_first p _ f is (λ i _ h. rw (same i) h) c.identities;
    blockers = c.blockers;
    blocked = c.blocked;
  }

  pub IsClean-new_block :
      (b : UserBlock)
      → is_withdrawn us b.user_id ≡ false
      → is_withdrawn us b.target_user_id ≡ false
      → IsClean next us is (bs ++ b ∷ [])
  IsClean-new_block b here there = record {
    ids = c.ids;
    below = c.below;
    signed_out = c.signed_out;
    identities = c.identities;
    blockers = All-append _ bs (b ∷ []) c.blockers (here, tt);
    blocked = All-append _ bs (b ∷ []) c.blocked (there, tt);
  }

  pub IsClean-fewer_blocks : (p : UserBlock → Bool) → IsClean next us is (filter p bs)
  IsClean-fewer_blocks p = record {
    ids = c.ids;
    below = c.below;
    signed_out = c.signed_out;
    identities = c.identities;
    blockers = All-filter _ p bs c.blockers;
    blocked = All-filter _ p bs c.blocked;
  }

module _ (texts : UserPorts) (user now : ℕ) (us : List User) where
  abbrev after : List User
  after = change_first (is_user user) (withdrawn_user texts user now) us

  -- The others have left no more than before.
  others-after :
      (j : ℕ) → (j == user) ≡ false → is_withdrawn us j ≡ false → is_withdrawn after j ≡ false
  unfolding withdrawn_user
  others-after j other h =
      any-changed (is_user user) (λ u. is_user j u && has_left u) (withdrawn_user texts user now) us
        (λ u mine. ground arith)
      ∙ h

  pub IsClean-withdrawn :
      (next : ℕ) (is : List Identity) (bs : List UserBlock)
      → IsClean next us is bs
      → IsClean next after
          (filter (λ i. not (i.user_id == user)) is)
          (filter (λ b. not (b.user_id == user || b.target_user_id == user)) bs)
  unfolding withdrawn_user
  IsClean-withdrawn next is bs c = record {
    ids =
        rw
          (map-change_first (is_user user) (λ u. u.id) (withdrawn_user texts user now) us
            (λ u. refl))
          c.ids;
    below = All-change_first (is_user user) (λ u. u.id < next) _ us (λ u _ h. h) c.below;
    signed_out = All-change_first (is_user user) SignedOut _ us (λ u _ _ left. refl) c.signed_out;
    identities =
        All-weaken _ _ _ (λ i h. others-after i.user_id (ground arith) h.0)
          (All-filter_holds _ (λ i. not (i.user_id == user)) is c.identities);
    blockers =
        All-weaken _ _ _ (λ b h. others-after b.user_id (ground arith) h.0)
          (All-filter_holds _ (λ b. not (b.user_id == user || b.target_user_id == user)) bs
            c.blockers);
    blocked =
        All-weaken _ _ _ (λ b h. others-after b.target_user_id (ground arith) h.0)
          (All-filter_holds _ (λ b. not (b.user_id == user || b.target_user_id == user)) bs
            c.blocked);
  }
