-- ===== src/Accounts/Withdrawals.antt =====
-- Withdrawal and blocks, and then all requests about accounts, on tables in which withdrawn users have
-- left nothing behind: users/users.service.ts, blocks/blocks.service.ts and auth/jwt.strategy.ts.
use inhouse_maker_core_serve.Common.{
  ℕ, ◌+◌, ◌≡◌, refl, Bool, false, not, ◌&&◌, Option, some, List, [], ◌∷◌, arith, inl, inr, ◌==◌,
  nat_eq, eq_nat_iff, Bool-cases, any, find?, find?-holds, find?-by_key,
}
use inhouse_maker_core_serve.Model.Kinds.{UserStatus, user_status_eq}
use inhouse_maker_core_serve.Model.World.{World, User}
use inhouse_maker_core_serve.Model.Outcome.{ok, Outcome-cases}
use inhouse_maker_core_serve.Model.Action.{Action, ◌>>=◌}
use inhouse_maker_core_serve.Auth.{TokenPayload, Ports, is_user}
use inhouse_maker_core_serve.Auth.Strategy.{validate}
use inhouse_maker_core_serve.Auth.Handlers.{logout}
use inhouse_maker_core_serve.Auth.Rotation.{CanAuthenticate}
use inhouse_maker_core_serve.Blocks.{is_block, find_active_user, block_ready, unblock_ready}
use inhouse_maker_core_serve.Blocks.Handlers.{upsert_block, remove_block, block_user, unblock_user}
use inhouse_maker_core_serve.Users.{UserPorts, ImageFile, existing_user, assert_valid_image}
use inhouse_maker_core_serve.Users.Handlers.{
  with_image, update_my_profile, delete_profile_image, update_profile_image, withdrawn_world,
  withdraw_ready, withdraw_me,
}
use inhouse_maker_core_serve.Accounts.{AccountRequest, guarded, serve, serve_all}
use inhouse_maker_core_serve.Accounts.Rows.{has_left, is_withdrawn, AllClean, IsClean-later}
use inhouse_maker_core_serve.Accounts.Writes.{
  found-is_withdrawn, IsClean-new_block, IsClean-fewer_blocks, IsClean-withdrawn,
}
use inhouse_maker_core_serve.Accounts.Keeps.{
  login_with_email-AllClean, refresh-AllClean, kept-AllClean, logout-AllClean,
  update_my_profile-AllClean, delete_profile_image-AllClean,
}
use inhouse_maker_core_serve.Accounts.Joins.{
  signup_with_email-AllClean, login_with_social_identity-AllClean,
}

active-has_left : (u : User) → CanAuthenticate u → has_left u ≡ false
active-has_left u active = ground arith

-- Whoever is found by a test and active has not left.
active-is_withdrawn :
    (p : User → Bool) (w : World) (u : User)
    → AllClean w
    → find? p w.users ≡ some u
    → CanAuthenticate u
    → is_withdrawn w.users u.id ≡ false
active-is_withdrawn p w u c found active =
    found-is_withdrawn w.users u.id u c.ids
      (find?-by_key (λ (v : User). v.id) p w.users u c.ids found) (active-has_left u active)

upsert_block-AllClean :
    (user target : ℕ) (w : World)
    → is_withdrawn w.users user ≡ false
    → is_withdrawn w.users target ≡ false
    → AllClean w
    → AllClean (upsert_block user target w)
unfolding upsert_block
upsert_block-AllClean user target w here there c =
    elim (Bool-cases (any (is_block user target) w.blocks)) [
      | inl old ↦ rw old c
      | inr new ↦ rw new (IsClean-new_block w.next_id w.users w.identities w.blocks c _ here there)
    ]

block_ready-found :
    (user target : ℕ) (w : World) (u : User)
    → block_ready user target w ≡ ok u
    → find_active_user target w ≡ some u
unfolding block_ready
block_ready-found user target w u e = ground arith

-- The target of a block has not left.
target-is_withdrawn :
    (target : ℕ) (w : World) (u : User)
    → AllClean w
    → find_active_user target w ≡ some u
    → is_withdrawn w.users target ≡ false
target-is_withdrawn target w u c found =
    let both = find?-holds (λ v. v.id == target && v.status == UserStatus.active) w.users u found in
    rw (← (eq_nat_iff u.id target).0 (ground arith))
      (active-is_withdrawn _ w u c found (ground arith))

block_user-AllClean :
    (user target : ℕ) (w : World)
    → is_withdrawn w.users user ≡ false
    → AllClean w
    → AllClean (block_user user target w).1
unfolding block_user
block_user-AllClean user target w here c = elim (Outcome-cases (block_ready user target w)) [
  | inl (u, e) ↦
      let there = target-is_withdrawn target w u c (block_ready-found user target w u e) in
      rw (e, ◌>>=◌) (upsert_block-AllClean user target w here there c)
  | inr (s, code, e) ↦ rw (e, ◌>>=◌) c
]

unblock_user-AllClean :
    (user target : ℕ) (w : World) → AllClean w → AllClean (unblock_user user target w).1
unfolding unblock_user remove_block
unblock_user-AllClean user target w c = elim (Outcome-cases (unblock_ready user target w)) [
  | inl (x, e) ↦
      rw (e, ◌>>=◌)
        (IsClean-fewer_blocks w.next_id w.users w.identities w.blocks c
          (λ b. not (is_block user target b)))
  | inr (s, code, e) ↦ rw (e, ◌>>=◌) c
]

module _ (texts : UserPorts) where
  update_profile_image-AllClean :
      (user : ℕ) (file : Option ImageFile) (w : World)
      → AllClean w
      → AllClean (update_profile_image texts user file w).1
  unfolding update_profile_image with_image
  update_profile_image-AllClean user file w c = elim (Outcome-cases (assert_valid_image file)) [
    | inl (f, good) ↦ elim (Outcome-cases (existing_user user w)) [
      | inl (u, e) ↦
          rw (good, ◌>>=◌, e, ◌>>=◌)
            (IsClean-later w.next_id (w.next_id + 1) _ w.identities w.blocks (omega arith)
              (kept-AllClean user (with_image _) w (λ v. refl) (λ v. refl) (λ v. refl) c))
      | inr (s, code, e) ↦ rw (good, ◌>>=◌, e, ◌>>=◌) c
    ]
    | inr (s, code, bad) ↦ rw (bad, ◌>>=◌) c
  ]

  withdraw_me-AllClean : (user : ℕ) (w : World) → AllClean w → AllClean (withdraw_me texts user w).1
  unfolding withdraw_me withdrawn_world
  withdraw_me-AllClean user w c = elim (Outcome-cases (withdraw_ready texts user w)) [
    | inl (u, e) ↦
        rw (e, ◌>>=◌) (IsClean-withdrawn texts user w.now w.users w.next_id w.identities w.blocks c)
    | inr (s, code, e) ↦ rw (e, ◌>>=◌) c
  ]

validate-found :
    (p : TokenPayload) (w : World) (u : User)
    → validate p w ≡ ok u
    → (find? (is_user p.sub) w.users ≡ some u) × CanAuthenticate u
unfolding validate
validate-found p w u e = ground arith

-- A handler behind the guard keeps what it keeps for users who have not left.
guarded-AllClean :
    {A : Type 0} (p : TokenPayload) (handler : ℕ → Action A) (w : World)
    → ((k : ℕ) → is_withdrawn w.users k ≡ false → AllClean (handler k w).1)
    → AllClean w
    → AllClean (guarded p handler w)
unfolding guarded
guarded-AllClean p handler w keeps c = elim (Outcome-cases (validate p w)) [
  | inl (u, e) ↦
      let (found, active) = validate-found p w u e in
      rw (e, guarded) (keeps u.id (active-is_withdrawn (is_user p.sub) w u c found active))
  | inr (s, code, e) ↦ rw (e, guarded) c
]

module _ (texts : UserPorts) (ports : Ports) where
  serve-AllClean : (q : AccountRequest) (w : World) → AllClean w → AllClean (serve texts ports q w)
  unfolding serve
  serve-AllClean (AccountRequest.sign_up d) w c = signup_with_email-AllClean ports d w c
  serve-AllClean (AccountRequest.social_login s) w c =
      login_with_social_identity-AllClean ports s w c
  serve-AllClean (AccountRequest.email_login a x) w c = login_with_email-AllClean ports a x w c
  serve-AllClean (AccountRequest.new_tokens token) w c = refresh-AllClean ports token w c
  serve-AllClean (AccountRequest.log_out p) w c =
      guarded-AllClean p logout w (λ k _. logout-AllClean k w c) c
  serve-AllClean (AccountRequest.withdraw p) w c =
      guarded-AllClean p (withdraw_me texts) w (λ k _. withdraw_me-AllClean texts k w c) c
  serve-AllClean (AccountRequest.delete_image p) w c =
      guarded-AllClean p delete_profile_image w (λ k _. delete_profile_image-AllClean k w c) c
  serve-AllClean (AccountRequest.update_profile p d) w c =
      guarded-AllClean p (λ u. update_my_profile u d) w (λ k _. update_my_profile-AllClean k d w c)
        c
  serve-AllClean (AccountRequest.update_image p f) w c =
      guarded-AllClean p (λ u. update_profile_image texts u f) w
        (λ k _. update_profile_image-AllClean texts k f w c) c
  serve-AllClean (AccountRequest.block p target) w c =
      guarded-AllClean p (λ u. block_user u target) w
        (λ k here. block_user-AllClean k target w here c) c
  serve-AllClean (AccountRequest.unblock p target) w c =
      guarded-AllClean p (λ u. unblock_user u target) w (λ k _. unblock_user-AllClean k target w c)
        c

  -- Whatever requests about accounts come in, in whatever order: ids of users stay distinct and below
  -- the next one, and a user who has withdrawn has no refresh token, no identity, and no block in
  -- either direction, if this was so at the beginning.
  pub serve_all-AllClean :
      (qs : List AccountRequest) (w : World) → AllClean w → AllClean (serve_all texts ports qs w)
  unfolding serve_all
  serve_all-AllClean [] w c = c
  serve_all-AllClean (q ∷ qs) w c =
      serve_all-AllClean qs (serve texts ports q w) (serve-AllClean q w c)
