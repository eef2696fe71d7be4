-- ===== src/Accounts/Keeps.antt =====
-- What the handlers of auth/auth.service.ts, users/users.service.ts and blocks/blocks.service.ts keep
-- of the tables in which withdrawn users have left nothing behind.
use inhouse_maker_core_serve.Common.{
  ℕ, ◌+◌, ◌≡◌, refl, sym, ap, ◌∙◌, Bool, Option, none, some, List, arith, inl, inr, ◌==◌, nat_eq,
  string_eq, Bool-cases, Option-cases, find?, find?-by_key, change_first, String,
}
use inhouse_maker_core_serve.Model.Kinds.{UserStatus, user_status_eq}
use inhouse_maker_core_serve.Model.World.{World, User, Identity, UserBlock}
use inhouse_maker_core_serve.Model.Outcome.{ok, err, ◌>>=◌ as bind, Outcome-cases}
use inhouse_maker_core_serve.Model.Action.{◌>>=◌}
use inhouse_maker_core_serve.Auth.{
  Ports, is_user, session_of, verify_refresh_token, refresh_ready, email_login_ready,
}
use inhouse_maker_core_serve.Auth.Handlers.{
  with_refresh_hash, used_at, store_session, issue_tokens, login_with_email, refresh, logout,
}
use inhouse_maker_core_serve.Auth.Rotation.{CanAuthenticate}
use inhouse_maker_core_serve.Users.{existing_user}
use inhouse_maker_core_serve.Users.Handlers.{
  ProfileUpdate, updated_profile, update_my_profile, with_image, has_image, nickname_free,
  delete_profile_image,
}
use inhouse_maker_core_serve.Users.Withdrawn.{login_ready-found}
use inhouse_maker_core_serve.Accounts.Rows.{
  SignedOut, IsClean, AllClean, IsClean-written, IsClean-later,
}
use inhouse_maker_core_serve.Accounts.Writes.{IsClean-touched}

with_hash-SignedOut :
    (h : Option String) (us : List User) (u : User) (v : User)
    → find? (is_user u.id) us ≡ some u
    → CanAuthenticate u
    → find? (is_user u.id) us ≡ some v
    → SignedOut (with_refresh_hash h v)
unfolding with_refresh_hash
with_hash-SignedOut h us u v found active e =
    let same : some u ≡ some v = sym found ∙ e in
    let it : v ≡ u = cc in
    let there : CanAuthenticate v = rw it active in λ left. absurd (ground arith)

-- A hash for an active user.
IsClean-session :
    (next : ℕ) (h : Option String) (us : List User) (is : List Identity) (bs : List UserBlock)
    (u : User)
    → find? (is_user u.id) us ≡ some u
    → CanAuthenticate u
    → IsClean next us is bs
    → IsClean (next + 1) (change_first (is_user u.id) (with_refresh_hash h) us) is bs
unfolding with_refresh_hash
IsClean-session next h us is bs u found active c =
    IsClean-later next (next + 1) _ is bs (omega arith) (
      IsClean-written us u.id (with_refresh_hash h) (λ v. refl) (λ v. refl) next is bs
        (λ v e _. with_hash-SignedOut h us u v found active e) c)

module _ (ports : Ports) where
  store_session-AllClean :
      (u : User) (i : Option Identity) (w : World)
      → find? (is_user u.id) w.users ≡ some u
      → CanAuthenticate u
      → AllClean w
      → AllClean (store_session ports u i w)
  unfolding store_session
  store_session-AllClean u none w found active c =
      IsClean-session w.next_id _ w.users w.identities w.blocks u found active c
  store_session-AllClean u (some i) w found active c =
      IsClean-touched (w.next_id + 1) _ w.identities w.blocks
        (IsClean-session w.next_id _ w.users w.identities w.blocks u found active c)
        (λ j. j.id == i.id) (used_at w.now) (λ j. refl)

  pub issue_tokens-AllClean :
      (u : User) (i : Option Identity) (w : World)
      → find? (is_user u.id) w.users ≡ some u
      → AllClean w
      → AllClean (issue_tokens ports u i w).1
  unfolding issue_tokens
  issue_tokens-AllClean u i w found c = elim (Bool-cases (u.status == UserStatus.active)) [
    | inl active ↦ rw (active, ◌>>=◌) (store_session-AllClean u i w found active c)
    | inr other ↦ rw (other, ◌>>=◌) c
  ]

  -- A user that was found by a test is found under the id.
  pub by_id :
      (p : User → Bool) (w : World) (u : User)
      → AllClean w
      → find? p w.users ≡ some u
      → find? (is_user u.id) w.users ≡ some u
  by_id p w u c e = find?-by_key (λ (v : User). v.id) p w.users u c.ids e

  pub login_with_email-AllClean :
      (address password : String) (w : World)
      → AllClean w
      → AllClean (login_with_email ports address password w).1
  unfolding login_with_email
  login_with_email-AllClean address password w c =
      elim (Outcome-cases (email_login_ready ports address password w)) [
        | inl (x, e) ↦
            rw (e, ◌>>=◌)
              (issue_tokens-AllClean x.0 (some x.1) w
                (by_id _ w x.0 c (login_ready-found ports address password w x.0 x.1 e)) c)
        | inr (s, code, e) ↦ rw (e, ◌>>=◌) c
      ]

  session_of-found :
      (o : Option User) (u : User) (h : String) → session_of o ≡ ok (u, h) → o ≡ some u
  session_of-found none u h e = cc
  session_of-found (some v) u h e = ground arith

  refresh_ready-found :
      (token : String) (w : World) (u : User)
      → refresh_ready ports token w ≡ ok u
      → (k : ℕ) × (find? (is_user k) w.users ≡ some u)
  unfolding refresh_ready
  refresh_ready-found token w u e = elim (Outcome-cases (verify_refresh_token ports token w)) [
    | inl (p, good) ↦ elim (Outcome-cases (session_of (find? (is_user p.sub) w.users))) [
      | inl ((v, h), open_) ↦
          let found = session_of-found (find? (is_user p.sub) w.users) v h open_ in
          let rest = rw (good, bind, open_, bind) at e in
          let same : v ≡ u = ground arith in (p.sub, found ∙ ap some same)
      | inr (s, code, shut) ↦
          let no : err s code ≡ ok u = rw (good, bind, shut, bind) at e in absurd (cc)
    ]
    | inr (s, code, bad) ↦ let no : err s code ≡ ok u = rw (bad, bind) at e in absurd (cc)
  ]

  pub refresh-AllClean :
      (token : String) (w : World) → AllClean w → AllClean (refresh ports token w).1
  unfolding refresh
  refresh-AllClean token w c = elim (Outcome-cases (refresh_ready ports token w)) [
    | inl (u, e) ↦
        let (k, found) = refresh_ready-found token w u e in
        rw (e, ◌>>=◌) (issue_tokens-AllClean u none w (by_id (is_user k) w u c found) c)
    | inr (s, code, e) ↦ rw (e, ◌>>=◌) c
  ]

-- A write to a user that keeps id, status and session.
pub kept-AllClean :
    (k : ℕ) (f : User → User) (w : World)
    → ((u : User) → (f u).id ≡ u.id)
    → ((u : User) → (f u).status ≡ u.status)
    → ((u : User) → (f u).refresh_token_hash ≡ u.refresh_token_hash)
    → AllClean w
    → AllClean (record w { users = change_first (is_user k) f w.users })
kept-AllClean k f w same_id same_status same_hash c =
    IsClean-written w.users k f same_id same_status w.next_id w.identities w.blocks
      (λ u _ h left. same_hash u ∙ h (rw (same_status u) at left)) c

pub logout-AllClean : (k : ℕ) (w : World) → AllClean w → AllClean (logout k w).1
unfolding logout with_refresh_hash
logout-AllClean k w c = elim (Option-cases (find? (is_user k) w.users)) [
  | inl missing ↦ rw (missing, ◌>>=◌) c
  | inr (u, found) ↦
      rw (found, ◌>>=◌)
        (IsClean-written w.users k (with_refresh_hash none) (λ v. refl) (λ v. refl) w.next_id
          w.identities w.blocks (λ v _ _ left. refl) c)
]

pub update_my_profile-AllClean :
    (k : ℕ) (d : ProfileUpdate) (w : World) → AllClean w → AllClean (update_my_profile k d w).1
unfolding update_my_profile updated_profile
update_my_profile-AllClean k d w c = elim (Outcome-cases (existing_user k w)) [
  | inl (u, e) ↦ elim (Outcome-cases (nickname_free k d.nickname w)) [
    | inl (x, free) ↦
        rw (e, ◌>>=◌, free, ◌>>=◌)
          (kept-AllClean k (updated_profile d) w (λ u. refl) (λ u. refl) (λ u. refl) c)
    | inr (s, code, taken) ↦ rw (e, ◌>>=◌, taken, ◌>>=◌) c
  ]
  | inr (s, code, e) ↦ rw (e, ◌>>=◌) c
]

pub delete_profile_image-AllClean :
    (k : ℕ) (w : World) → AllClean w → AllClean (delete_profile_image k w).1
unfolding delete_profile_image with_image
delete_profile_image-AllClean k w c = elim (Outcome-cases (existing_user k w)) [
  | inl (u, e) ↦ elim (Bool-cases (has_image u.profile_image_url)) [
    | inl image ↦
        rw (e, ◌>>=◌, image)
          (kept-AllClean k (with_image none) w (λ u. refl) (λ u. refl) (λ u. refl) c)
    | inr plain ↦ rw (e, ◌>>=◌, plain) c
  ]
  | inr (s, code, e) ↦ rw (e, ◌>>=◌) c
]
