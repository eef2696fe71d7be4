-- ===== src/Accounts/Joins.antt =====
-- New accounts: signupWithEmail and loginWithSocialIdentity of auth/auth.service.ts keep the tables in
-- which withdrawn users have left nothing behind.
use inhouse_maker_core_serve.Common.{
  ℕ, suc, ◌+◌, ◌≡◌, refl, sym, false, Option, none, some, List, [], ◌∷◌, ◌++◌, arith, inl, inr,
  ◌==◌, nat_eq, string_eq, ==_refl, Bool-cases, Option-cases, any, find?, find?-append_last,
  if◌then◌else◌,
}
use inhouse_maker_core_serve.Model.Kinds.{UserStatus, user_status_eq, provider_eq}
use inhouse_maker_core_serve.Model.World.{World, User, Identity}
use inhouse_maker_core_serve.Model.Outcome.{
  Outcome, ok, err, Outcome-cases, HttpStatus, AppErrorCode,
}
use inhouse_maker_core_serve.Model.Action.{◌>>=◌, ◌>>◌, bind-ok, bind-err}
use inhouse_maker_core_serve.Auth.{Ports, is_user, find_identity}
use inhouse_maker_core_serve.Auth.Handlers.{Tokens, issue_tokens}
use mathlib.Core.Path.{subst}
use inhouse_maker_core_serve.Auth.Accounts.{
  SignupInput, SocialClaims, signup_ready, email_conflict_checked,
}
use inhouse_maker_core_serve.Auth.SignUp.{
  with_account, is_taken, create_account, signup_conflict, create_conflict, signup_user,
  signup_identity, social_user, social_identity, signup_with_email, first_social_login,
  known_social_login, social_login, login_with_social_identity,
}
use inhouse_maker_core_serve.Accounts.Rows.{
  has_left, is_withdrawn, AllClean, IsClean-later, IsClean-new_user, below-new, active-stays,
}
use inhouse_maker_core_serve.Accounts.Writes.{IsClean-new_identity}
use inhouse_maker_core_serve.Accounts.Keeps.{issue_tokens-AllClean, by_id}

no_user-is_withdrawn :
    (us : List User) (k : ℕ) → any (is_user k) us ≡ false → is_withdrawn us k ≡ false
no_user-is_withdrawn [] k h = refl
no_user-is_withdrawn (u ∷ us) k h =
    let rest = no_user-is_withdrawn us k (ground arith) in ground arith

with_account-AllClean :
    (u : User) (i : Identity) (w : World)
    → u.id ≡ w.next_id
    → has_left u ≡ false
    → i.user_id ≡ w.next_id
    → AllClean w
    → AllClean (with_account u i w)
with_account-AllClean u i w new active mine c =
    let free = no_user-is_withdrawn w.users w.next_id (below-new w.next_id w.users c.below) in
    IsClean-new_identity (w.next_id + 2) (w.users ++ u ∷ []) w.identities w.blocks
      (IsClean-later (suc w.next_id) (w.next_id + 2) (w.users ++ u ∷ []) w.identities w.blocks
        (omega arith) (IsClean-new_user w.next_id w.users u w.identities w.blocks new active c))
      i (active-stays w.users u i.user_id active (rw mine free))

module _ (u : User) (i : Identity) (conflict : World → Outcome (Unit {0})) (w : World) where
  abbrev verdict : Outcome (Unit {0})
  verdict = if is_taken u i w then conflict w else ok tt

  create_account-made :
      (x : Unit {0}) → verdict ≡ ok x → create_account u i conflict w ≡ (ok tt, with_account u i w)
  unfolding create_account
  create_account-made x free = rw (free, ◌>>=◌) refl

  create_account-refused :
      (s : HttpStatus) (code : AppErrorCode)
      → verdict ≡ err s code
      → create_account u i conflict w ≡ (err s code, w)
  unfolding create_account
  create_account-refused s code taken = rw (taken, ◌>>=◌) refl

abbrev CleanAfter : Outcome Tokens × World → Type 0
CleanAfter r = AllClean r.1

module _ (ports : Ports) where
  joined-AllClean :
      (u : User) (i : Identity) (conflict : World → Outcome (Unit {0})) (w : World)
      → u.id ≡ w.next_id
      → has_left u ≡ false
      → i.user_id ≡ w.next_id
      → AllClean w
      → AllClean ((create_account u i conflict >> issue_tokens ports u (some i)) w).1
  joined-AllClean u i conflict w new active mine c = elim (Outcome-cases (verdict u i conflict w)) [
    | inl (x, free) ↦
        subst CleanAfter
          (sym (
            bind-ok (create_account u i conflict) (λ _. issue_tokens ports u (some i)) w tt
              (with_account u i w) (create_account-made u i conflict w x free)))
          (issue_tokens-AllClean ports u (some i) (with_account u i w)
            (find?-append_last (is_user u.id) w.users u
              (rw new (below-new w.next_id w.users c.below)) (==_refl u.id))
            (with_account-AllClean u i w new active mine c))
    | inr (s, code, taken) ↦
        subst CleanAfter
          (sym (
            bind-err (create_account u i conflict) (λ _. issue_tokens ports u (some i)) w s code w
              (create_account-refused u i conflict w s code taken)))
          c
  ]

  pub signup_with_email-AllClean :
      (d : SignupInput) (w : World) → AllClean w → AllClean (signup_with_email ports d w).1
  unfolding signup_with_email
  signup_with_email-AllClean d w c = elim (Outcome-cases (signup_ready ports d w)) [
    | inl (x, e) ↦
        rw (e, ◌>>=◌)
          (joined-AllClean (signup_user x.0 x.1 d.agreed_to_marketing w)
            (signup_identity ports x.0 d.password w) (signup_conflict x.0 x.1) w refl refl refl c)
    | inr (s, code, e) ↦ rw (e, ◌>>=◌) c
  ]

  first_social_login-AllClean :
      (claims : SocialClaims) (w : World)
      → AllClean w
      → AllClean (first_social_login ports claims w).1
  unfolding first_social_login
  first_social_login-AllClean claims w c = elim (Outcome-cases (email_conflict_checked claims w)) [
    | inl (x, e) ↦
        rw (e, ◌>>=◌)
          (joined-AllClean (social_user ports claims w) (social_identity ports claims w)
            (create_conflict claims) w refl refl refl c)
    | inr (s, code, e) ↦ rw (e, ◌>>=◌) c
  ]

  known_social_login-AllClean :
      (i : Identity) (w : World) → AllClean w → AllClean (known_social_login ports i w).1
  unfolding known_social_login
  known_social_login-AllClean i w c = elim (Option-cases (find? (is_user i.user_id) w.users)) [
    | inl missing ↦ rw (missing, ◌>>=◌) c
    | inr (u, found) ↦ elim (Bool-cases (u.status == UserStatus.active)) [
      | inl active ↦
          rw (found, ◌>>=◌, active, ◌>>=◌)
            (issue_tokens-AllClean ports u (some i) w (by_id ports (is_user i.user_id) w u c found)
              c)
      | inr other ↦ rw (found, ◌>>=◌, other, ◌>>=◌) c
    ]
  ]

  social_login-AllClean :
      (o : Option Identity) (claims : SocialClaims) (w : World)
      → AllClean w
      → AllClean (social_login ports claims o w).1
  unfolding social_login
  social_login-AllClean none claims w c = first_social_login-AllClean claims w c
  social_login-AllClean (some i) claims w c = known_social_login-AllClean i w c

  pub login_with_social_identity-AllClean :
      (claims : SocialClaims) (w : World)
      → AllClean w
      → AllClean (login_with_social_identity ports claims w).1
  unfolding login_with_social_identity
  login_with_social_identity-AllClean claims w c =
      social_login-AllClean (find_identity claims.provider claims.provider_user_id w) claims w c
