-- ===== src/Auth/Sessions.antt =====
-- Which refresh tokens are accepted: refresh, logout and loginWithEmail of auth/auth.service.ts.
use inhouse_maker_core_serve.Common.{
  ℕ, ◌≡◌, refl, ◌∙◌, true, Option, none, some, Option-cases, inl, inr, nat_eq, string_eq, find?,
  find?-holds, change_first, find?-change_first, String,
}
use inhouse_maker_core_serve.Model.Kinds.{user_status_eq}
use inhouse_maker_core_serve.Model.World.{World, User}
use inhouse_maker_core_serve.Model.Outcome.{
  Outcome, ok, err, ◌>>=◌ as bind, HttpStatus, AppErrorCode,
}
use inhouse_maker_core_serve.Model.Action.{◌>>=◌}
use inhouse_maker_core_serve.Auth.{
  TokenPayload, Ports, is_user, session_of, verify_refresh_token, refresh_ready,
}
use inhouse_maker_core_serve.Auth.Handlers.{Tokens, with_refresh_hash, logout, refresh}

pub same_user :
    (k : ℕ) (h : Option String) (u : User)
    → is_user k u ≡ true
    → is_user k (with_refresh_hash h u) ≡ true
unfolding with_refresh_hash
same_user k h u e = e

abbrev pub refused : Outcome Tokens
refused = err HttpStatus.unauthorized AppErrorCode.invalid_credentials

abbrev logged_out : ℕ → World → World
logged_out k w = record w { users = change_first (is_user k) (with_refresh_hash none) w.users }

world-logout :
    (k : ℕ) (w : World) (u : User)
    → find? (is_user k) w.users ≡ some u
    → (logout k w).1 ≡ logged_out k w
unfolding logout
world-logout k w u e = rw (e, ◌>>=◌) refl

world-no_user : (k : ℕ) (w : World) → find? (is_user k) w.users ≡ none → (logout k w).1 ≡ w
unfolding logout
world-no_user k w e = rw (e, ◌>>=◌) refl

no_session :
    (u : User)
    → session_of (some (with_refresh_hash none u))
      ≡ err HttpStatus.unauthorized AppErrorCode.invalid_credentials
unfolding with_refresh_hash
no_session u = refl

module _ (ports : Ports) where
  ended-refused :
      (token : String) (w : World) (p : TokenPayload)
      → verify_refresh_token ports token w ≡ ok p
      → session_of (find? (is_user p.sub) w.users)
        ≡ err HttpStatus.unauthorized AppErrorCode.invalid_credentials
      → refresh_ready ports token w ≡ err HttpStatus.unauthorized AppErrorCode.invalid_credentials
  unfolding refresh_ready
  ended-refused token w p e over = rw (e, bind, over, bind) refl

  pub refresh-ended :
      (token : String) (w : World) (p : TokenPayload)
      → verify_refresh_token ports token w ≡ ok p
      → session_of (find? (is_user p.sub) w.users)
        ≡ err HttpStatus.unauthorized AppErrorCode.invalid_credentials
      → refresh ports token w ≡ (refused, w)
  unfolding refresh
  refresh-ended token w p e over = let no = ended-refused token w p e over in rw (no, ◌>>=◌) refl

  verify-logged_out :
      (token : String) (user : ℕ) (w : World)
      → verify_refresh_token ports token (logged_out user w) ≡ verify_refresh_token ports token w
  unfolding verify_refresh_token
  verify-logged_out token user w = refl

  -- After a user has logged out, no refresh token of that user is accepted, and one that is refused
  -- changes nothing.
  pub refresh-logout :
      (token : String) (w : World) (p : TokenPayload)
      → verify_refresh_token ports token w ≡ ok p
      → refresh ports token (logout p.sub w).1 ≡ (refused, (logout p.sub w).1)
  refresh-logout token w p e = elim (Option-cases (find? (is_user p.sub) w.users)) [
    | inl missing ↦ rw (world-no_user p.sub w missing) (refresh-ended token w p e (rw missing refl))
    | inr (u, found) ↦ rw (world-logout p.sub w u found) (
        refresh-ended token (logged_out p.sub w) p (verify-logged_out token p.sub w ∙ e) (
          rw
            (find?-change_first (is_user p.sub) (with_refresh_hash none) w.users u found
              (same_user p.sub none u (find?-holds (is_user p.sub) w.users u found)))
            (no_session u)))
  ]
