-- ===== src/Auth/Rotation.antt =====
-- The refresh token that a login hands out: auth/auth.service.ts.
use inhouse_maker_core_serve.Common.{
  ℕ, ◌≡◌, refl, ap, ◌∙◌, true, false, Option, none, some, arith, ◌==◌, nat_eq, string_eq, find?,
  find?-holds, find?-change_first, String,
}
use inhouse_maker_core_serve.Model.Kinds.{UserStatus, user_status_eq}
use inhouse_maker_core_serve.Model.World.{World, User, Identity}
use inhouse_maker_core_serve.Model.Outcome.{Outcome, ok, ◌>>=◌ as bind}
use inhouse_maker_core_serve.Model.Action.{◌>>=◌}
use inhouse_maker_core_serve.Auth.{
  TokenPayload, Ports, is_user, session_of, verify_refresh_token, refresh_ready, email_login_ready,
}
use inhouse_maker_core_serve.Auth.Handlers.{
  Tokens, with_refresh_hash, refresh_token_of, access_token_of, provider_of, store_session,
  issue_tokens, login_with_email, refresh,
}
use inhouse_maker_core_serve.Auth.Sessions.{same_user}

abbrev pub CanAuthenticate : User → Type 0
CanAuthenticate u = (u.status == UserStatus.active) ≡ true

with_hash-CanAuthenticate :
    (h : Option String) (u : User) → CanAuthenticate u → CanAuthenticate (with_refresh_hash h u)
unfolding with_refresh_hash
with_hash-CanAuthenticate h u a = a

session_of-some :
    (u : User) (h : String)
    → (h == "") ≡ false
    → session_of (some (with_refresh_hash (some h) u)) ≡ ok (with_refresh_hash (some h) u, h)
unfolding with_refresh_hash
session_of-some u h e = rw e refl

module _ (ports : Ports) where
  abbrev pub new_hash : User → World → String
  new_hash u w = ports.hash w.next_id (refresh_token_of ports u w.next_id w.now)

  refresh_ready-accepts :
      (token : String) (w : World) (p : TokenPayload) (u : User) (h : String)
      → verify_refresh_token ports token w ≡ ok p
      → session_of (find? (is_user p.sub) w.users) ≡ ok (u, h)
      → CanAuthenticate u
      → ports.compare token h ≡ true
      → refresh_ready ports token w ≡ ok u
  unfolding refresh_ready
  refresh_ready-accepts token w p u h e session active same =
      rw (e, bind, session, bind, active, same) refl

  stored-row :
      (u : User) (i : Option Identity) (w : World)
      → find? (is_user u.id) w.users ≡ some u
      → find? (is_user u.id) (store_session ports u i w).users
        ≡ some (with_refresh_hash (some (new_hash u w)) u)
  unfolding store_session
  stored-row u none w found =
      find?-change_first (is_user u.id) _ w.users u found
        (same_user u.id _ u (find?-holds (is_user u.id) w.users u found))
  stored-row u (some i) w found =
      find?-change_first (is_user u.id) _ w.users u found
        (same_user u.id _ u (find?-holds (is_user u.id) w.users u found))

  verify-stored :
      (token : String) (u : User) (i : Option Identity) (w : World)
      → verify_refresh_token ports token (store_session ports u i w)
        ≡ verify_refresh_token ports token w
  unfolding verify_refresh_token store_session
  verify-stored token u none w = refl
  verify-stored token u (some i) w = refl

  abbrev pub tokens_of : User → Option Identity → World → Tokens
  tokens_of u i w = record {
    user_id = u.id;
    provider = provider_of ports i u (store_session ports u i w);
    access_token = access_token_of ports u w.now;
    refresh_token = refresh_token_of ports u w.next_id w.now;
  }

  pub issue_tokens-issued :
      (u : User) (i : Option Identity) (w : World)
      → CanAuthenticate u
      → issue_tokens ports u i w ≡ (ok (tokens_of u i w), store_session ports u i w)
  unfolding issue_tokens
  issue_tokens-issued u i w active = rw (active, ◌>>=◌) refl

  -- A token that fits the hash that a session has just stored is accepted, and the answer is for the
  -- same user.
  accepts-stored :
      (token : String) (u : User) (i : Option Identity) (w : World) (p : TokenPayload)
      → find? (is_user u.id) w.users ≡ some u
      → CanAuthenticate u
      → (new_hash u w == "") ≡ false
      → verify_refresh_token ports token w ≡ ok p
      → p.sub ≡ u.id
      → ports.compare token (new_hash u w) ≡ true
      → (t : Tokens) × ((refresh ports token (store_session ports u i w)).0 ≡ ok t)
        × (t.user_id ≡ u.id)
  unfolding refresh with_refresh_hash
  accepts-stored token u i w p found active full e mine same =
      let u' = with_refresh_hash (some (new_hash u w)) u in
      let v = store_session ports u i w in
      let row : find? (is_user p.sub) v.users ≡ some u' = rw mine (stored-row u i w found) in
      let ready : refresh_ready ports token v ≡ ok u' =
        refresh_ready-accepts token v p u' (new_hash u w) (verify-stored token u i w ∙ e)
          (rw row (session_of-some u (new_hash u w) full))
          (with_hash-CanAuthenticate (some (new_hash u w)) u active) same in
      (
        tokens_of u' none v,
        rw (ready, ◌>>=◌)
            (ap (λ (r : Outcome Tokens × World). r.0) (issue_tokens-issued u' none v active)),
        refl,
      )

  pub login_ready-active :
      (address password : String) (w : World) (u : User) (i : Identity)
      → email_login_ready ports address password w ≡ ok (u, i)
      → CanAuthenticate u
  unfolding email_login_ready
  login_ready-active address password w u i e = ground arith

  -- A login with a password hands out a refresh token that is accepted at once, for the user that
  -- logged in, where tokens are verified as they were signed, a hash is not empty and fits what was
  -- hashed.
  pub login_with_email-refresh :
      (address password : String) (w : World) (u : User) (i : Identity) (p : TokenPayload)
      → email_login_ready ports address password w ≡ ok (u, i)
      → find? (is_user u.id) w.users ≡ some u
      → verify_refresh_token ports (refresh_token_of ports u w.next_id w.now) w ≡ ok p
      → p.sub ≡ u.id
      → ((salt : ℕ) (x : String) → (ports.hash salt x == "") ≡ false)
      → ((salt : ℕ) (x : String) → ports.compare x (ports.hash salt x) ≡ true)
      → (t t' : Tokens) × (w' : World) × (login_with_email ports address password w ≡ (ok t, w'))
        × ((refresh ports t.refresh_token w').0 ≡ ok t')
        × (t'.user_id ≡ u.id)
  unfolding login_with_email
  login_with_email-refresh address password w u i p e found verified mine full fits =
      let active = login_ready-active address password w u i e in
      let token = refresh_token_of ports u w.next_id w.now in
      let (t', again, same) =
        accepts-stored token u (some i) w p found active (full w.next_id token) verified mine
          (fits w.next_id token) in
      (
        tokens_of u (some i) w,
        t',
        store_session ports u (some i) w,
        rw (e, ◌>>=◌) (issue_tokens-issued u (some i) w active),
        again,
        same,
      )
