-- ===== src/Auth/SignedUp.antt =====
-- Signing up and then logging in: auth/auth.service.ts.
use inhouse_maker_core_serve.Common.{
  ℕ, ◌+◌, ◌≡◌, refl, ap, ◌∙◌, Bool, true, false, ◌&&◌, some, [], ◌∷◌, ◌++◌, arith, ◌==◌, nat_eq,
  string_eq, find?, any, is_some-find?, find?-append_last, change_first-append_last, String,
  ==_refl,
}
use inhouse_maker_core_serve.Model.Kinds.{AuthProvider, provider_eq}
use inhouse_maker_core_serve.Model.World.{World, User, Identity}
use inhouse_maker_core_serve.Model.Outcome.{Outcome, ok, ◌>>=◌ as bind}
use inhouse_maker_core_serve.Model.Action.{Action, ◌>>=◌, ◌>>◌, bind-ok, check, gets}
use inhouse_maker_core_serve.Auth.{Ports, is_user, find_identity, email_login_ready}
use inhouse_maker_core_serve.Auth.Handlers.{
  Tokens, with_refresh_hash, used_at, store_session, issue_tokens, login_with_email,
}
use inhouse_maker_core_serve.Auth.Accounts.{SignupInput, signup_ready}
use inhouse_maker_core_serve.Auth.SignUp.{
  signup_user, signup_identity, is_taken, with_account, create_account, signup_conflict,
  signup_with_email,
}
use inhouse_maker_core_serve.Auth.Rotation.{tokens_of, issue_tokens-issued, new_hash}

-- The ids that the next account gets are new.
pub record HasNewIds (w : World) : Type 0 where
  pub user : any (is_user w.next_id) w.users ≡ false
  pub identity : any (λ j. j.id == w.next_id + 1) w.identities ≡ false

module _ (ports : Ports) (d : SignupInput) (w : World) where
  abbrev address : String
  address = ports.normalize d.email

  abbrev name : String
  name = ports.trim d.nickname

  abbrev user_row : User
  user_row = signup_user address name d.agreed_to_marketing w

  abbrev identity_row : Identity
  identity_row = signup_identity ports address d.password w

  abbrev with_rows : World
  with_rows = with_account user_row identity_row w

  abbrev in_session : World
  in_session = store_session ports user_row (some identity_row) with_rows

  create_account-new :
      is_taken user_row identity_row w ≡ false
      → create_account user_row identity_row (signup_conflict address name) w ≡ (ok tt, with_rows)
  unfolding create_account
  create_account-new free = rw (free, ◌>>=◌) refl

  -- signupWithEmail after its checks.
  abbrev after_checks : String × String → Action Tokens
  after_checks x = do
    u ← gets (signup_user x.0 x.1 d.agreed_to_marketing)
    i ← gets (signup_identity ports x.0 d.password)
    create_account u i (signup_conflict x.0 x.1)
    issue_tokens ports u (some i)

  signup_with_email-session :
      signup_ready ports d w ≡ ok (address, name)
      → is_taken user_row identity_row w ≡ false
      → signup_with_email ports d w
        ≡ (ok (tokens_of ports user_row (some identity_row) with_rows), in_session)
  unfolding signup_with_email
  signup_with_email-session e free =
      bind-ok (check (signup_ready ports d)) after_checks w (address, name) w (ap (λ o. (o, w)) e)
      ∙ bind-ok (create_account user_row identity_row (signup_conflict address name))
          (λ _. issue_tokens ports user_row (some identity_row)) w tt with_rows
          (create_account-new free)
      ∙ issue_tokens-issued ports user_row (some identity_row) with_rows refl

  abbrev session_user : User
  session_user = with_refresh_hash (some (new_hash ports user_row with_rows)) user_row

  abbrev session_identity : Identity
  session_identity = used_at w.now identity_row

  users-in_session : HasNewIds w → in_session.users ≡ w.users ++ session_user ∷ []
  unfolding store_session
  users-in_session ids =
      change_first-append_last (is_user w.next_id) _ w.users user_row ids.user (==_refl w.next_id)

  identities-in_session :
      HasNewIds w → in_session.identities ≡ w.identities ++ session_identity ∷ []
  unfolding store_session
  identities-in_session ids =
      change_first-append_last (λ j. j.id == w.next_id + 1) _ w.identities identity_row ids.identity
        (==_refl (w.next_id + 1))

  find-session_user :
      HasNewIds w
      → is_taken user_row identity_row w ≡ false
      → find? (λ u. u.email == address) in_session.users ≡ some session_user
  unfolding with_refresh_hash
  find-session_user ids free = rw (users-in_session ids) (
      find?-append_last (λ u. u.email == address) w.users session_user (ground arith)
        (==_refl address))

  find-session_identity :
      HasNewIds w
      → is_taken user_row identity_row w ≡ false
      → find_identity AuthProvider.email address in_session ≡ some session_identity
  find-session_identity ids free =
      let key : Identity → Bool =
        λ i. i.provider == AuthProvider.email && i.provider_user_id == address in
      let missing = is_some-find? key w.identities in
      rw (identities-in_session ids)
        (find?-append_last key w.identities session_identity (ground arith) (==_refl address))

  login_ready-session :
      ports.is_email address ≡ true
      → HasNewIds w
      → is_taken user_row identity_row w ≡ false
      → ((salt : ℕ) (x : String) → (ports.hash salt x == "") ≡ false)
      → ((salt : ℕ) (x : String) → ports.compare x (ports.hash salt x) ≡ true)
      → email_login_ready ports d.email d.password in_session ≡ ok (session_user, session_identity)
  unfolding email_login_ready with_refresh_hash
  login_ready-session valid ids free full fits =
      let user = find-session_user ids free in
      let identity = find-session_identity ids free in
      let filled = full w.next_id d.password in
      let right = fits w.next_id d.password in
      rw (valid, user, bind, identity, bind, filled, right) refl

  signup_ready-valid : signup_ready ports d w ≡ ok (address, name) → ports.is_email address ≡ true
  unfolding signup_ready
  signup_ready-valid e = ground arith

  -- Whoever has signed up with an address and a password can log in with them at once, as the same
  -- user, where the ids, the address and the nickname are new, a hash is not empty and fits what was
  -- hashed.
  pub signup_with_email-login :
      signup_ready ports d w ≡ ok (ports.normalize d.email, ports.trim d.nickname)
      → HasNewIds w
      → is_taken
          (signup_user (ports.normalize d.email) (ports.trim d.nickname) d.agreed_to_marketing w)
          (signup_identity ports (ports.normalize d.email) d.password w)
          w
        ≡ false
      → ((salt : ℕ) (x : String) → (ports.hash salt x == "") ≡ false)
      → ((salt : ℕ) (x : String) → ports.compare x (ports.hash salt x) ≡ true)
      → (t t' : Tokens) × (w' : World) × (signup_with_email ports d w ≡ (ok t, w'))
        × ((login_with_email ports d.email d.password w').0 ≡ ok t')
        × (t'.user_id ≡ t.user_id)
  unfolding login_with_email with_refresh_hash
  signup_with_email-login e ids free full fits =
      let ready = login_ready-session (signup_ready-valid e) ids free full fits in
      (
        tokens_of ports user_row (some identity_row) with_rows,
        tokens_of ports session_user (some session_identity) in_session,
        in_session,
        signup_with_email-session e free,
        rw (ready, ◌>>=◌)
            (ap (λ (r : Outcome Tokens × World). r.0)
              (issue_tokens-issued ports session_user (some session_identity) in_session refl)),
        refl,
      )
