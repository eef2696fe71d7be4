-- ===== src/Users/Withdrawn.antt =====
-- Whoever has withdrawn cannot come back: withdrawMe of users/users.service.ts against the sessions
-- of auth/auth.service.ts.
use inhouse_maker_core_serve.Common.{
  ℕ, ◌≡◌, refl, ap, Bool, true, false, ◌||◌, not, Option, none, some, List, [], ◌∷◌, map, arith,
  inl, inr, ◌==◌, nat_eq, Bool-cases, All, All-find?, All-written, string_eq, IsDistinct, find?,
  find?-holds, find?-change_first, filter, String,
}
use inhouse_maker_core_serve.Model.Kinds.{UserStatus, user_status_eq}
use inhouse_maker_core_serve.Model.World.{World, User, Identity}
use inhouse_maker_core_serve.Model.Outcome.{
  Outcome, ok, err, Outcome-cases, HttpStatus, AppErrorCode,
}
use inhouse_maker_core_serve.Model.Action.{◌>>=◌}
use inhouse_maker_core_serve.Auth.{
  TokenPayload, Ports, is_user, session_of, verify_refresh_token, email_login_ready,
}
use inhouse_maker_core_serve.Auth.Handlers.{Tokens, issue_tokens, login_with_email, refresh}
use inhouse_maker_core_serve.Auth.Sessions.{refused, refresh-ended}
use inhouse_maker_core_serve.Auth.Rotation.{login_ready-active}
use inhouse_maker_core_serve.Users.{UserPorts, existing_user}
use inhouse_maker_core_serve.Users.Handlers.{
  delete_by_url, withdrawn_email, withdrawn_nickname, withdrawn_user, withdrawn_world,
  withdraw_ready, withdraw_me,
}

-- What withdrawMe deletes is gone: the identities, the Riot accounts and the blocks of a user.
pub record IsForgotten (user : ℕ) (w : World) : Type 0 where
  pub identities : All (λ i. (i.user_id == user) ≡ false) w.identities
  pub riot_accounts : All (λ a. (a.user_id == user) ≡ false) w.riot_accounts
  pub blocks : All (λ b. (b.user_id == user || b.target_user_id == user) ≡ false) w.blocks

-- A row with placeholders for its address and nickname, and nothing that the user entered or agreed
-- to.
pub record IsAnonymous (texts : UserPorts) (user : ℕ) (v : User) : Type 0 where
  pub status : v.status ≡ UserStatus.withdrawn
  pub email : v.email ≡ withdrawn_email texts user
  pub nickname : v.nickname ≡ withdrawn_nickname texts user
  pub refresh_token_hash : v.refresh_token_hash ≡ none
  pub profile_image_url : v.profile_image_url ≡ none
  pub style_tags : v.style_tags ≡ none
  pub positions : (v.primary_position ≡ none) × (v.secondary_position ≡ none)
  pub power : v.overall_power ≡ none
  pub consents :
      (v.terms_agreed_at ≡ none) × (v.privacy_agreed_at ≡ none) × (v.marketing_opt_in_at ≡ none)

-- The row of a user is there, and anonymous.
abbrev pub HasAnonymousRow : UserPorts → ℕ → World → Type 0
HasAnonymousRow texts user w =
    (v : User) × (find? (is_user user) w.users ≡ some v) × IsAnonymous texts user v

abbrev pub signs_in_as : ℕ → Outcome Tokens → Bool
signs_in_as user (err s c) = false
signs_in_as user (ok t) = t.user_id == user

-- What a filter keeps fails the test whose negation it is.
kept-not :
    {A : Type 0} (p : A → Bool) (xs : List A) → All (λ x. p x ≡ false) (filter (λ x. not (p x)) xs)
kept-not p [] = tt
kept-not p (x ∷ xs) = ground (arith, kept-not p xs)

issue_tokens-signs_in :
    (ports : Ports) (user : ℕ) (u : User) (i : Option Identity) (w : World)
    → (u.id == user) ≡ false
    → signs_in_as user (issue_tokens ports u i w).0 ≡ false
unfolding issue_tokens
issue_tokens-signs_in ports user u i w other = elim (Bool-cases (u.status == UserStatus.active)) [
  | inl active ↦ rw (active, ◌>>=◌) other
  | inr not_active ↦ rw (not_active, ◌>>=◌) refl
]

pub login_ready-found :
    (ports : Ports) (address password : String) (w : World) (u : User) (i : Identity)
    → email_login_ready ports address password w ≡ ok (u, i)
    → find? (λ v. v.email == ports.normalize address) w.users ≡ some u
unfolding email_login_ready
login_ready-found ports address password w u i e = ground arith

-- A login with a password is a login as an active user.
login_with_email-signs_in :
    (ports : Ports) (user : ℕ) (address password : String) (w : World)
    → All (λ v. (v.id == user) ≡ true → (v.status == UserStatus.active) ≡ false) w.users
    → signs_in_as user (login_with_email ports address password w).0 ≡ false
unfolding login_with_email
login_with_email-signs_in ports user address password w inactive =
    elim (Outcome-cases (email_login_ready ports address password w)) [
      | inl ((v, i), e) ↦
          let active = login_ready-active ports address password w v i e in
          let no =
            All-find? (λ x. (x.id == user) ≡ true → (x.status == UserStatus.active) ≡ false)
              (λ x. x.email == ports.normalize address) w.users inactive
              (login_ready-found ports address password w v i e) in
          rw (e, ◌>>=◌)
            (issue_tokens-signs_in ports user v (some i) w (elim (Bool-cases (v.id == user)) [
              | inl same ↦ let off = no same in absurd (cc)
              | inr other ↦ other
            ]))
      | inr (s, c, e) ↦ rw (e, ◌>>=◌) refl
    ]

module _ (texts : UserPorts) (ports : Ports) (user : ℕ) (w : World) where
  abbrev after : Option String → World
  after url = delete_by_url url (withdrawn_world texts user w)

  withdraw_me-world :
      (u : User)
      → withdraw_ready texts user w ≡ ok u
      → withdraw_me texts user w ≡ (ok tt, after u.profile_image_url)
  unfolding withdraw_me
  withdraw_me-world u e = rw (e, ◌>>=◌) refl

  withdrawn-IsForgotten : (url : Option String) → IsForgotten user (after url)
  unfolding withdrawn_world
  withdrawn-IsForgotten url = record {
    identities = kept-not (λ i. i.user_id == user) w.identities;
    riot_accounts = kept-not (λ a. a.user_id == user) w.riot_accounts;
    blocks = kept-not (λ b. b.user_id == user || b.target_user_id == user) w.blocks;
  }

  rows-withdrawn :
      (url : Option String)
      → IsDistinct (map (λ v. v.id) w.users)
      → All (λ v. (v.id == user) ≡ true → (v.status == UserStatus.active) ≡ false) (after url).users
  unfolding withdrawn_world withdrawn_user
  rows-withdrawn url distinct =
      All-written (λ (v : User). v.id) (λ v. (v.status == UserStatus.active) ≡ false)
        (withdrawn_user texts user w.now) user w.users distinct (λ v. refl)

  withdraw_ready-found :
      (u : User) → withdraw_ready texts user w ≡ ok u → find? (is_user user) w.users ≡ some u
  unfolding withdraw_ready existing_user
  withdraw_ready-found u e = ground arith

  session-withdrawn :
      (u : User) (url : Option String)
      → find? (is_user user) w.users ≡ some u
      → session_of (find? (is_user user) (after url).users)
        ≡ err HttpStatus.unauthorized AppErrorCode.invalid_credentials
  unfolding withdrawn_world withdrawn_user
  session-withdrawn u url found =
      rw
        (find?-change_first (is_user user) (withdrawn_user texts user w.now) w.users u found
          (find?-holds (is_user user) w.users u found))
        refl

  row-IsAnonymous :
      (u : User) (url : Option String)
      → find? (is_user user) w.users ≡ some u
      → HasAnonymousRow texts user (after url)
  unfolding withdrawn_world withdrawn_user
  row-IsAnonymous u url found = (
    withdrawn_user texts user w.now u,
    find?-change_first (is_user user) (withdrawn_user texts user w.now) w.users u found
        (find?-holds (is_user user) w.users u found),
    record {
      status = refl;
      email = refl;
      nickname = refl;
      refresh_token_hash = refl;
      profile_image_url = refl;
      style_tags = refl;
      positions = (refl, refl);
      power = refl;
      consents = (refl, refl, refl);
    },
  )

  -- After a successful withdrawal no identity and no Riot account of the user is left, and no block
  -- in either direction; the row of the user is anonymous. No refresh token of the user is accepted,
  -- and no login with a password is a login as the user, where the ids of users are distinct. What
  -- the user did elsewhere stays: memberships, posts, matches, reports, notifications.
  pub withdraw_me-IsForgotten :
      (u : User) (token address password : String) (p : TokenPayload)
      → withdraw_ready texts user w ≡ ok u
      → IsDistinct (map (λ v. v.id) w.users)
      → verify_refresh_token ports token (withdraw_me texts user w).1 ≡ ok p
      → p.sub ≡ user
      → IsForgotten user (withdraw_me texts user w).1
        × HasAnonymousRow texts user (withdraw_me texts user w).1
        × (refresh ports token (withdraw_me texts user w).1
            ≡ (refused, (withdraw_me texts user w).1))
        × (signs_in_as user (login_with_email ports address password (withdraw_me texts user w).1).0
            ≡ false)
  withdraw_me-IsForgotten u token address password p ready distinct verified mine =
      let done : (withdraw_me texts user w).1 ≡ after u.profile_image_url =
        ap (λ (r : Outcome (Unit {0}) × World). r.1) (withdraw_me-world u ready) in
      let found = withdraw_ready-found u ready in
      rw done (
        withdrawn-IsForgotten u.profile_image_url,
        row-IsAnonymous u u.profile_image_url found,
        refresh-ended ports token (after u.profile_image_url) p (rw done at verified)
            (rw mine (session-withdrawn u u.profile_image_url found)),
        login_with_email-signs_in ports user address password (after u.profile_image_url)
            (rows-withdrawn u.profile_image_url distinct),
      )
