-- ===== src/Auth/SignUp.antt =====
-- signupWithEmail and loginWithSocialIdentity of auth/auth.service.ts.
use Prim.Native.String.{◌++◌ as concat}
use inhouse_maker_core_serve.Common.{
  ℕ, ◌+◌, Bool, false, ◌||◌, Option, none, some, [], ◌∷◌, ◌++◌, if◌then◌else◌, ◌==◌, nat_eq,
  string_eq, find?, any, is_some, or_else, String,
}
use inhouse_maker_core_serve.Model.Kinds.{UserStatus, AuthProvider, provider_eq}
use inhouse_maker_core_serve.Model.World.{World, User, Identity}
use inhouse_maker_core_serve.Model.Outcome.{Outcome, ok, err, or_reject, HttpStatus, AppErrorCode}
use inhouse_maker_core_serve.Model.Action.{Action, ◌>>=◌, ◌>>◌, check, gets, modify}
use inhouse_maker_core_serve.Auth.{Ports, is_user, find_identity, assert_can_authenticate}
use inhouse_maker_core_serve.Auth.Accounts.{
  SignupInput, SocialClaims, assert_email_available, assert_nickname_available,
  email_conflict_checked, signup_ready,
}
use inhouse_maker_core_serve.Auth.Handlers.{Tokens, issue_tokens}

-- The defaults of prisma/schema.prisma for a new user and a new power profile.
abbrev pub new_user : ℕ → String → String → User
new_user k email nickname = record {
  id = k;
  is_admin = false;
  email = email;
  nickname = nickname;
  refresh_token_hash = none;
  status = UserStatus.active;
  primary_position = none;
  secondary_position = none;
  is_fill_available = false;
  overall_power = some 0;
  profile_image_url = none;
  style_tags = none;
  manner_score = 100;
  noshow_count = 0;
  terms_agreed_at = none;
  privacy_agreed_at = none;
  marketing_opt_in_at = none;
  withdrawn_at = none;
}

abbrev pub new_identity :
    ℕ → ℕ → AuthProvider → String → Option String → Option String → ℕ → Identity
new_identity k user provider key email password_hash now = record {
  id = k;
  user_id = user;
  provider = provider;
  provider_user_id = key;
  email = email;
  password_hash = password_hash;
  linked_at = now;
  last_login_at = some now;
}

-- The unique indexes on email, nickname and provider with user id (P2002).
abbrev pub is_taken : User → Identity → World → Bool
is_taken u i w =
    any (λ v. v.email == u.email) w.users
    || any (λ v. v.nickname == u.nickname) w.users
    || is_some (find_identity i.provider i.provider_user_id w)

-- The transaction that makes a user and an identity.
abbrev pub with_account : User → Identity → World → World
with_account u i w = record w {
  users = w.users ++ u ∷ [];
  identities = w.identities ++ i ∷ [];
  next_id = w.next_id + 2;
}

abbrev provider_name : AuthProvider → String
provider_name AuthProvider.email = "email"
provider_name AuthProvider.apple = "apple"
provider_name AuthProvider.google = "google"

-- resolveUserEmail
unfoldable pub user_email_of : SocialClaims → String
user_email_of c = or_else c.email (
    concat (provider_name c.provider)
      (concat "-" (concat c.provider_user_id "@no-email.auth.local")))

-- rethrowEmailSignupConflict
unfoldable pub signup_conflict : String → String → World → Outcome (Unit {0})
signup_conflict email nickname w = elim (assert_email_available email w) [
  | err s c ↦ err s c
  | ok x ↦ elim (assert_nickname_available nickname w) [
    | err s c ↦ err s c
    | ok y ↦ err HttpStatus.conflict AppErrorCode.email_already_in_use
  ]
]

-- rethrowCreateConflict
unfoldable pub create_conflict : SocialClaims → World → Outcome (Unit {0})
create_conflict c w = elim (email_conflict_checked c w) [
  | err s d ↦ err s d
  | ok x ↦ err HttpStatus.conflict AppErrorCode.provider_conflict
]

-- The transaction, or what is thrown where it is rejected.
unfoldable pub create_account : User → Identity → (World → Outcome (Unit {0})) → Action (Unit {0})
create_account u i conflict = do
  check (λ w. if is_taken u i w then conflict w else ok tt)
  modify (with_account u i)

-- The user of signupWithEmail, who has agreed to the terms.
abbrev pub signup_user : String → String → Bool → World → User
signup_user email nickname marketing w = record (new_user w.next_id email nickname) {
  terms_agreed_at = some w.now;
  privacy_agreed_at = some w.now;
  marketing_opt_in_at = if marketing then some w.now else none;
}

module _ (ports : Ports) where
  abbrev pub signup_identity : String → String → World → Identity
  signup_identity email password w =
      new_identity (w.next_id + 1) w.next_id AuthProvider.email email (some email)
        (some (ports.hash w.next_id password)) w.now

  unfoldable pub signup_with_email : SignupInput → Action Tokens
  signup_with_email d = do
    found ← check (signup_ready ports d)
    u ← gets (signup_user found.0 found.1 d.agreed_to_marketing)
    i ← gets (signup_identity found.0 d.password)
    create_account u i (signup_conflict found.0 found.1)
    issue_tokens ports u (some i)

  -- buildInitialNickname
  abbrev initial_nickname : AuthProvider → ℕ → String
  initial_nickname provider k =
      concat "user-" (concat (provider_name provider) (concat "-" (ports.uuid_prefix k)))

  abbrev pub social_user : SocialClaims → World → User
  social_user c w = new_user w.next_id (user_email_of c) (initial_nickname c.provider w.next_id)

  abbrev pub social_identity : SocialClaims → World → Identity
  social_identity c w =
      new_identity (w.next_id + 1) w.next_id c.provider c.provider_user_id c.email none w.now

  -- loginWithSocialIdentity without an identity of that provider.
  unfoldable pub first_social_login : SocialClaims → Action Tokens
  first_social_login c = do
    check (email_conflict_checked c)
    u ← gets (social_user c)
    i ← gets (social_identity c)
    create_account u i (create_conflict c)
    issue_tokens ports u (some i)

  -- The user that an identity belongs to, which a foreign key keeps.
  abbrev owner_of_identity : Identity → World → Outcome User
  owner_of_identity i w =
      or_reject (find? (is_user i.user_id) w.users) HttpStatus.internal_server_error
        AppErrorCode.database_error

  unfoldable pub known_social_login : Identity → Action Tokens
  known_social_login i = do
    u ← check (owner_of_identity i)
    check (λ w. assert_can_authenticate u)
    issue_tokens ports u (some i)

  -- `if (existingIdentity)`
  unfoldable pub social_login : SocialClaims → Option Identity → Action Tokens
  social_login c none = first_social_login c
  social_login c (some i) = known_social_login i

  unfoldable pub login_with_social_identity : SocialClaims → Action Tokens
  login_with_social_identity c = do
    known ← gets (find_identity c.provider c.provider_user_id)
    social_login c known
