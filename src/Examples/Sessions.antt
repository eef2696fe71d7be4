-- ===== src/Examples/Sessions.antt =====
-- A user who signs in, with token and hash functions that are easy to follow.
use inhouse_maker_core_serve.Common.{
  ℕ, ◌≡◌, refl, true, false, none, some, [], ◌∷◌, Bool-cases, inl, inr, if◌then◌else◌, ◌==◌,
  string_eq, ==_refl, String,
}
use inhouse_maker_core_serve.Model.Kinds.{AuthProvider}
use inhouse_maker_core_serve.Model.World.{World, User, Identity}
use inhouse_maker_core_serve.Model.Outcome.{ok, err, HttpStatus, AppErrorCode}
use inhouse_maker_core_serve.Auth.{
  TokenType, TokenPayload, Secret, Ports, verify_refresh_token, email_login_ready,
}
use inhouse_maker_core_serve.Auth.Handlers.{Tokens, logout, login_with_email, refresh}
use inhouse_maker_core_serve.Auth.Accounts.{
  SignupInput, is_strong, assert_email_available, assert_nickname_available, signup_ready,
}
use inhouse_maker_core_serve.Auth.SignUp.{signup_with_email}
use inhouse_maker_core_serve.Auth.SignedUp.{signup_with_email-login}
use inhouse_maker_core_serve.Auth.Sessions.{refresh-logout}
use inhouse_maker_core_serve.Auth.Rotation.{login_with_email-refresh}
use inhouse_maker_core_serve.Examples.Data.{no_matches, some_user}

abbrev pub session_payload : TokenPayload
session_payload = record {
  sub = 1;
  email = "one@example.org";
  token_type = TokenType.refresh;
  jti = none;
}

abbrev non_empty : String → String
non_empty x = if x == "" then "#" else x

abbrev pub plain_ports : Ports
plain_ports = record {
  sign = λ s p t. elim s [ Secret.access_secret ↦ "access" | Secret.refresh_secret ↦ "refresh" ];
  verify = λ s x t. if x == "refresh" then some session_payload else none;
  hash = λ salt x. non_empty x;
  compare = λ x h. h == non_empty x;
  is_email = λ x. true;
  normalize = λ x. x;
  trim = λ x. x;
  code_units = λ x. 72 ∷ 101 ∷ 108 ∷ 108 ∷ 111 ∷ 49 ∷ 50 ∷ 51 ∷ [];
  uuid_prefix = λ k. "00000000";
}

non_empty-full : (salt : ℕ) (x : String) → (plain_ports.hash salt x == "") ≡ false
non_empty-full salt x = elim (Bool-cases (x == "")) [
  | inl empty ↦ rw empty refl
  | inr full ↦ rw (full, full) refl
]

non_empty-fits : (salt : ℕ) (x : String) → plain_ports.compare x (plain_ports.hash salt x) ≡ true
non_empty-fits salt x = ==_refl (non_empty x)

abbrev pub one : User
one = record (some_user 1) { email = "one@example.org"; refresh_token_hash = some "refresh" }

abbrev pub identity_one : Identity
identity_one = record {
  id = 5;
  user_id = 1;
  provider = AuthProvider.email;
  provider_user_id = "one@example.org";
  email = some "one@example.org";
  password_hash = some "secret1";
  linked_at = 10;
  last_login_at = none;
}

abbrev pub signed_up : World
signed_up = record no_matches { users = one ∷ []; identities = identity_one ∷ [] }

verified : verify_refresh_token plain_ports "refresh" signed_up ≡ ok session_payload
unfolding verify_refresh_token
verified = refl

refresh-logout_example :
    refresh plain_ports "refresh" (logout 1 signed_up).1
    ≡ (err HttpStatus.unauthorized AppErrorCode.invalid_credentials, (logout 1 signed_up).1)
refresh-logout_example = refresh-logout plain_ports "refresh" signed_up session_payload verified

one-logs_in :
    email_login_ready plain_ports "one@example.org" "secret1" signed_up ≡ ok (one, identity_one)
unfolding email_login_ready
one-logs_in = refl

login_with_email-refresh_example :
    (t t' : Tokens) × (w' : World) × (login_with_email plain_ports "one@example.org" "secret1"
        signed_up
      ≡ (ok t, w'))
    × ((refresh plain_ports t.refresh_token w').0 ≡ ok t')
    × (t'.user_id ≡ one.id)
login_with_email-refresh_example =
    login_with_email-refresh plain_ports "one@example.org" "secret1" signed_up one identity_one
      session_payload one-logs_in refl verified refl non_empty-full non_empty-fits

abbrev pub newcomer : SignupInput
newcomer = record {
  email = "two@example.org";
  password = "Hello123";
  nickname = "two";
  agreed_to_terms = true;
  agreed_to_privacy = true;
  agreed_to_marketing = false;
}

newcomer-ready : signup_ready plain_ports newcomer signed_up ≡ ok ("two@example.org", "two")
unfolding signup_ready is_strong assert_email_available assert_nickname_available
newcomer-ready = refl

signup_with_email-login_example :
    (t t' : Tokens) × (w' : World) × (signup_with_email plain_ports newcomer signed_up ≡ (ok t, w'))
    × ((login_with_email plain_ports "two@example.org" "Hello123" w').0 ≡ ok t')
    × (t'.user_id ≡ t.user_id)
signup_with_email-login_example =
    signup_with_email-login plain_ports newcomer signed_up newcomer-ready
      (record { user = refl; identity = refl }) refl non_empty-full non_empty-fits
