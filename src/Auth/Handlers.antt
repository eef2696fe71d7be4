-- ===== src/Auth/Handlers.antt =====
-- issueTokens, loginWithEmail, refresh and logout of auth/auth.service.ts. `randomUUID` and the salt of a
-- hash are a number that was not used before.
use inhouse_maker_core_serve.Common.{
  ℕ, ◌+◌, Option, none, some, ◌==◌, nat_eq, find?, change_first, String,
}
use inhouse_maker_core_serve.Model.Kinds.{AuthProvider}
use inhouse_maker_core_serve.Model.World.{World, User, Identity}
use inhouse_maker_core_serve.Model.Outcome.{or_reject, HttpStatus, AppErrorCode}
use inhouse_maker_core_serve.Model.Action.{Action, ◌>>=◌, ◌>>◌, check, gets, modify, pure}
use inhouse_maker_core_serve.Auth.{
  TokenType, Secret, Ports, is_user, assert_can_authenticate, latest_provider, refresh_ready,
  email_login_ready,
}

-- AuthTokensResponseDto
pub record Tokens : Type 0 where
  pub user_id : ℕ
  pub provider : Option AuthProvider
  pub access_token : String
  pub refresh_token : String

unfoldable pub with_refresh_hash : Option String → User → User
with_refresh_hash h u = record u { refresh_token_hash = h }

abbrev pub used_at : ℕ → Identity → Identity
used_at now i = record i { last_login_at = some now }

-- `if (identityId) updates.push(...)`
abbrev touch_identity : Option Identity → World → World
touch_identity none w = w
touch_identity (some i) w = record w {
  identities = change_first (λ j. j.id == i.id) (used_at w.now) w.identities;
}

-- `update` is rejected where there is no such user.
unfoldable pub logout : ℕ → Action (Unit {0})
logout user = do
  u ← check (λ w.
      or_reject (find? (is_user user) w.users) HttpStatus.internal_server_error
        AppErrorCode.database_error)
  modify (λ w. record w { users = change_first (is_user user) (with_refresh_hash none) w.users })

module _ (ports : Ports) where
  abbrev pub refresh_token_of : User → ℕ → ℕ → String
  refresh_token_of u jti now =
      ports.sign Secret.refresh_secret
        (record { sub = u.id; email = u.email; token_type = TokenType.refresh; jti = some jti }) now

  abbrev pub access_token_of : User → ℕ → String
  access_token_of u now =
      ports.sign Secret.access_secret
        (record { sub = u.id; email = u.email; token_type = TokenType.access; jti = none }) now

  -- The transaction of issueTokens.
  unfoldable pub store_session : User → Option Identity → World → World
  store_session u identity w = touch_identity identity (record w {
    users =
        change_first (is_user u.id)
          (with_refresh_hash (some (ports.hash w.next_id (refresh_token_of u w.next_id w.now))))
          w.users;
    next_id = w.next_id + 1;
  })

  abbrev pub provider_of : Option Identity → User → World → Option AuthProvider
  provider_of none u w = latest_provider u.id w
  provider_of (some i) u w = some i.provider

  unfoldable pub issue_tokens : User → Option Identity → Action Tokens
  issue_tokens u identity = do
    check (λ w. assert_can_authenticate u)
    refresh_token ← gets (λ w. refresh_token_of u w.next_id w.now)
    access_token ← gets (λ w. access_token_of u w.now)
    modify (store_session u identity)
    provider ← gets (provider_of identity u)
    pure (record {
      user_id = u.id;
      provider = provider;
      access_token = access_token;
      refresh_token = refresh_token;
    })

  unfoldable pub login_with_email : String → String → Action Tokens
  login_with_email address password = do
    found ← check (email_login_ready ports address password)
    issue_tokens found.0 (some found.1)

  unfoldable pub refresh : String → Action Tokens
  refresh token = do u ← check (refresh_ready ports token); issue_tokens u none
