-- ===== src/Accounts.antt =====
-- The requests about accounts, as auth/auth.controller.ts, users/me.controller.ts and
-- blocks/blocks.controller.ts pass them on: JwtAuthGuard first, where the route has it, and then the
-- service.
pub mod Rows
pub mod Writes
pub mod Keeps
pub mod Joins
pub mod Withdrawals
use inhouse_maker_core_serve.Common.{ℕ, Option, List, [], ◌∷◌, String}
use inhouse_maker_core_serve.Model.World.{World}
use inhouse_maker_core_serve.Model.Outcome.{ok, err}
use inhouse_maker_core_serve.Model.Action.{Action}
use inhouse_maker_core_serve.Auth.{TokenPayload, Ports}
use inhouse_maker_core_serve.Auth.Strategy.{validate}
use inhouse_maker_core_serve.Auth.Accounts.{SignupInput, SocialClaims}
use inhouse_maker_core_serve.Auth.SignUp.{signup_with_email, login_with_social_identity}
use inhouse_maker_core_serve.Auth.Handlers.{login_with_email, refresh, logout}
use inhouse_maker_core_serve.Users.{UserPorts, ImageFile}
use inhouse_maker_core_serve.Users.Handlers.{
  ProfileUpdate, update_my_profile, update_profile_image, delete_profile_image, withdraw_me,
}
use inhouse_maker_core_serve.Blocks.Handlers.{block_user, unblock_user}

-- A route behind the guard comes with the payload of its access token.
pub data AccountRequest : Type 0 where
  sign_up : SignupInput → AccountRequest
  social_login : SocialClaims → AccountRequest
  email_login : String → String → AccountRequest
  new_tokens : String → AccountRequest
  log_out withdraw delete_image : TokenPayload → AccountRequest
  update_profile : TokenPayload → ProfileUpdate → AccountRequest
  update_image : TokenPayload → Option ImageFile → AccountRequest
  block unblock : TokenPayload → ℕ → AccountRequest

-- A handler behind JwtAuthGuard.
unfoldable pub guarded : {A : Type 0} → TokenPayload → (ℕ → Action A) → World → World
guarded p handler w = elim (validate p w) [ ok u ↦ (handler u.id w).1 | err s c ↦ w ]

module _ (texts : UserPorts) (ports : Ports) where
  unfoldable pub serve : AccountRequest → World → World
  serve (AccountRequest.sign_up d) w = (signup_with_email ports d w).1
  serve (AccountRequest.social_login c) w = (login_with_social_identity ports c w).1
  serve (AccountRequest.email_login address password) w =
      (login_with_email ports address password w).1
  serve (AccountRequest.new_tokens token) w = (refresh ports token w).1
  serve (AccountRequest.log_out p) w = guarded p logout w
  serve (AccountRequest.withdraw p) w = guarded p (withdraw_me texts) w
  serve (AccountRequest.delete_image p) w = guarded p delete_profile_image w
  serve (AccountRequest.update_profile p d) w = guarded p (λ u. update_my_profile u d) w
  serve (AccountRequest.update_image p f) w = guarded p (λ u. update_profile_image texts u f) w
  serve (AccountRequest.block p target) w = guarded p (λ u. block_user u target) w
  serve (AccountRequest.unblock p target) w = guarded p (λ u. unblock_user u target) w

  unfoldable pub serve_all : List AccountRequest → World → World
  unfolding serve
  serve_all [] w = w
  serve_all (q ∷ qs) w = serve_all qs (serve q w)
