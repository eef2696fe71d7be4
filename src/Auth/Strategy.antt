-- ===== src/Auth/Strategy.antt =====
-- Who a request comes from: auth/jwt.strategy.ts, on the payload of an access token that the library
-- has verified.
use inhouse_maker_core_serve.Common.{Bool, true, false, not, find?}
use inhouse_maker_core_serve.Model.World.{World, User}
use inhouse_maker_core_serve.Model.Outcome.{
  Outcome, ok, ◌>>=◌, ◌>>◌, reject_if, or_reject, HttpStatus, AppErrorCode,
}
use inhouse_maker_core_serve.Auth.{TokenType, TokenPayload, is_user, assert_can_authenticate}

abbrev is_access : TokenType → Bool
is_access TokenType.access = true
is_access TokenType.refresh = false

-- `validate`: the id of the user; a user who is not active is refused.
unfoldable pub validate : TokenPayload → World → Outcome User
validate p w = do
  reject_if (not (is_access p.token_type)) HttpStatus.unauthorized AppErrorCode.auth_required
  u ← or_reject (find? (is_user p.sub) w.users) HttpStatus.unauthorized AppErrorCode.auth_required
  assert_can_authenticate u
  ok u
