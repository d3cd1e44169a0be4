-- ===== src/Auth/Service.antt =====
-- backend/auth-service/internal/usecase/auth.go: registration, login, refresh and authorization.
use capibarco.Base.{Bool, true, not, ◌||◌, [], ◌∷◌, if◌then◌else◌}
use capibarco.Base.Text.{Text, lit}
use capibarco.Base.Action.{pure, fail, lift, ◌>>=◌, ◌>>◌}
use capibarco.Auth.Domain.{
  invalid_credentials, permission_denied, User, TokenClaims, user_registered, user_logged_in,
  token_refreshed, permission_denied_event,
}
use capibarco.Auth.Outside.{Env, Auth, draw, request, now, new_id}
use capibarco.Auth.Store.{create_user, get_user_by_email, get_user_by_id}
use capibarco.Auth.Tokens.{or_error, rotate_refresh_token}
use capibarco.Auth.Access.{
  normalize_email, validate_tenant, validate_password, event_user, log, publish, AuthOutput,
  issue_access_for_user, issue_auth_output,
}

pub record RegisterInput : Type 0 where
  pub tenant_id : Text
  pub email : Text
  pub password : Text
  pub ip : Text

pub record LoginInput : Type 0 where
  pub tenant_id : Text
  pub email : Text
  pub password : Text
  pub ip : Text
  pub user_agent : Text

unfoldable pub register : Env → RegisterInput → Auth AuthOutput
register env input = do
  email ← lift (normalize_email env input.email)
  lift (validate_tenant input.tenant_id)
  lift (validate_password env input.password)
  password_hash ← draw λ n. env.hash n input.password
  id ← new_id env
  at ← now env
  let user : User = record {
    id = id;
    tenant_id = input.tenant_id;
    email = email;
    password_hash = password_hash;
    is_active = true;
    created_at = at;
    updated_at = at;
  }
  request env (create_user user)
  log env user.tenant_id user.id (lit "register") (lit "success") input.ip []
  out ← issue_auth_output env user
  publish env user.id (user_registered (event_user user) user.tenant_id out.roles input.ip)
  pure out

-- The rest of `Login` once the credentials hold.
unfoldable pub welcome : Env → LoginInput → User → Auth AuthOutput
welcome env input user = do
  log env user.tenant_id user.id (lit "login") (lit "success") input.ip []
  out ← issue_auth_output env user
  publish env user.id (
      user_logged_in user.id user.tenant_id user.email out.token_id out.roles input.ip
        input.user_agent)
  pure out

unfoldable pub login : Env → LoginInput → Auth AuthOutput
login env input = do
  email ← lift (normalize_email env input.email)
  user ← or_error invalid_credentials (request env (get_user_by_email input.tenant_id email))
  accepted ← lift (env.verify input.password user.password_hash)
  if not accepted || not user.is_active
      then log env input.tenant_id user.id (lit "login") (lit "failure") input.ip []
        >> fail invalid_credentials
      else welcome env input user

unfoldable pub refresh_token : Env → Text → Auth AuthOutput
refresh_token env raw = do
  rotated ← rotate_refresh_token env raw
  user ← request env (get_user_by_id rotated.token.tenant_id rotated.token.user_id)
  out ← issue_access_for_user env user
  log env user.tenant_id user.id (lit "refresh") (lit "success") [] []
  publish env user.id (
      token_refreshed user.id user.tenant_id rotated.previous_token_id rotated.token.id
        out.expires_at)
  pure (record out { refresh_token = rotated.raw })

unfoldable pub validate_token : Env → Text → Auth TokenClaims
validate_token env access_token = draw λ n. env.validate_access_token n access_token

unfoldable pub get_user_info : Env → Text → Auth User
get_user_info env access_token = do
  claims ← validate_token env access_token
  request env (get_user_by_id claims.tenant_id claims.subject)

unfoldable pub deny : Env → TokenClaims → Text → Auth (TokenClaims × Bool)
deny env claims permission = do
  log env claims.tenant_id claims.subject (lit "authorize") (lit "denied") []
      ((lit "permission", permission) ∷ [])
  publish env claims.subject (
      permission_denied_event claims.subject claims.tenant_id permission claims.roles
        claims.token_id)
  fail permission_denied

unfoldable pub authorize : Env → Text → Text → Auth (TokenClaims × Bool)
authorize env access_token permission = do
  claims ← validate_token env access_token
  granted ← request env (lift (env.user_has_permission claims.tenant_id claims.subject permission))
  if not granted then deny env claims permission else pure (claims, true)
