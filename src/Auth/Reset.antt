-- ===== src/Auth/Reset.antt =====
-- backend/auth-service/internal/usecase/auth.go: the reset of a forgotten password.
use capibarco.Base.{Option, some, ℕ, ◌+◌, not, [], ltb, if◌then◌else◌, none, some}
use capibarco.Base.Text.{Text, text_eq, lit}
use capibarco.Base.Result.{Result, ok, err}
use capibarco.Base.Action.{pure, fail, lift, guard, ◌>>=◌, ◌>>◌}
use capibarco.Base.Action.Ports.{outcome_of}
use capibarco.Auth.Domain.{
  AuthError, invalid_token, token_expired, reset_token_consumed, User, PasswordResetToken,
  password_reset_requested, password_reset_completed,
}
use capibarco.Auth.Outside.{Env, Auth, draw, request, now, new_id, random_token}
use capibarco.Auth.Store.{
  get_user_by_email, get_user_by_id, update_password, create_password_reset_token,
  get_password_reset_token_by_hash, consume_password_reset_token, send_password_reset,
}
use capibarco.Auth.Tokens.{or_error}
use capibarco.Auth.Access.{normalize_email, validate_password, log, publish}

unfoldable pub send_reset_mail : Env → Text → Text → Text → Auth (Unit {0})
send_reset_mail env tenant_id email raw =
    if not env.has_mailer then pure tt else request env (send_password_reset tenant_id email raw)

-- `ForgotPassword` for a user that exists.
unfoldable pub start_reset : Env → Text → Text → Text → User → Auth (Unit {0})
start_reset env tenant_id email ip user = do
  raw ← random_token env
  id ← new_id env
  at ← now env
  let token : PasswordResetToken = record {
    id = id;
    tenant_id = tenant_id;
    user_id = user.id;
    hash = env.hash_token raw;
    expires_at = at + env.reset_ttl;
    created_at = at;
    consumed_at = none;
  }
  request env (create_password_reset_token token)
  send_reset_mail env tenant_id email raw
  log env tenant_id user.id (lit "forgot_password") (lit "success") ip []
  publish env email (password_reset_requested tenant_id email token.id token.expires_at ip)

-- `if err != nil { return nil }`
abbrev pub start_if_found : Env → Text → Text → Text → Result AuthError User → Auth (Unit {0})
start_if_found env tenant_id email ip (ok user) = start_reset env tenant_id email ip user
start_if_found env tenant_id email ip (err _) = pure tt

unfoldable pub forgot_password : Env → Text → Text → Text → Auth (Unit {0})
forgot_password env tenant_id email_raw ip = do
  email ← lift (normalize_email env email_raw)
  found ← outcome_of (request env (get_user_by_email tenant_id email))
  start_if_found env tenant_id email ip found

-- `ResetPassword` from the update of the password on.
unfoldable pub complete_reset : Env → Text → Text → Text → PasswordResetToken → ℕ → Auth (Unit {0})
complete_reset env tenant_id new_password ip token at = do
  password_hash ← draw λ n. env.hash n new_password
  request env (update_password tenant_id token.user_id password_hash at)
  request env (consume_password_reset_token token.id at)
  log env tenant_id token.user_id (lit "reset_password") (lit "success") ip []
  user ← request env (get_user_by_id tenant_id token.user_id)
  publish env token.user_id
      (password_reset_completed token.user_id tenant_id user.email token.id ip)

-- `ResetPassword` for a token of the tenant.
abbrev pub finish_reset :
    Env → Text → Text → Text → PasswordResetToken → ℕ → Option ℕ → Auth (Unit {0})
finish_reset env tenant_id new_password ip token at (some _) = fail reset_token_consumed
finish_reset env tenant_id new_password ip token at none =
    guard (ltb token.expires_at at) token_expired
    >> complete_reset env tenant_id new_password ip token at

unfoldable pub find_reset : Env → Text → Auth PasswordResetToken
find_reset env hash = or_error invalid_token (request env (get_password_reset_token_by_hash hash))

unfoldable pub reset_password : Env → Text → Text → Text → Text → Auth (Unit {0})
reset_password env tenant_id reset_token new_password ip = do
  lift (validate_password env new_password)
  token ← find_reset env (env.hash_token reset_token)
  guard (not (text_eq token.tenant_id tenant_id)) invalid_token
  at ← now env
  finish_reset env tenant_id new_password ip token at token.consumed_at
