-- ===== src/Auth/Tokens.antt =====
-- backend/auth-service/internal/usecase/token.go: issuing and rotating refresh tokens.
use capibarco.Base.{Option, some, ℕ, ◌+◌, none, some, [], ltb}
use capibarco.Base.Text.{Text, lit}
use capibarco.Base.Result.{Result, ok, err}
use capibarco.Base.Action.{pure, fail, guard, ◌>>=◌, ◌>>◌}
use capibarco.Auth.Domain.{
  AuthError, invalid_token, token_expired, token_reused, User, RefreshToken,
}
use capibarco.Auth.Outside.{Env, Auth, request, now, new_id, random_token}
use capibarco.Auth.Store.{
  create_refresh_token, get_refresh_token_by_hash, revoke_refresh_token,
  revoke_refresh_token_family,
}

pub record IssuedRefreshToken : Type 0 where
  pub raw : Text
  pub token : RefreshToken
  pub previous_token_id : Text

abbrev pub replace_error : {A : Type 0} → AuthError → Result AuthError A → Result AuthError A
replace_error e (ok a) = ok a
replace_error e (err _) = err e

-- `if err != nil { return e }`, where the error of the call is replaced
unfoldable pub or_error : {A : Type 0} → AuthError → Auth A → Auth A
or_error e m w = (replace_error e (m w).0, (m w).1)

abbrev pub new_refresh_token : Env → Text → Text → Text → Text → Text → ℕ → RefreshToken
new_refresh_token env id raw tenant_id user_id family_id at = record {
  id = id;
  tenant_id = tenant_id;
  user_id = user_id;
  hash = env.hash_token raw;
  family_id = family_id;
  expires_at = at + env.refresh_ttl;
  created_at = at;
  revoked_at = none;
  revoked_reason = [];
  replaced_by_id = [];
}

unfoldable pub issue : Env → Text → Text → Text → Auth IssuedRefreshToken
issue env tenant_id user_id family_id = do
  id ← new_id env
  raw ← random_token env
  at ← now env
  let token = new_refresh_token env id raw tenant_id user_id family_id at
  request env (create_refresh_token token)
  pure (record { raw = raw; token = token; previous_token_id = [] })

unfoldable pub issue_refresh_token : Env → User → Auth IssuedRefreshToken
issue_refresh_token env user = do family_id ← new_id env; issue env user.tenant_id user.id family_id

-- The family of a token that was used before is revoked.
unfoldable pub reject_reuse : Env → RefreshToken → ℕ → Auth IssuedRefreshToken
reject_reuse env current at = do
  request env (revoke_refresh_token_family current.family_id (lit "reuse_detected") at)
  fail token_reused

unfoldable pub replace_token : Env → RefreshToken → ℕ → Auth IssuedRefreshToken
replace_token env current at = do
  next ← issue env current.tenant_id current.user_id current.family_id
  request env (revoke_refresh_token current.id (lit "rotated") at)
  pure (record next { previous_token_id = current.id })

-- `RotateRefreshToken` for a token that has not expired.
abbrev pub spend_token : Env → RefreshToken → ℕ → Option ℕ → Auth IssuedRefreshToken
spend_token env current at (some _) = reject_reuse env current at
spend_token env current at none = replace_token env current at

unfoldable pub find_token : Env → Text → Auth RefreshToken
find_token env hash = or_error invalid_token (request env (get_refresh_token_by_hash hash))

unfoldable pub rotate_refresh_token : Env → Text → Auth IssuedRefreshToken
rotate_refresh_token env raw = do
  at ← now env
  current ← find_token env (env.hash_token raw)
  guard (ltb current.expires_at at) token_expired
  spend_token env current at current.revoked_at
