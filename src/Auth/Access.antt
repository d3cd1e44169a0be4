-- ===== src/Auth/Access.antt =====
-- backend/auth-service/internal/usecase/auth.go: the checks of the input, the audit log, the events
-- and the token pair that the usecases share.
use capibarco.Base.{ℕ, not, List, [], ◌∷◌, ◌++◌, map, ltb, if◌then◌else◌, exists}
use capibarco.Base.Text.{Text, text_eq, trim_space, is_blank}
use capibarco.Base.Result.{Result, ok, err}
use capibarco.Base.Action.{pure, lift, attempt_only, ◌>>=◌}
use capibarco.Auth.Domain.{
  AuthError, weak_password, tenant_required, validation, User, Permission, Role, AuditEvent,
  EventUser, Payload,
}
use capibarco.Auth.Outside.{Env, Auth, draw, request, now, new_id}
use capibarco.Auth.Store.{log_event, publish_event}
use capibarco.Auth.Tokens.{issue_refresh_token}

pub record AuthOutput : Type 0 where
  pub user : User
  pub access_token : Text
  pub refresh_token : Text
  pub expires_at : ℕ
  pub token_id : Text
  pub roles : List Text

unfoldable pub normalize_email : Env → Text → Result AuthError Text
normalize_email env value =
    let email = env.to_lower (trim_space value) in
    if env.is_address email then ok email else err validation

unfoldable pub validate_tenant : Text → Result AuthError (Unit {0})
validate_tenant tenant_id = if is_blank tenant_id then err tenant_required else ok tt

unfoldable pub validate_password : Env → Text → Result AuthError (Unit {0})
validate_password env password =
    if ltb (env.byte_length password) 12 then err weak_password else ok tt

unfoldable pub event_user : User → EventUser
event_user u = record {
  id = u.id;
  tenant_id = u.tenant_id;
  email = u.email;
  is_active = u.is_active;
  created_at = u.created_at;
  updated_at = u.updated_at;
}

unfoldable pub log : Env → Text → Text → Text → Text → Text → List (Text × Text) → Auth (Unit {0})
log env tenant_id user_id action outcome ip metadata = if not env.has_audit then pure tt else do
  at ← now env
  let event : AuditEvent = record {
    tenant_id = tenant_id;
    user_id = user_id;
    action = action;
    outcome = outcome;
    ip = ip;
    metadata = metadata;
    created_at = at;
  }
  attempt_only (request env (log_event event))

-- `publish` up to its errors, which it drops.
unfoldable pub try_publish : Env → Text → Payload → Auth (Unit {0})
try_publish env key payload = do
  id ← new_id env
  at ← now env
  request env (publish_event (record { id = id; occurred_at = at; key = key; payload = payload }))

unfoldable pub publish : Env → Text → Payload → Auth (Unit {0})
publish env key payload =
    if not env.has_events then pure tt else attempt_only (try_publish env key payload)

-- The set of the permissions of the roles, in the order in which they are met.
abbrev add_permissions : List Permission → List Text → List Text
add_permissions [] seen = seen
add_permissions (p ∷ ps) seen =
    add_permissions ps (if exists (text_eq p.value) seen then seen else seen ++ (p.value ∷ []))

abbrev pub permission_set : List Role → List Text → List Text
permission_set [] seen = seen
permission_set (r ∷ rs) seen = permission_set rs (add_permissions r.permissions seen)

unfoldable pub issue_access_for_user : Env → User → Auth AuthOutput
issue_access_for_user env user = do
  roles ← request env (lift (env.get_user_roles user.tenant_id user.id))
  let role_names = map (λ (r : Role). r.name) roles
  access ← draw λ n. env.issue_access_token n (record {
    subject = user.id;
    tenant_id = user.tenant_id;
    email = user.email;
    roles = role_names;
    permissions = env.walk (permission_set roles []);
    expires_at = 0;
    issued_at = 0;
    token_id = [];
  })
  claims ← draw λ n. env.validate_access_token n access
  pure (record {
    user = user;
    access_token = access;
    refresh_token = [];
    expires_at = claims.expires_at;
    token_id = claims.token_id;
    roles = role_names;
  })

unfoldable pub issue_auth_output : Env → User → Auth AuthOutput
issue_auth_output env user = do
  out ← issue_access_for_user env user
  refresh ← issue_refresh_token env user
  pure (record out { refresh_token = refresh.raw })
