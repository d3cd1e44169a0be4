-- ===== src/Auth/Store.antt =====
-- backend/auth-service/internal/adapters/postgres/repository.go with the constraints of
-- migrations/00001_init.sql: each statement of the repository on the tables.
use capibarco.Base.{
  ℕ, Bool, true, false, ◌||◌, ◌&&◌, Option, none, some, [], ◌∷◌, ◌++◌, if◌then◌else◌, exists,
}
use capibarco.Base.Text.{Text, text_eq}
use capibarco.Base.Table.{find, update}
use capibarco.Base.Result.{Result, ok, err}
use capibarco.Auth.Domain.{
  AuthError, already_exists, validation, not_found, outside, User, RefreshToken, PasswordResetToken,
  AuditEvent, Event,
}
use capibarco.Auth.Outside.{Auth}

abbrev pub is_user : Text → Text → User → Bool
is_user tenant_id user_id u = text_eq u.tenant_id tenant_id && text_eq u.id user_id

abbrev pub has_email : Text → Text → User → Bool
has_email tenant_id email u = text_eq u.tenant_id tenant_id && text_eq u.email email

unfoldable pub create_user : User → Auth (Unit {0})
create_user user w =
    if exists (λ u. is_user user.tenant_id user.id u || has_email user.tenant_id user.email u)
      w.users
    then (err already_exists, w)
    else if exists (text_eq user.tenant_id) w.tenants
    then (ok tt, record w { users = w.users ++ (user ∷ []) })
    else (err validation, w)

abbrev pub or_not_found : {A : Type 0} → Option A → Result AuthError A
or_not_found none = err not_found
or_not_found (some a) = ok a

unfoldable pub get_user_by_email : Text → Text → Auth User
get_user_by_email tenant_id email w = (or_not_found (find (has_email tenant_id email) w.users), w)

unfoldable pub get_user_by_id : Text → Text → Auth User
get_user_by_id tenant_id user_id w = (or_not_found (find (is_user tenant_id user_id) w.users), w)

unfoldable pub update_password : Text → Text → Text → ℕ → Auth (Unit {0})
update_password tenant_id user_id password_hash now w =
    if exists (is_user tenant_id user_id) w.users
    then (
      ok tt,
      record w {
        users =
            update (is_user tenant_id user_id)
              (λ u. record u { password_hash = password_hash; updated_at = now }) w.users;
      },
    )
    else (err not_found, w)

abbrev pub has_hash : Text → RefreshToken → Bool
has_hash hash t = text_eq t.hash hash

abbrev pub has_id : Text → RefreshToken → Bool
has_id id t = text_eq t.id id

abbrev pub in_family : Text → RefreshToken → Bool
in_family family_id t = text_eq t.family_id family_id

-- `insert into refresh_tokens`, which leaves the columns of revocation at their defaults
abbrev pub inserted : RefreshToken → RefreshToken
inserted t = record t { revoked_at = none; revoked_reason = []; replaced_by_id = [] }

unfoldable pub create_refresh_token : RefreshToken → Auth (Unit {0})
create_refresh_token token w =
    if exists (λ t. has_id token.id t || has_hash token.hash t) w.refresh_tokens
    then (err outside, w)
    else if exists (is_user token.tenant_id token.user_id) w.users
    then (ok tt, record w { refresh_tokens = w.refresh_tokens ++ (inserted token ∷ []) })
    else (err outside, w)

unfoldable pub get_refresh_token_by_hash : Text → Auth RefreshToken
get_refresh_token_by_hash hash w = (or_not_found (find (has_hash hash) w.refresh_tokens), w)

abbrev pub coalesce : Option ℕ → ℕ → Option ℕ
coalesce none now = some now
coalesce (some t) now = some t

abbrev pub revoked : Text → ℕ → RefreshToken → RefreshToken
revoked reason now t = record t { revoked_at = coalesce t.revoked_at now; revoked_reason = reason }

unfoldable pub revoke_refresh_token : Text → Text → ℕ → Auth (Unit {0})
revoke_refresh_token id reason now w =
    (ok tt, record w { refresh_tokens = update (has_id id) (revoked reason now) w.refresh_tokens })

unfoldable pub revoke_refresh_token_family : Text → Text → ℕ → Auth (Unit {0})
revoke_refresh_token_family family_id reason now w = (
  ok tt,
  record w { refresh_tokens = update (in_family family_id) (revoked reason now) w.refresh_tokens },
)

abbrev pub reset_has_hash : Text → PasswordResetToken → Bool
reset_has_hash hash t = text_eq t.hash hash

abbrev pub reset_has_id : Text → PasswordResetToken → Bool
reset_has_id id t = text_eq t.id id

abbrev pub inserted_reset : PasswordResetToken → PasswordResetToken
inserted_reset t = record t { consumed_at = none }

unfoldable pub create_password_reset_token : PasswordResetToken → Auth (Unit {0})
create_password_reset_token token w =
    if exists (λ t. reset_has_id token.id t || reset_has_hash token.hash t) w.reset_tokens
    then (err outside, w)
    else if exists (is_user token.tenant_id token.user_id) w.users
    then (ok tt, record w { reset_tokens = w.reset_tokens ++ (inserted_reset token ∷ []) })
    else (err outside, w)

unfoldable pub get_password_reset_token_by_hash : Text → Auth PasswordResetToken
get_password_reset_token_by_hash hash w =
    (or_not_found (find (reset_has_hash hash) w.reset_tokens), w)

abbrev pub is_unconsumed : PasswordResetToken → Bool
is_unconsumed t = elim t.consumed_at [ none ↦ true | some _ ↦ false ]

abbrev pub can_consume : Text → PasswordResetToken → Bool
can_consume id t = reset_has_id id t && is_unconsumed t

abbrev pub consumed : ℕ → PasswordResetToken → PasswordResetToken
consumed now t = record t { consumed_at = some now }

unfoldable pub consume_password_reset_token : Text → ℕ → Auth (Unit {0})
consume_password_reset_token id now w =
    (ok tt, record w { reset_tokens = update (can_consume id) (consumed now) w.reset_tokens })

unfoldable pub log_event : AuditEvent → Auth (Unit {0})
log_event event w = (ok tt, record w { audit_log = w.audit_log ++ (event ∷ []) })

-- `EventPublisher.Publish`
unfoldable pub publish_event : Event → Auth (Unit {0})
publish_event event w = (ok tt, record w { published = w.published ++ (event ∷ []) })

-- `Mailer.SendPasswordReset`
unfoldable pub send_password_reset : Text → Text → Text → Auth (Unit {0})
send_password_reset tenant_id email raw w =
    (ok tt, record w { mails = w.mails ++ ((tenant_id, email, raw) ∷ []) })
