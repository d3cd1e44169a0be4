-- ===== src/Auth/Domain.antt =====
-- backend/auth-service/internal/domain: models.go, errors.go and the payloads of events.go. A time is
-- a number of nanoseconds, and a payload keeps it as such where the source formats it.
use capibarco.Base.{ℕ, Bool, Option, List}
use capibarco.Base.Text.{Text}

-- `outside` is an error of a port or of the random source, which the domain does not name.
pub data AuthError : Type 0 where
  already_exists invalid_credentials invalid_token token_expired token_reused : AuthError
  permission_denied not_found weak_password tenant_required validation : AuthError
  reset_token_consumed reset_token_not_active outside : AuthError

pub record User : Type 0 where
  pub id : Text
  pub tenant_id : Text
  pub email : Text
  pub password_hash : Text
  pub is_active : Bool
  pub created_at : ℕ
  pub updated_at : ℕ

pub record RefreshToken : Type 0 where
  pub id : Text
  pub tenant_id : Text
  pub user_id : Text
  pub hash : Text
  pub family_id : Text
  pub expires_at : ℕ
  pub created_at : ℕ
  pub revoked_at : Option ℕ
  pub revoked_reason : Text
  pub replaced_by_id : Text

pub record PasswordResetToken : Type 0 where
  pub id : Text
  pub tenant_id : Text
  pub user_id : Text
  pub hash : Text
  pub expires_at : ℕ
  pub created_at : ℕ
  pub consumed_at : Option ℕ

pub record Permission : Type 0 where
  pub id : Text
  pub tenant_id : Text
  pub value : Text

pub record Role : Type 0 where
  pub id : Text
  pub tenant_id : Text
  pub name : Text
  pub permissions : List Permission

pub record TokenClaims : Type 0 where
  pub subject : Text
  pub tenant_id : Text
  pub email : Text
  pub roles : List Text
  pub permissions : List Text
  pub expires_at : ℕ
  pub issued_at : ℕ
  pub token_id : Text

pub record AuditEvent : Type 0 where
  pub tenant_id : Text
  pub user_id : Text
  pub action : Text
  pub outcome : Text
  pub ip : Text
  pub metadata : List (Text × Text)
  pub created_at : ℕ

pub record EventUser : Type 0 where
  pub id : Text
  pub tenant_id : Text
  pub email : Text
  pub is_active : Bool
  pub created_at : ℕ
  pub updated_at : ℕ

-- The event types with their payloads.
pub data Payload : Type 0 where
  user_registered : EventUser → Text → List Text → Text → Payload
  user_logged_in : Text → Text → Text → Text → List Text → Text → Text → Payload
  token_refreshed : Text → Text → Text → Text → ℕ → Payload
  password_reset_requested : Text → Text → Text → ℕ → Text → Payload
  password_reset_completed : Text → Text → Text → Text → Text → Payload
  permission_denied_event : Text → Text → Text → List Text → Text → Payload

pub record Event : Type 0 where
  pub id : Text
  pub occurred_at : ℕ
  pub key : Text
  pub payload : Payload
