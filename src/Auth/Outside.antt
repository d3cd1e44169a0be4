-- ===== src/Auth/Outside.antt =====
-- What the usecases of backend/auth-service reach: the ports of internal/ports and the random source
-- as an environment whose calls are numbered, and the world that they change. A call of a port may
-- be refused, or take effect and leave its answer unheard.
use capibarco.Base.{◌≡◌, Option, none, some, ℕ, suc, Bool, List}
use capibarco.Base.Text.{Text}
use capibarco.Base.Result.{Result, ok, err}
use capibarco.Base.Action.{Action}
use capibarco.Base.Action.Ports.{Fate, met}
use capibarco.Auth.Domain.{
  AuthError, outside, User, RefreshToken, PasswordResetToken, Role, TokenClaims, AuditEvent, Event,
}

pub record Env : Type 0 where
  -- what becomes of the call with a number
  pub fate : ℕ → Fate
  -- `Clock.Now` at a call
  pub clock : ℕ → ℕ
  -- `newID` and `randomToken` at a call
  pub fresh : ℕ → Option Text
  pub hash_token : Text → Text
  pub to_lower : Text → Text
  pub is_address : Text → Bool
  -- the length of a string in bytes
  pub byte_length : Text → ℕ
  -- `PasswordHasher`
  pub hash : ℕ → Text → Result AuthError Text
  pub verify : Text → Text → Result AuthError Bool
  -- `AccessTokenIssuer`
  pub issue_access_token : ℕ → TokenClaims → Result AuthError Text
  pub validate_access_token : ℕ → Text → Result AuthError TokenClaims
  -- `RBACRepository`
  pub get_user_roles : Text → Text → Result AuthError (List Role)
  pub user_has_permission : Text → Text → Text → Result AuthError Bool
  -- the order in which a map of permissions is walked
  pub walk : List Text → List Text
  pub has_audit : Bool
  pub has_mailer : Bool
  pub has_events : Bool
  pub refresh_ttl : ℕ
  pub reset_ttl : ℕ

pub record World : Type 0 where
  -- the number of the next call
  pub tick : ℕ
  pub tenants : List Text
  pub users : List User
  pub refresh_tokens : List RefreshToken
  pub reset_tokens : List PasswordResetToken
  pub audit_log : List AuditEvent
  pub published : List Event
  -- tenant, address and raw token of each mail
  pub mails : List (Text × Text × Text)

abbrev pub Auth : Type 0 → Type 0
Auth A = Action World AuthError A

abbrev pub after : World → World
after w = record w { tick = suc w.tick }

-- A call that reads what the environment has at its number.
unfoldable pub draw : {A : Type 0} → (ℕ → Result AuthError A) → Auth A
draw f w = (f w.tick, after w)

-- A call of a port that may fail on its way.
unfoldable pub request : {A : Type 0} → Env → Auth A → Auth A
request env m w = met outside (env.fate w.tick) (m (after w)) (after w)

abbrev pub or_outside : {A : Type 0} → Option A → Result AuthError A
or_outside none = err outside
or_outside (some a) = ok a

pub or_outside-ok : {A : Type 0} (o : Option A) {a : A} → or_outside o ≡ ok a → o ≡ some a
or_outside-ok none h = absurd cc
or_outside-ok (some b) h = cc

unfoldable pub now : Env → Auth ℕ
unfolding draw
now env = draw (λ n. ok (env.clock n))

unfoldable pub new_id : Env → Auth Text
unfolding draw
new_id env = draw λ n. or_outside (env.fresh n)

unfoldable pub random_token : Env → Auth Text
unfolding draw
random_token env = draw λ n. or_outside (env.fresh n)
