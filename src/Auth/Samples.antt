-- ===== src/Auth/Samples.antt =====
-- An environment and a world for the tests of the model of backend/auth-service.
use capibarco.Base.{ℕ, true, Option, none, some, List, [], ◌∷◌, length}
use capibarco.Base.Text.{Text, lit, text_eq}
use capibarco.Base.Result.{ok}
use capibarco.Base.Action.Ports.{answered}
use capibarco.Auth.Domain.{User, RefreshToken, PasswordResetToken, TokenClaims}
use capibarco.Auth.Outside.{Env, World}

abbrev pub claims_of_alice : TokenClaims
claims_of_alice = record {
  subject = lit "u1";
  tenant_id = lit "t";
  email = lit "a@b";
  roles = [];
  permissions = [];
  expires_at = 50;
  issued_at = 0;
  token_id = lit "j";
}

-- Every call is answered; a hash puts a mark before its text.
abbrev pub test_env : Env
test_env = record {
  fate = λ n. answered;
  clock = λ n. n;
  fresh = λ n. some (n ∷ []);
  hash_token = λ raw. 35 ∷ raw;
  to_lower = λ s. s;
  is_address = λ s. true;
  byte_length = length;
  hash = λ n p. ok (36 ∷ p);
  verify = λ p h. ok (text_eq (36 ∷ p) h);
  issue_access_token = λ n c. ok (lit "access");
  validate_access_token = λ n t. ok claims_of_alice;
  get_user_roles = λ t u. ok [];
  user_has_permission = λ t u p. ok true;
  walk = λ ps. ps;
  has_audit = true;
  has_mailer = true;
  has_events = true;
  refresh_ttl = 1000;
  reset_ttl = 1000;
}

abbrev pub alice : User
alice = record {
  id = lit "u1";
  tenant_id = lit "t";
  email = lit "a@b";
  password_hash = 36 ∷ lit "pw";
  is_active = true;
  created_at = 0;
  updated_at = 0;
}

abbrev pub token_row : Text → Text → Option ℕ → RefreshToken
token_row id raw revoked_at = record {
  id = id;
  tenant_id = lit "t";
  user_id = lit "u1";
  hash = 35 ∷ raw;
  family_id = lit "fam";
  expires_at = 1000;
  created_at = 0;
  revoked_at = revoked_at;
  revoked_reason = [];
  replaced_by_id = [];
}

abbrev pub reset_row : PasswordResetToken
reset_row = record {
  id = lit "p1";
  tenant_id = lit "t";
  user_id = lit "u1";
  hash = 35 ∷ lit "reset";
  expires_at = 1000;
  created_at = 0;
  consumed_at = none;
}

abbrev pub world_with : List RefreshToken → World
world_with tokens = record {
  tick = 0;
  tenants = lit "t" ∷ [];
  users = alice ∷ [];
  refresh_tokens = tokens;
  reset_tokens = reset_row ∷ [];
  audit_log = [];
  published = [];
  mails = [];
}
