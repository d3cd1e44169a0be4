-- ===== src/Auth/Stable.antt =====
-- Properties of the two token tables that no call of backend/auth-service can end: what a property
-- has to survive, and the calls that keep it then.
use capibarco.Base.{ℕ, ◌≡◌, Bool, none, some, List, [], ◌∷◌, ◌++◌, arith}
use capibarco.Base.Text.{Text}
use capibarco.Base.Table.{find, update}
use capibarco.Base.Result.{Result, ok}
use capibarco.Base.Action.Keeps.{
  Keeps, Keeps-fail, Keeps-bind, Keeps-bind-given, Keeps-guard, keeps_rules,
}
use capibarco.Base.Action.Ports.{met-kept, outcome_of, Keeps-outcome_of}
use capibarco.Auth.Domain.{
  AuthError, outside, User, RefreshToken, PasswordResetToken, AuditEvent, Event,
}
use capibarco.Auth.Outside.{Env, World, Auth, after, draw, request, now, new_id, random_token}
use capibarco.Auth.Store
use capibarco.Auth.Store.{has_hash, revoked, consumed, inserted}
use capibarco.Auth.Tokens.{or_error, find_token}

abbrev pub Tables : Type 1
Tables = List RefreshToken → List PasswordResetToken → Type 0

-- `Q` survives each write of the tables. `Admits f` is what it asks of a new token of family `f`: a
-- live token's family and a family just drawn have it.
pub record Stable (env : Env) (Q : Tables) (Admits : Text → Type 0) : Type 0 where
  pub create :
      (rs : List RefreshToken) (ps : List PasswordResetToken) (t : RefreshToken)
      → Q rs ps
      → Admits t.family_id
      → Q (rs ++ (inserted t ∷ [])) ps
  pub revoke :
      (rs : List RefreshToken) (ps : List PasswordResetToken) (p : RefreshToken → Bool)
      (reason : Text) (at : ℕ)
      → Q rs ps
      → Q (update p (revoked reason at) rs) ps
  pub rotation :
      (rs : List RefreshToken) (ps : List PasswordResetToken) (h : Text) (t : RefreshToken)
      → Q rs ps
      → find (has_hash h) rs ≡ some t
      → t.revoked_at ≡ none
      → Admits t.family_id
  pub first : (n : ℕ) (id : Text) → env.fresh n ≡ some id → Admits id
  pub create_reset :
      (rs : List RefreshToken) (ps : List PasswordResetToken) (t : PasswordResetToken)
      → Q rs ps
      → Q rs (ps ++ (t ∷ []))
  pub consume :
      (rs : List RefreshToken) (ps : List PasswordResetToken) (p : PasswordResetToken → Bool)
      (at : ℕ)
      → Q rs ps
      → Q rs (update p (consumed at) ps)

unfoldable pub On : Tables → World → Type 0
On Q w = Q w.refresh_tokens w.reset_tokens

-- A token that was found stands in the table.
pub find_token-found :
    (env : Env) (h : Text) (w : World) {t : RefreshToken}
    → (find_token env h w).0 ≡ ok t
    → find (has_hash h) w.refresh_tokens ≡ some t
unfolding find_token or_error request Store.get_refresh_token_by_hash
find_token-found env h w e = ground arith

module _ {env : Env} {Q : Tables} {Admits : Text → Type 0} (stable : Stable env Q Admits) where
  pub Keeps-draw : {A : Type 0} (f : ℕ → Result AuthError A) → Keeps (On Q) (draw f)
  unfolding draw On
  Keeps-draw f = record { at = λ w h. h }

  pub Keeps-request : {A : Type 0} (m : Auth A) → Keeps (On Q) m → Keeps (On Q) (request env m)
  unfolding request On
  Keeps-request m km = record {
    at = λ w h.
        met-kept outside (On Q) (env.fate w.tick) (m (after w)) (after w) (km.at (after w) h) h;
  }

  pub Keeps-or_error :
      {A : Type 0} (e : AuthError) (m : Auth A) → Keeps (On Q) m → Keeps (On Q) (or_error e m)
  unfolding or_error
  Keeps-or_error e m km = record { at = λ w h. km.at w h }

  pub ruleset port_rules =
      (keeps_rules, Keeps-draw, Keeps-request, Keeps-or_error, Keeps-outcome_of)

  pub Keeps-now : Keeps (On Q) (now env)
  unfolding now
  Keeps-now = search port_rules

  pub Keeps-new_id : Keeps (On Q) (new_id env)
  unfolding new_id
  Keeps-new_id = search port_rules

  pub Keeps-random_token : Keeps (On Q) (random_token env)
  unfolding random_token
  Keeps-random_token = search port_rules

  pub Keeps-create_user : (user : User) → Keeps (On Q) (Store.create_user user)
  unfolding Store.create_user On
  Keeps-create_user user = record { at = λ w h. ground arith }

  pub Keeps-get_user_by_email : (t e : Text) → Keeps (On Q) (Store.get_user_by_email t e)
  unfolding Store.get_user_by_email On
  Keeps-get_user_by_email t e = record { at = λ w h. h }

  pub Keeps-get_user_by_id : (t i : Text) → Keeps (On Q) (Store.get_user_by_id t i)
  unfolding Store.get_user_by_id On
  Keeps-get_user_by_id t i = record { at = λ w h. h }

  pub Keeps-update_password :
      (t i p : Text) (at : ℕ) → Keeps (On Q) (Store.update_password t i p at)
  unfolding Store.update_password On
  Keeps-update_password t i p at = record { at = λ w h. ground arith }

  pub Keeps-log_event : (event : AuditEvent) → Keeps (On Q) (Store.log_event event)
  unfolding Store.log_event On
  Keeps-log_event event = record { at = λ w h. h }

  pub Keeps-publish_event : (event : Event) → Keeps (On Q) (Store.publish_event event)
  unfolding Store.publish_event On
  Keeps-publish_event event = record { at = λ w h. h }

  pub Keeps-send_password_reset : (t e r : Text) → Keeps (On Q) (Store.send_password_reset t e r)
  unfolding Store.send_password_reset On
  Keeps-send_password_reset t e r = record { at = λ w h. h }

  pub Keeps-create_refresh_token :
      (t : RefreshToken) → Admits t.family_id → Keeps (On Q) (Store.create_refresh_token t)
  unfolding Store.create_refresh_token On
  Keeps-create_refresh_token t admitted = record {
    at = λ w h. ground (arith, stable.create w.refresh_tokens w.reset_tokens t h admitted);
  }

  pub Keeps-get_refresh_token_by_hash :
      (h : Text) → Keeps (On Q) (Store.get_refresh_token_by_hash h)
  unfolding Store.get_refresh_token_by_hash On
  Keeps-get_refresh_token_by_hash h = record { at = λ w q. q }

  pub Keeps-revoke_refresh_token :
      (id reason : Text) (at : ℕ) → Keeps (On Q) (Store.revoke_refresh_token id reason at)
  unfolding Store.revoke_refresh_token On
  Keeps-revoke_refresh_token id reason at = record {
    at = λ w h. stable.revoke w.refresh_tokens w.reset_tokens (Store.has_id id) reason at h;
  }

  pub Keeps-revoke_family :
      (f reason : Text) (at : ℕ) → Keeps (On Q) (Store.revoke_refresh_token_family f reason at)
  unfolding Store.revoke_refresh_token_family On
  Keeps-revoke_family f reason at = record {
    at = λ w h. stable.revoke w.refresh_tokens w.reset_tokens (Store.in_family f) reason at h;
  }

  pub Keeps-create_reset :
      (t : PasswordResetToken) → Keeps (On Q) (Store.create_password_reset_token t)
  unfolding Store.create_password_reset_token On
  Keeps-create_reset t = record {
    at = λ w h.
        ground
          (arith, stable.create_reset w.refresh_tokens w.reset_tokens (Store.inserted_reset t) h);
  }

  pub Keeps-get_reset : (h : Text) → Keeps (On Q) (Store.get_password_reset_token_by_hash h)
  unfolding Store.get_password_reset_token_by_hash On
  Keeps-get_reset h = record { at = λ w q. q }

  pub Keeps-consume : (id : Text) (at : ℕ) → Keeps (On Q) (Store.consume_password_reset_token id at)
  unfolding Store.consume_password_reset_token On
  Keeps-consume id at = record {
    at = λ w h. stable.consume w.refresh_tokens w.reset_tokens (Store.can_consume id) at h;
  }

  pub ruleset store_rules = (
    port_rules, Keeps-now, Keeps-new_id, Keeps-random_token, Keeps-create_user,
    Keeps-get_user_by_email, Keeps-get_user_by_id, Keeps-update_password, Keeps-log_event,
    Keeps-publish_event, Keeps-send_password_reset, Keeps-create_refresh_token,
    Keeps-get_refresh_token_by_hash, Keeps-revoke_refresh_token, Keeps-revoke_family,
    Keeps-create_reset, Keeps-get_reset, Keeps-consume,
  )
