-- ===== src/Auth/Login.antt =====
-- What Login of backend/auth-service/internal/usecase/auth.go requires before it gives out tokens.
use capibarco.Base.{◌≡◌, refl, sym, ap, ◌∙◌, Bool, true, false, not, ◌||◌, some}
use capibarco.Base.Text.{Text}
use capibarco.Base.Table.{find}
use capibarco.Base.Result.{ok}
use capibarco.Base.Action.Returns.{
  Returns, Returns-bind, Returns-weaken, Returns-lift, Returns-fail, Returns-if,
}
use capibarco.Auth.Domain.{AuthError, User}
use capibarco.Auth.Outside.{Env, World, after, request}
use capibarco.Auth.Store.{has_email, get_user_by_email}
use capibarco.Auth.Access.{AuthOutput, normalize_email}
use capibarco.Auth.Tokens.{or_error}
use capibarco.Auth.Service.{LoginInput, login, welcome}
use capibarco.Auth.Issue.{Returns-request, Returns-or_error}
use capibarco.Auth.Rotation.{or_not_found-ok}
use capibarco.Auth.Identity.{is_owned, IsPair, Returns-issue_auth, Returns-announce}

Returns-welcome :
    (env : Env) (input : LoginInput) (user : User) (w : World)
    → Returns (welcome env input user) w (λ out w₁. IsPair env user out w₁)
unfolding welcome
Returns-welcome env input user w = Returns-bind _ _ w (record {
  at = λ u e. Returns-bind _ _ _ (
      Returns-weaken (Returns-issue_auth env user _)
        λ out w₁ pair. Returns-announce env user out _ _ w₁ pair);
})

-- What Login requires and leaves.
pub record IsLogin (env : Env) (input : LoginInput) (w w₁ : World) (out : AuthOutput) : Type 0 where
  pub email : Text
  pub normalized : normalize_email env input.email ≡ ok email
  pub found : find (has_email input.tenant_id email) w.users ≡ some out.user
  pub verified : env.verify input.password out.user.password_hash ≡ ok true
  pub active : out.user.is_active ≡ true
  pub owned :
      is_owned out.user.tenant_id out.user.id (env.hash_token out.refresh_token) w₁.refresh_tokens
      ≡ true

logged_in :
    {env : Env} {input : LoginInput} {w w₁ : World} {email : Text} {user : User} {out : AuthOutput}
    → normalize_email env input.email ≡ ok email
    → find (has_email input.tenant_id email) w.users ≡ some user
    → env.verify input.password user.password_hash ≡ ok true
    → user.is_active ≡ true
    → IsPair env user out w₁
    → IsLogin env input w w₁ out
logged_in {env} {input} {w} {w₁} {email} {user} {out} normalized found verified active pair =
    record {
      email = email;
      normalized = normalized;
      found = found ∙ ap some (sym pair.for_user);
      verified =
          ap (λ (u : User). env.verify input.password u.password_hash) pair.for_user ∙ verified;
      active = ap (λ (u : User). u.is_active) pair.for_user ∙ active;
      owned =
          ap
            (λ (u : User).
              is_owned u.tenant_id u.id (env.hash_token out.refresh_token) w₁.refresh_tokens)
            pair.for_user
          ∙ pair.owned;
    }

Returns-find_email :
    (env : Env) (t e : Text) (x : AuthError) (w : World) {Post : User → World → Type 0}
    → ((u : User) → find (has_email t e) w.users ≡ some u → Post u (after w))
    → Returns (or_error x (request env (get_user_by_email t e))) w Post
unfolding get_user_by_email
Returns-find_email env t e x w given = Returns-or_error env _ _ _ (
    Returns-request env _ _
      (record { at = λ u q. given u (or_not_found-ok (find (has_email t e) w.users) q) }))

passed_both :
    (accepted active : Bool)
    → (not accepted || not active) ≡ false
    → (accepted ≡ true) × (active ≡ true)
passed_both true true h = (refl, refl)
passed_both true false h = absurd cc
passed_both false active h = absurd cc

Returns-login :
    (env : Env) (input : LoginInput) (w : World)
    → Returns (login env input) w (λ out w₁. IsLogin env input w w₁ out)
unfolding login
Returns-login env input w = Returns-bind _ _ w (
    Returns-lift _ w λ email normalized. Returns-bind _ _ _ (
      Returns-find_email env _ _ _ _ λ user found. Returns-bind _ _ _ (
        Returns-lift _ _ λ accepted verified.
          Returns-if (not accepted || not user.is_active) _ _ _
            (λ refused. Returns-bind _ _ _ (record { at = λ u e. Returns-fail _ _ }))
            (λ passed. Returns-weaken (Returns-welcome env input user _) λ out w₁ pair.
              logged_in normalized found
                (verified ∙ ap ok (passed_both accepted user.is_active passed).0)
                (passed_both accepted user.is_active passed).1 pair))))

-- Login answers with tokens only for the stored user with that tenant and normalized address, active,
-- whose password hash the password verifies against; the refresh token it returns is stored as that
-- user's.
pub login_lem :
    (env : Env) (input : LoginInput) (w : World) {out : AuthOutput}
    → (login env input w).0 ≡ ok out
    → IsLogin env input w (login env input w).1 out
login_lem env input w h = (Returns-login env input w).at _ h
