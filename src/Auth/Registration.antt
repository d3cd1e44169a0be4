-- ===== src/Auth/Registration.antt =====
-- What Register of backend/auth-service/internal/usecase/auth.go requires before it gives out tokens.
use mathlib.Core.Path.{subst}
use capibarco.Base.{◌≡◌, refl, true, false, arith, ltb, exists}
use capibarco.Base.Text.{is_blank}
use capibarco.Base.Table.{exists-or}
use capibarco.Base.Result.{ok}
use capibarco.Base.Action.Returns.{Returns, Returns-bind, Returns-weaken, Returns-lift}
use capibarco.Auth.Domain.{User}
use capibarco.Auth.Outside.{Env, World}
use capibarco.Auth.Store.{is_user, has_email, create_user}
use capibarco.Auth.Access.{AuthOutput, normalize_email, validate_tenant, validate_password}
use capibarco.Auth.Service.{RegisterInput, register}
use capibarco.Auth.Issue.{Returns-draw, Returns-request, Returns-now, Returns-new_id}
use capibarco.Auth.Identity.{is_owned, IsPair, Returns-issue_auth, Returns-announce}

-- What Register requires and leaves.
pub record IsRegistered (env : Env) (input : RegisterInput) (w w₁ : World) (out : AuthOutput)
    : Type 0 where
  pub email_normalized : normalize_email env input.email ≡ ok out.user.email
  pub tenant : out.user.tenant_id ≡ input.tenant_id
  pub tenant_given : is_blank input.tenant_id ≡ false
  pub strong : ltb (env.byte_length input.password) 12 ≡ false
  pub active : out.user.is_active ≡ true
  pub unused : exists (has_email input.tenant_id out.user.email) w.users ≡ false
  pub owned :
      is_owned out.user.tenant_id out.user.id (env.hash_token out.refresh_token) w₁.refresh_tokens
      ≡ true

Returns-create_user :
    (user : User) (w : World)
    → Returns
        (create_user user)
        w
        (λ u w₁. exists (has_email user.tenant_id user.email) w.users ≡ false)
unfolding create_user
Returns-create_user user w = record {
  at = λ u h.
      (exists-or (is_user user.tenant_id user.id) (has_email user.tenant_id user.email) w.users
        (ground arith)).1;
}

registered :
    {env : Env} {input : RegisterInput} {w w₁ : World} {user : User} {out : AuthOutput}
    → normalize_email env input.email ≡ ok user.email
    → user.tenant_id ≡ input.tenant_id
    → is_blank input.tenant_id ≡ false
    → ltb (env.byte_length input.password) 12 ≡ false
    → user.is_active ≡ true
    → exists (has_email input.tenant_id user.email) w.users ≡ false
    → IsPair env user out w₁
    → IsRegistered env input w w₁ out
registered {env} {input} {w} {w₁} {user} {out} normalized tenant given strong active unused pair =
    subst
      (λ (u : User).
        (normalize_email env input.email ≡ ok u.email)
        → u.tenant_id ≡ input.tenant_id
        → u.is_active ≡ true
        → (exists (has_email input.tenant_id u.email) w.users ≡ false)
        → (is_owned u.tenant_id u.id (env.hash_token out.refresh_token) w₁.refresh_tokens ≡ true)
        → IsRegistered env input w w₁ out)
      pair.for_user
      (λ a b c d e. record {
        email_normalized = a;
        tenant = b;
        tenant_given = given;
        strong = strong;
        active = c;
        unused = d;
        owned = e;
      })
      normalized tenant active unused pair.owned

Returns-register :
    (env : Env) (input : RegisterInput) (w : World)
    → Returns (register env input) w (λ out w₁. IsRegistered env input w w₁ out)
unfolding register validate_tenant validate_password
Returns-register env input w = Returns-bind _ _ w (
    Returns-lift _ w λ email normalized. Returns-bind _ _ _ (
      Returns-lift _ _ λ u given. Returns-bind _ _ _ (
        Returns-lift _ _ λ v strong. Returns-bind _ _ _ (
          Returns-draw env _ _ λ password_hash hashed. Returns-bind _ _ _ (
            Returns-new_id env _ λ id. Returns-bind _ _ _ (
              Returns-now env _ (
                Returns-bind _ _ _ (
                  Returns-weaken (Returns-request env _ _ (Returns-create_user _ _)) λ x w₁ unused.
                    Returns-bind _ _ _ (record {
                      at = λ y e. Returns-bind _ _ _ (
                          Returns-weaken (Returns-issue_auth env _ _) λ out w₂ pair.
                            Returns-weaken (Returns-announce env _ out _ _ w₂ pair) λ o w₃ p.
                              registered normalized refl (ground arith) (ground arith) refl unused
                                p);
                    })))))))))

-- Register answers with tokens only for an active user of the given tenant with the normalized
-- address, a password of at least twelve bytes and an address that no user of the tenant had; the
-- refresh token it returns is stored as that user's.
pub register_lem :
    (env : Env) (input : RegisterInput) (w : World) {out : AuthOutput}
    → (register env input w).0 ≡ ok out
    → IsRegistered env input w (register env input w).1 out
register_lem env input w h = (Returns-register env input w).at _ h
