-- ===== src/Auth/Owner.antt =====
-- RefreshToken and Authorize of backend/auth-service/internal/usecase/auth.go: for whom they answer.
use capibarco.Base.{◌≡◌, refl, inl, inr, Bool, true, not, some, Option-cases, List, arith}
use capibarco.Base.Text.{Text, text_eq_refl, text_eq_iff}
use capibarco.Base.Table.{find, find_sound}
use capibarco.Base.Result.{ok}
use capibarco.Base.Action.Returns.{
  Returns, Returns-bind, Returns-weaken, Returns-lift, Returns-fail, Returns-pure, Returns-if,
}
use capibarco.Auth.Domain.{User, TokenClaims}
use capibarco.Auth.Outside.{Env, World, after, request}
use capibarco.Auth.Store.{has_hash, is_user, get_user_by_id}
use capibarco.Auth.Access.{AuthOutput}
use capibarco.Auth.Tokens.{IssuedRefreshToken}
use capibarco.Auth.Service.{LoginInput, login, refresh_token, authorize, deny, validate_token}
use capibarco.Auth.Stable.{On}
use capibarco.Auth.Session.{Call, run, On-run}
use capibarco.Auth.Issue.{Returns-draw, Returns-request}
use capibarco.Auth.Rotation.{or_not_found-ok, IsRotated, Returns-rotate}
use capibarco.Auth.Identity.{is_owned, Owned-Stable, Returns-issue_access}
use capibarco.Auth.Login.{login_lem}

-- The user of a rotated token owns the token that was rotated.
owner :
    {env : Env} {raw : Text} {w w₁ : World} {r : IssuedRefreshToken} {user : User}
    → IsRotated env raw w w₁ r
    → (users : List User) (out : AuthOutput)
    → find (is_user r.token.tenant_id r.token.user_id) users ≡ some user
    → out.user ≡ user
    → is_owned out.user.tenant_id out.user.id (env.hash_token raw) w.refresh_tokens ≡ true
unfolding is_owned
owner {env} {raw} {w} {w₁} {r} {user} done users out found same =
    let is_it = find_sound (is_user r.token.tenant_id r.token.user_id) users found in
    ground (
      arith,
      done.found,
      done.tenant,
      done.user,
      is_it,
      same,
      text_eq_iff user.tenant_id r.token.tenant_id,
      text_eq_iff user.id r.token.user_id,
      text_eq_refl done.current.tenant_id,
      text_eq_refl done.current.user_id,
    )

Returns-find_id :
    (env : Env) (t i : Text) (w : World) {Post : User → World → Type 0}
    → ((u : User) → find (is_user t i) w.users ≡ some u → Post u (after w))
    → Returns (request env (get_user_by_id t i)) w Post
unfolding get_user_by_id
Returns-find_id env t i w given =
    Returns-request env _ _
      (record { at = λ u q. given u (or_not_found-ok (find (is_user t i) w.users) q) })

Returns-refresh :
    (env : Env) (raw : Text) (w : World)
    → Returns (refresh_token env raw) w (λ out w₁.
      is_owned out.user.tenant_id out.user.id (env.hash_token raw) w.refresh_tokens ≡ true)
unfolding refresh_token
Returns-refresh env raw w = Returns-bind _ _ w (
    Returns-weaken (Returns-rotate env raw w) λ r w₁ done. Returns-bind _ _ _ (
      Returns-find_id env _ _ _ λ user found. Returns-bind _ _ _ (
        Returns-weaken (Returns-issue_access env user _) λ out w₂ same. Returns-bind _ _ _ (record {
          at = λ u e.
              Returns-bind _ _ _
                (record { at = λ v q. Returns-pure _ _ (owner done w₁.users out found same) });
        }))))

find_sound_refresh :
    (env : Env) (raw t u : Text) (w : World) {out : AuthOutput}
    → is_owned t u (env.hash_token raw) w.refresh_tokens ≡ true
    → (refresh_token env raw w).0 ≡ ok out
    → (out.user.tenant_id ≡ t) × (out.user.id ≡ u)
unfolding is_owned
find_sound_refresh env raw t u w {out} mine h =
    let theirs = (Returns-refresh env raw w).at out h in
    elim (Option-cases (find (has_hash (env.hash_token raw)) w.refresh_tokens)) [
      | inl e ↦ absurd (ground (arith, e, mine))
      | inr (x, e) ↦ ground (
        arith,
        e,
        mine,
        theirs,
        text_eq_iff x.tenant_id t,
        text_eq_iff x.user_id u,
        text_eq_iff x.tenant_id out.user.tenant_id,
        text_eq_iff x.user_id out.user.id,
      )
    ]

-- The refresh token of a login is its user's for ever: whatever calls follow, with whatever faults,
-- when RefreshToken accepts it the answer is for the user, and the tenant, that logged in.
pub session_user :
    (env : Env) (input : LoginInput) (w : World) {out : AuthOutput}
    → (login env input w).0 ≡ ok out
    → (calls : List Call) {out₂ : AuthOutput}
    → (refresh_token env out.refresh_token (run env calls (login env input w).1)).0 ≡ ok out₂
    → (out₂.user.tenant_id ≡ out.user.tenant_id) × (out₂.user.id ≡ out.user.id)
unfolding On
session_user env input w {out} h calls again =
    find_sound_refresh env out.refresh_token out.user.tenant_id out.user.id _
      (On-run (Owned-Stable env out.user.tenant_id out.user.id (env.hash_token out.refresh_token))
        calls (login env input w).1 (login_lem env input w h).owned)
      again

Returns-authorize :
    (env : Env) (access permission : Text) (w : World)
    → Returns (authorize env access permission) w (λ (answer : TokenClaims × Bool) w₁.
      (env.validate_access_token w.tick access ≡ ok answer.0)
      × (env.user_has_permission answer.0.tenant_id answer.0.subject permission ≡ ok true)
      × (answer.1 ≡ true))
unfolding authorize validate_token deny
Returns-authorize env access permission w = Returns-bind _ _ w (
    Returns-draw env _ w λ claims valid. Returns-bind _ _ _ (
      Returns-request env _ _ (
        Returns-lift _ _ λ granted held.
          Returns-if (not granted) _ _ _
            (λ no.
              Returns-bind _ _ _ (record {
                at = λ u e. Returns-bind _ _ _ (record { at = λ v q. Returns-fail _ _ });
              }))
            (λ yes. Returns-pure _ _ (valid, ground arith, refl)))))

-- Authorize answers without an error only where the access token is valid and its subject holds the
-- permission in its tenant, and then it answers true.
pub authorize_lem :
    (env : Env) (access permission : Text) (w : World) {answer : TokenClaims × Bool}
    → (authorize env access permission w).0 ≡ ok answer
    → (env.validate_access_token w.tick access ≡ ok answer.0)
      × (env.user_has_permission answer.0.tenant_id answer.0.subject permission ≡ ok true)
      × (answer.1 ≡ true)
authorize_lem env access permission w h = (Returns-authorize env access permission w).at _ h
