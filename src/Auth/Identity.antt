-- ===== src/Auth/Identity.antt =====
-- The owner of a refresh token of backend/auth-service, and the tokens that are given out for a user.
use capibarco.Base.{
  ℕ, ◌≡◌, refl, inl, inr, Bool, true, false, ◌&&◌, none, some, Option-cases, List, [], ◌∷◌, ◌++◌,
  arith,
}
use capibarco.Base.Text.{Text, text_eq, text_eq_refl}
use capibarco.Base.Table.{
  find, update, find-update, find-append_some, find-append_new, find-exists, exists-or,
}
use capibarco.Base.Action.{pure, ◌>>◌}
use capibarco.Base.Action.Returns.{
  Returns, Returns-bind, Returns-weaken, Returns-lift, Returns-pure, Keeps-Returns,
}
use capibarco.Auth.Domain.{User, RefreshToken, Payload}
use capibarco.Auth.Outside.{Env, World}
use capibarco.Auth.Store.{
  or_not_found, has_hash, is_user, has_email, revoked, inserted, get_user_by_id, get_user_by_email,
  create_user,
}
use capibarco.Auth.Access.{AuthOutput, publish, issue_access_for_user, issue_auth_output}
use capibarco.Auth.Store
use capibarco.Auth.Tokens
use capibarco.Auth.Tokens.{IssuedRefreshToken, or_error, issue_refresh_token}
use capibarco.Auth.Stable.{Tables, Stable, On}
use capibarco.Auth.Usecases.{Keeps-publish}
use capibarco.Auth.Issue.{IsIssued, Returns-draw, Returns-request, Returns-new_id, Returns-issue}

-- The refresh token with a hash is in the table and belongs to the user.
unfoldable pub is_owned : Text → Text → Text → List RefreshToken → Bool
is_owned tenant_id user_id hash ts = elim (find (has_hash hash) ts) [
  | none ↦ false
  | some t ↦ text_eq t.tenant_id tenant_id && text_eq t.user_id user_id
]

abbrev pub Owned : Text → Text → Text → Tables
Owned tenant_id user_id hash rs ps = is_owned tenant_id user_id hash rs ≡ true

is_owned-append :
    (t u h : Text) (rs : List RefreshToken) (x : RefreshToken)
    → is_owned t u h rs ≡ true
    → is_owned t u h (rs ++ (x ∷ [])) ≡ true
unfolding is_owned
is_owned-append t u h rs x owned = elim (Option-cases (find (has_hash h) rs)) [
  | inl e ↦ ground arith
  | inr (y, e) ↦ ground (arith, find-append_some (has_hash h) rs (x ∷ []) e)
]

is_owned-update :
    (t u h : Text) (p : RefreshToken → Bool) (reason : Text) (at : ℕ) (rs : List RefreshToken)
    → is_owned t u h rs ≡ true
    → is_owned t u h (update p (revoked reason at) rs) ≡ true
unfolding is_owned
is_owned-update t u h p reason at rs owned = elim (Option-cases (find (has_hash h) rs)) [
  | inl e ↦ ground arith
  | inr (y, e) ↦ ground (arith, find-update (has_hash h) p (revoked reason at) rs (λ z. refl))
]

pub Owned-Stable : (env : Env) (t u h : Text) → Stable env (Owned t u h) (λ f. Unit {0})
Owned-Stable env t u h = record {
  create = λ rs ps x q a. is_owned-append t u h rs (inserted x) q;
  revoke = λ rs ps p reason at q. is_owned-update t u h p reason at rs q;
  rotation = λ rs ps h₁ x q found live. tt;
  first = λ n id e. tt;
  create_reset = λ rs ps x q. q;
  consume = λ rs ps p at q. q;
}

pub issued-is_owned :
    {env : Env} {t u f : Text} {w w₁ : World} {r : Tokens.IssuedRefreshToken}
    → IsIssued env t u f w w₁ r
    → is_owned t u (env.hash_token r.raw) w₁.refresh_tokens ≡ true
unfolding is_owned
issued-is_owned {env} {t} {u} {f} {w} {w₁} {r} i =
    let (_, new) =
      exists-or (Store.has_id r.token.id) (has_hash r.token.hash) w.refresh_tokens i.unique in
    ground (
      arith,
      i.stored,
      i.hashed,
      i.tenant,
      i.user,
      find-append_new (has_hash r.token.hash) w.refresh_tokens (r.token ∷ [])
          (find-exists (has_hash r.token.hash) w.refresh_tokens new),
      text_eq_refl r.token.hash,
      text_eq_refl t,
      text_eq_refl u,
    )

pub Returns-issue_access :
    (env : Env) (user : User) (w : World)
    → Returns (issue_access_for_user env user) w (λ out w₁. out.user ≡ user)
unfolding issue_access_for_user
Returns-issue_access env user w = Returns-bind _ _ w (
    Returns-request env _ _ (
      Returns-lift _ _ λ roles e₁. Returns-bind _ _ _ (
        Returns-draw env _ _ λ access e₂.
          Returns-bind _ _ _ (Returns-draw env _ _ λ claims e₃. Returns-pure _ _ refl))))

-- The pair that `issueAuthOutput` gives out for a user.
pub record IsPair (env : Env) (user : User) (out : AuthOutput) (w₁ : World) : Type 0 where
  pub for_user : out.user ≡ user
  pub owned :
      is_owned user.tenant_id user.id (env.hash_token out.refresh_token) w₁.refresh_tokens ≡ true

pub Returns-issue_auth :
    (env : Env) (user : User) (w : World)
    → Returns (issue_auth_output env user) w (λ out w₁. IsPair env user out w₁)
unfolding issue_auth_output issue_refresh_token
Returns-issue_auth env user w = Returns-bind _ _ w (
    Returns-weaken (Returns-issue_access env user w) λ out w₁ same. Returns-bind _ _ _ (
      Returns-bind _ _ _ (
        Returns-new_id env _ λ f.
          Returns-weaken (Returns-issue env user.tenant_id user.id f _)
            λ r w₂ i. Returns-pure _ _ (record { for_user = same; owned = issued-is_owned i }))))

-- Publishing an event and returning leave the pair.
pub Returns-announce :
    (env : Env) (user : User) (out : AuthOutput) (key : Text) (payload : Payload) (w : World)
    → IsPair env user out w
    → Returns (publish env key payload >> pure out) w (λ o w₁. IsPair env user o w₁)
unfolding On
Returns-announce env user out key payload w pair =
    let stable = Owned-Stable env user.tenant_id user.id (env.hash_token out.refresh_token) in
    Returns-bind _ _ w (
      Returns-weaken
        (Keeps-Returns {P = On (Owned user.tenant_id user.id (env.hash_token out.refresh_token))}
          (Keeps-publish stable key payload) pair.owned)
        λ u w₁ owned. Returns-pure _ _ (record { for_user = pair.for_user; owned = owned }))
