-- ===== src/Auth/Rotation.antt =====
-- RotateRefreshToken of backend/auth-service/internal/usecase/token.go: what an accepted token leaves,
-- and what becomes of a token that comes back.
use capibarco.Base.{
  ℕ, ◌≡◌, refl, sym, ap, ◌∙◌, inl, inr, Bool, true, false, Bool-cases, Option, none, some, List, [],
  ◌∷◌, ◌++◌, ltb, arith, exists,
}
use capibarco.Base.Text.{Text, lit, text_eq, text_eq_refl, eq_of_text_eq}
use capibarco.Base.Table.{
  find, update, find-update, find-append_some, find-append_new, find-exists, find-fails, exists-or,
}
use capibarco.Base.Result.{ok}
use capibarco.Base.Action.Returns.{
  Returns, Returns-bind, Returns-pure, Returns-fail, Returns-guard, Returns-weaken,
}
use capibarco.Auth.Domain.{RefreshToken}
use capibarco.Auth.Outside.{Env, World, after}
use capibarco.Auth.Store.{
  or_not_found, has_hash, has_id, revoked, revoke_refresh_token, get_refresh_token_by_hash,
}
use capibarco.Auth.Tokens.{
  IssuedRefreshToken, find_token, spend_token, replace_token, reject_reuse, rotate_refresh_token,
}
use capibarco.Auth.Issue.{
  IsIssued, clashes, Returns-request, Returns-or_error, Returns-now, Returns-issue,
}

abbrev pub is_revoked : RefreshToken → Bool
is_revoked t = elim t.revoked_at [ none ↦ false | some _ ↦ true ]

-- The token with a hash is in the table, revoked.
unfoldable pub is_spent : Text → List RefreshToken → Bool
is_spent hash ts = elim (find (has_hash hash) ts) [ none ↦ false | some t ↦ is_revoked t ]

-- What `RotateRefreshToken` returns and leaves, of the token `raw` that it accepts.
pub record IsRotated (env : Env) (raw : Text) (w w₁ : World) (r : IssuedRefreshToken) : Type 0 where
  pub current : RefreshToken
  pub found : find (has_hash (env.hash_token raw)) w.refresh_tokens ≡ some current
  pub was_live : current.revoked_at ≡ none
  pub unexpired : ltb current.expires_at (env.clock w.tick) ≡ false
  pub tenant : r.token.tenant_id ≡ current.tenant_id
  pub user : r.token.user_id ≡ current.user_id
  pub family : r.token.family_id ≡ current.family_id
  pub hashed : r.token.hash ≡ env.hash_token r.raw
  pub previous : r.previous_token_id ≡ current.id
  pub spent : is_spent (env.hash_token raw) w₁.refresh_tokens ≡ true
  pub replacement : find (has_hash r.token.hash) w₁.refresh_tokens ≡ some r.token
  pub live : r.token.revoked_at ≡ none

-- The table after the replacement is inserted and the current token revoked.
abbrev replaced : Text → ℕ → RefreshToken → List RefreshToken → List RefreshToken
replaced id at token ts = update (has_id id) (revoked (lit "rotated") at) (ts ++ (token ∷ []))

replaced-spent :
    (h : Text) (at : ℕ) (current token : RefreshToken) (ts : List RefreshToken)
    → find (has_hash h) ts ≡ some current
    → is_spent h (replaced current.id at token ts) ≡ true
unfolding is_spent
replaced-spent h at current token ts found = ground (
  arith,
  find-update (has_hash h) (has_id current.id) (revoked (lit "rotated") at) (ts ++ (token ∷ []))
      (λ x. refl),
  find-append_some (has_hash h) ts (token ∷ []) found,
  text_eq_refl current.id,
)

text_neq_sym : (s t : Text) → text_eq s t ≡ false → text_eq t s ≡ false
text_neq_sym s t h = elim (Bool-cases (text_eq t s)) [
  | inl e ↦ absurd (ground (arith, eq_of_text_eq t s, text_eq_refl s))
  | inr e ↦ e
]

replaced-replacement :
    (at : ℕ) (h : Text) (current token : RefreshToken) (ts : List RefreshToken)
    → find (has_hash h) ts ≡ some current
    → exists (clashes token) ts ≡ false
    → find (has_hash token.hash) (replaced current.id at token ts) ≡ some token
replaced-replacement at h current token ts found unique =
    let (new_id, new_hash) = exists-or (has_id token.id) (has_hash token.hash) ts unique in
    let other : has_id current.id token ≡ false =
      text_neq_sym current.id token.id
        (find-fails (has_id token.id) (has_hash h) ts found new_id) in
    ground (
      arith,
      find-update (has_hash token.hash) (has_id current.id) (revoked (lit "rotated") at)
          (ts ++ (token ∷ [])) (λ x. refl),
      find-append_new (has_hash token.hash) ts (token ∷ [])
          (find-exists (has_hash token.hash) ts new_hash),
      text_eq_refl token.hash,
    )

pub or_not_found-ok : {A : Type 0} (o : Option A) {a : A} → or_not_found o ≡ ok a → o ≡ some a
or_not_found-ok none h = absurd cc
or_not_found-ok (some b) h = cc

-- Calls that leave the table alone may come first.
moved :
    {env : Env} {t u f : Text} {w w₁ w₂ : World} {r : IssuedRefreshToken}
    → w₁.refresh_tokens ≡ w.refresh_tokens
    → IsIssued env t u f w₁ w₂ r
    → IsIssued env t u f w w₂ r
moved {r} same i = record {
  tenant = i.tenant;
  user = i.user;
  family = i.family;
  hashed = i.hashed;
  live = i.live;
  lifetime = i.lifetime;
  unique = ap (exists (clashes r.token)) (sym same) ∙ i.unique;
  stored = i.stored ∙ ap (λ ts. ts ++ (r.token ∷ [])) same;
}

pub Returns-find_token :
    (env : Env) (h : Text) (w : World) {Post : RefreshToken → World → Type 0}
    → ((t : RefreshToken) → find (has_hash h) w.refresh_tokens ≡ some t → Post t (after w))
    → Returns (find_token env h) w Post
unfolding find_token get_refresh_token_by_hash
Returns-find_token env h w given = Returns-or_error env _ _ _ (
    Returns-request env _ _
      (record { at = λ t e. given t (or_not_found-ok (find (has_hash h) w.refresh_tokens) e) }))

Returns-revoke :
    (id reason : Text) (at : ℕ) (w : World) {Post : Unit {0} → World → Type 0}
    → Post tt
        (record w { refresh_tokens = update (has_id id) (revoked reason at) w.refresh_tokens })
    → Returns (revoke_refresh_token id reason at) w Post
unfolding revoke_refresh_token
Returns-revoke id reason at w h = record { at = λ u e. h }

rotated :
    {env : Env} {raw : Text} {w w₁ w₂ : World} {current : RefreshToken} {r : IssuedRefreshToken}
    (at : ℕ)
    → find (has_hash (env.hash_token raw)) w.refresh_tokens ≡ some current
    → current.revoked_at ≡ none
    → ltb current.expires_at (env.clock w.tick) ≡ false
    → IsIssued env current.tenant_id current.user_id current.family_id w w₁ r
    → w₂.refresh_tokens ≡ update (has_id current.id) (revoked (lit "rotated") at) w₁.refresh_tokens
    → IsRotated env raw w w₂ (record r { previous_token_id = current.id })
rotated {env} {raw} {w} {w₁} {w₂} {current} {r} at found live unexpired issued stored =
    let left : w₂.refresh_tokens ≡ replaced current.id at r.token w.refresh_tokens =
      stored ∙ ap (update (has_id current.id) (revoked (lit "rotated") at)) issued.stored in
    record {
      current = current;
      found = found;
      was_live = live;
      unexpired = unexpired;
      tenant = issued.tenant;
      user = issued.user;
      family = issued.family;
      hashed = issued.hashed;
      previous = refl;
      spent =
          ap (is_spent (env.hash_token raw)) left
          ∙ replaced-spent (env.hash_token raw) at current r.token w.refresh_tokens found;
      replacement =
          ap (find (has_hash r.token.hash)) left
          ∙ replaced-replacement at (env.hash_token raw) current r.token w.refresh_tokens found
              issued.unique;
      live = issued.live;
    }

Returns-spend_token :
    (env : Env) (raw : Text) (w w₁ : World) (current : RefreshToken) (c : Option ℕ)
    → find (has_hash (env.hash_token raw)) w.refresh_tokens ≡ some current
    → ltb current.expires_at (env.clock w.tick) ≡ false
    → current.revoked_at ≡ c
    → w₁.refresh_tokens ≡ w.refresh_tokens
    → Returns (spend_token env current (env.clock w.tick) c) w₁ (λ r w₂. IsRotated env raw w w₂ r)
unfolding replace_token reject_reuse
Returns-spend_token env raw w w₁ current (some at) found unexpired spent same =
    Returns-bind _ _ _ (record { at = λ u e. Returns-fail _ _ })
Returns-spend_token env raw w w₁ current none found unexpired live same = Returns-bind _ _ _ (
    Returns-weaken (Returns-issue env current.tenant_id current.user_id current.family_id w₁)
      λ r w₂ issued. Returns-bind _ _ _ (
        Returns-request env _ _ (
          Returns-revoke _ _ _ _ (
            Returns-pure _ _
              (rotated (env.clock w.tick) found live unexpired (moved same issued) refl)))))

pub Returns-rotate :
    (env : Env) (raw : Text) (w : World)
    → Returns (rotate_refresh_token env raw) w (λ r w₁. IsRotated env raw w w₁ r)
unfolding rotate_refresh_token
Returns-rotate env raw w = Returns-bind _ _ _ (
    Returns-now env _ (
      Returns-bind _ _ _ (
        Returns-find_token env _ _ λ current found. Returns-bind _ _ _ (
          Returns-guard _ _ _
            λ unexpired. Returns-spend_token env raw w _ current _ found unexpired refl refl))))
