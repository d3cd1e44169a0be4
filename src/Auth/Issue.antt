-- ===== src/Auth/Issue.antt =====
-- What issuing and rotating a refresh token do to the table of backend/auth-service.
use mathlib.Core.Path.{subst}
use capibarco.Base.{
  sym, refl, true, if◌then◌else◌, ℕ, ◌+◌, ◌≡◌, Bool, false, ◌||◌, none, ◌∷◌, [], ◌++◌, exists,
}
use capibarco.Base.Text.{Text}
use capibarco.Base.Result.{Result, ok, err, ok-inj}
use capibarco.Base.Action.Returns.{Returns, Returns-bind, Returns-pure}
use capibarco.Base.Action.Ports.{met-answered}
use capibarco.Auth.Domain.{AuthError, outside, RefreshToken}
use capibarco.Auth.Outside.{Env, World, Auth, after, draw, request, now, new_id, random_token}
use capibarco.Auth.Store.{has_hash, has_id, inserted, create_refresh_token}
use capibarco.Auth.Tokens.{IssuedRefreshToken, issue, new_refresh_token, or_error, replace_error}

abbrev pub clashes : RefreshToken → RefreshToken → Bool
clashes token t = has_id token.id t || has_hash token.hash t

-- What `issue` returns and writes.
pub record IsIssued (env : Env) (tenant_id user_id family_id : Text) (w w₁ : World)
    (r : IssuedRefreshToken) : Type 0 where
  pub tenant : r.token.tenant_id ≡ tenant_id
  pub user : r.token.user_id ≡ user_id
  pub family : r.token.family_id ≡ family_id
  pub hashed : r.token.hash ≡ env.hash_token r.raw
  pub live : r.token.revoked_at ≡ none
  pub lifetime : r.token.expires_at ≡ r.token.created_at + env.refresh_ttl
  pub unique : exists (clashes r.token) w.refresh_tokens ≡ false
  pub stored : w₁.refresh_tokens ≡ w.refresh_tokens ++ (r.token ∷ [])

replace_error-ok :
    {A : Type 0} (e : AuthError) (r : Result AuthError A) {a : A}
    → replace_error e r ≡ ok a
    → r ≡ ok a
replace_error-ok e (ok b) h = h
replace_error-ok e (err x) h = absurd cc

module _ {A : Type 0} {Post : A → World → Type 0} (env : Env) where
  pub Returns-draw :
      (f : ℕ → Result AuthError A) (w : World)
      → ((a : A) → f w.tick ≡ ok a → Post a (after w))
      → Returns (draw f) w Post
  unfolding draw
  Returns-draw f w h = record { at = h }

  pub Returns-request :
      (m : Auth A) (w : World) → Returns m (after w) Post → Returns (request env m) w Post
  unfolding request
  Returns-request m w km = record {
    at = λ a e. met-answered outside Post (env.fate w.tick) (m (after w)) (after w) a e km.at;
  }

  pub Returns-or_error :
      (e : AuthError) (m : Auth A) (w : World) → Returns m w Post → Returns (or_error e m) w Post
  unfolding or_error
  Returns-or_error e m w km = record { at = λ a q. km.at a (replace_error-ok e (m w).0 q) }

-- What a statement with a uniqueness check and a foreign key gives.
abbrev insertion : Bool → Bool → World → World → Result AuthError (Unit {0}) × World
insertion clash known w w₁ =
    if clash then (err outside, w) else if known then (ok tt, w₁) else (err outside, w)

insertion-ok :
    (clash known : Bool) (w w₁ : World) {u : Unit {0}}
    → (insertion clash known w w₁).0 ≡ ok u
    → (clash ≡ false) × ((insertion clash known w w₁).1 ≡ w₁)
insertion-ok true known w w₁ h = absurd cc
insertion-ok false true w w₁ h = (refl, refl)
insertion-ok false false w w₁ h = absurd cc

Returns-create :
    (t : RefreshToken) {w : World} {Post : Unit {0} → World → Type 0}
    → (exists (clashes t) w.refresh_tokens ≡ false
        → Post tt (record w { refresh_tokens = w.refresh_tokens ++ (inserted t ∷ []) }))
    → Returns (create_refresh_token t) w Post
unfolding create_refresh_token
Returns-create t {w} {Post} h = record {
  at = λ u e.
      let (unique, left) = insertion-ok (exists (clashes t) w.refresh_tokens) _ w _ e in
      subst (Post u) (sym left) (h unique);
}

module _ (env : Env) (w : World) where
  pub Returns-now :
      {Post : ℕ → World → Type 0} → Post (env.clock w.tick) (after w) → Returns (now env) w Post
  unfolding now draw
  Returns-now {Post} h = record { at = λ a e. subst (λ x. Post x (after w)) (ok-inj e) h }

  pub Returns-new_id :
      {Post : Text → World → Type 0}
      → ((id : Text) → Post id (after w))
      → Returns (new_id env) w Post
  unfolding new_id draw
  Returns-new_id h = record { at = λ id e. h id }

  pub Returns-random_token :
      {Post : Text → World → Type 0}
      → ((raw : Text) → Post raw (after w))
      → Returns (random_token env) w Post
  unfolding random_token draw
  Returns-random_token h = record { at = λ raw e. h raw }

issued :
    {env : Env} {id raw tenant_id user_id family_id : Text} {at : ℕ} {w w₁ : World}
    → (unique : exists
          (clashes (new_refresh_token env id raw tenant_id user_id family_id at))
          w.refresh_tokens
        ≡ false)
    → w₁.refresh_tokens
      ≡ w.refresh_tokens ++ (new_refresh_token env id raw tenant_id user_id family_id at ∷ [])
    → IsIssued env tenant_id user_id family_id w w₁ (record {
      raw = raw;
      token = new_refresh_token env id raw tenant_id user_id family_id at;
      previous_token_id = [];
    })
issued unique stored = record {
  tenant = refl;
  user = refl;
  family = refl;
  hashed = refl;
  live = refl;
  lifetime = refl;
  unique = unique;
  stored = stored;
}

pub Returns-issue :
    (env : Env) (tenant_id user_id family_id : Text) (w : World)
    → Returns
        (issue env tenant_id user_id family_id)
        w
        (λ r w₁. IsIssued env tenant_id user_id family_id w w₁ r)
unfolding issue
Returns-issue env tenant_id user_id family_id w = Returns-bind _ _ _ (
    Returns-new_id env _ λ id. Returns-bind _ _ _ (
      Returns-random_token env _ λ raw. Returns-bind _ _ _ (
        Returns-now env _ (
          Returns-bind _ _ _ (
            Returns-request env _ _
              (Returns-create _ λ unique. Returns-pure _ _ (issued unique refl)))))))
