-- ===== src/Auth/OneTime.antt =====
-- Password reset tokens of backend/auth-service: what an accepted reset leaves, and that its token is
-- spent.
use capibarco.Base.{
  ℕ, ◌≡◌, refl, ap, ◌∙◌, ◌≢◌, inl, inr, Bool, true, false, not, Option, none, some, Option-cases,
  List, [], ◌∷◌, ◌++◌, arith, ltb,
}
use capibarco.Base.Text.{Text, text_eq, text_eq_refl}
use capibarco.Base.Table.{find, update, find-update, find-append_some}
use capibarco.Base.Result.{ok}
use capibarco.Base.Action.Returns.{
  Returns, Returns-bind, Returns-weaken, Returns-guard, Returns-lift, Returns-fail, Keeps-Returns,
}
use capibarco.Auth.Domain.{PasswordResetToken}
use capibarco.Auth.Outside.{Env, World, after}
use capibarco.Auth.Store.{
  reset_has_hash, can_consume, consumed, is_unconsumed, update_password,
  consume_password_reset_token, get_password_reset_token_by_hash,
}
use capibarco.Auth.Access.{validate_password}
use capibarco.Auth.Reset.{find_reset, finish_reset, complete_reset, reset_password}
use capibarco.Auth.Stable.{Tables, Stable, On}
use capibarco.Auth.Usecases.{access_rules}
use capibarco.Auth.Session.{Call, run, On-run}
use capibarco.Auth.Issue.{Returns-draw, Returns-request, Returns-or_error, Returns-now}
use capibarco.Auth.Rotation.{or_not_found-ok}

-- The reset token with a hash is in the table, consumed.
unfoldable pub is_used : Text → List PasswordResetToken → Bool
is_used hash ts = elim (find (reset_has_hash hash) ts) [
  | none ↦ false
  | some t ↦ not (is_unconsumed t)
]

abbrev Used : Text → Tables
Used hash rs ps = is_used hash ps ≡ true

is_used-append :
    (h : Text) (ps : List PasswordResetToken) (t : PasswordResetToken)
    → is_used h ps ≡ true
    → is_used h (ps ++ (t ∷ [])) ≡ true
unfolding is_used
is_used-append h ps t used = elim (Option-cases (find (reset_has_hash h) ps)) [
  | inl e ↦ ground arith
  | inr (x, e) ↦ ground (arith, find-append_some (reset_has_hash h) ps (t ∷ []) e)
]

is_used-update :
    (h : Text) (p : PasswordResetToken → Bool) (at : ℕ) (ps : List PasswordResetToken)
    → is_used h ps ≡ true
    → is_used h (update p (consumed at) ps) ≡ true
unfolding is_used
is_used-update h p at ps used = elim (Option-cases (find (reset_has_hash h) ps)) [
  | inl e ↦ ground arith
  | inr (x, e) ↦ ground (arith, find-update (reset_has_hash h) p (consumed at) ps (λ y. refl))
]

-- The token found is used once its row is consumed.
is_used-consumed :
    (h : Text) (at : ℕ) (ps : List PasswordResetToken) (t : PasswordResetToken)
    → find (reset_has_hash h) ps ≡ some t
    → t.consumed_at ≡ none
    → is_used h (update (can_consume t.id) (consumed at) ps) ≡ true
unfolding is_used
is_used-consumed h at ps t found fresh = ground (
  arith,
  find-update (reset_has_hash h) (can_consume t.id) (consumed at) ps (λ y. refl),
  text_eq_refl t.id,
)

Used-Stable : (env : Env) (h : Text) → Stable env (Used h) (λ f. Unit {0})
Used-Stable env h = record {
  create = λ rs ps t q a. q;
  revoke = λ rs ps p reason at q. q;
  rotation = λ rs ps h₁ t q found live. tt;
  first = λ n id e. tt;
  create_reset = λ rs ps t q. is_used-append h ps t q;
  consume = λ rs ps p at q. is_used-update h p at ps q;
}

-- What ResetPassword leaves, of the token `raw` that it accepts.
pub record IsReset (env : Env) (tenant_id raw new_password : Text) (w w₁ : World) : Type 0 where
  pub token : PasswordResetToken
  pub found : find (reset_has_hash (env.hash_token raw)) w.reset_tokens ≡ some token
  pub of_tenant : text_eq token.tenant_id tenant_id ≡ true
  pub was_unused : token.consumed_at ≡ none
  pub unexpired : ltb token.expires_at (env.clock (after w).tick) ≡ false
  pub strong : ltb (env.byte_length new_password) 12 ≡ false
  pub used : is_used (env.hash_token raw) w₁.reset_tokens ≡ true

Returns-find_reset :
    (env : Env) (h : Text) (w : World) {Post : PasswordResetToken → World → Type 0}
    → ((t : PasswordResetToken)
        → find (reset_has_hash h) w.reset_tokens ≡ some t
        → Post t (after w))
    → Returns (find_reset env h) w Post
unfolding find_reset get_password_reset_token_by_hash
Returns-find_reset env h w given = Returns-or_error env _ _ _ (
    Returns-request env _ _
      (record { at = λ t e. given t (or_not_found-ok (find (reset_has_hash h) w.reset_tokens) e) }))

Returns-consume :
    (id : Text) (at : ℕ) (w : World) {Post : Unit {0} → World → Type 0}
    → Post tt (record w { reset_tokens = update (can_consume id) (consumed at) w.reset_tokens })
    → Returns (consume_password_reset_token id at) w Post
unfolding consume_password_reset_token
Returns-consume id at w h = record { at = λ u e. h }

-- The update of a password leaves the reset tokens.
Returns-update_password :
    (env : Env) (t u p : Text) (at : ℕ) (w : World)
    → Returns (update_password t u p at) w (λ x w₁. w₁.reset_tokens ≡ w.reset_tokens)
unfolding update_password
Returns-update_password env t u p at w = record { at = λ x e. ground arith }

Returns-complete :
    (env : Env) (h tenant_id new_password ip : Text) (t : PasswordResetToken) (at : ℕ) (w : World)
    → find (reset_has_hash h) w.reset_tokens ≡ some t
    → t.consumed_at ≡ none
    → Returns
        (complete_reset env tenant_id new_password ip t at)
        w
        (λ u w₁. is_used h w₁.reset_tokens ≡ true)
unfolding complete_reset On
Returns-complete env h tenant_id new_password ip t at w found fresh =
    let stable = Used-Stable env h in
    Returns-bind _ _ w (
      Returns-draw env _ w λ password_hash hashed. Returns-bind _ _ _ (
        Returns-weaken
          (Returns-request env _ _
            (Returns-update_password env tenant_id t.user_id password_hash at _))
          λ u w₁ same. Returns-bind _ _ _ (
            Returns-request env _ _ (
              Returns-consume _ _ _ (
                Keeps-Returns {P = On (Used h)} (search access_rules depth 14) (
                  is_used-consumed h at w₁.reset_tokens t
                    (ap (find (reset_has_hash h)) same ∙ found) fresh))))))

Returns-finish :
    (env : Env) (h tenant_id new_password ip : Text) (t : PasswordResetToken) (at : ℕ)
    (c : Option ℕ) (w : World)
    → find (reset_has_hash h) w.reset_tokens ≡ some t
    → t.consumed_at ≡ c
    → Returns
        (finish_reset env tenant_id new_password ip t at c)
        w
        (λ u w₁. (c ≡ none) × (ltb t.expires_at at ≡ false) × (is_used h w₁.reset_tokens ≡ true))
Returns-finish env h tenant_id new_password ip t at (some c) w found e = Returns-fail _ _
Returns-finish env h tenant_id new_password ip t at none w found fresh = Returns-bind _ _ w (
    Returns-guard _ _ _ λ unexpired.
      Returns-weaken (Returns-complete env h tenant_id new_password ip t at w found fresh)
        λ u w₁ used. (refl, unexpired, used))

pub Returns-reset_password :
    (env : Env) (tenant_id raw new_password ip : Text) (w : World)
    → Returns
        (reset_password env tenant_id raw new_password ip)
        w
        (λ u w₁. IsReset env tenant_id raw new_password w w₁)
unfolding reset_password validate_password
Returns-reset_password env tenant_id raw new_password ip w = Returns-bind _ _ w (
    Returns-lift _ w λ u strong. Returns-bind _ _ _ (
      Returns-find_reset env _ _ λ t found. Returns-bind _ _ _ (
        Returns-guard _ _ _ λ same. Returns-bind _ _ _ (
          Returns-now env _ (
            Returns-weaken
              (Returns-finish env (env.hash_token raw) tenant_id new_password ip t _ _ _ found refl)
              λ x w₁ done. record {
                token = t;
                found = found;
                of_tenant = ground arith;
                was_unused = done.0;
                unexpired = done.1;
                strong = ground arith;
                used = done.2;
              })))))

-- A reset token that ResetPassword accepted is refused for ever after: whatever calls follow, with
-- whatever faults, no tenant, password or address makes it accepted again.
pub reset_once :
    (env : Env) (tenant_id raw new_password ip : Text) (w : World) {u : Unit {0}}
    → (reset_password env tenant_id raw new_password ip w).0 ≡ ok u
    → (calls : List Call) (tenant_id₂ new_password₂ ip₂ : Text)
    → (reset_password env tenant_id₂ raw new_password₂ ip₂
        (run env calls (reset_password env tenant_id raw new_password ip w).1)).0
      ≢ ok tt
unfolding On is_used
reset_once env tenant_id raw new_password ip w h calls tenant_id₂ new_password₂ ip₂ again =
    let used = ((Returns-reset_password env tenant_id raw new_password ip w).at _ h).used in
    let still =
      On-run (Used-Stable env (env.hash_token raw)) calls
        (reset_password env tenant_id raw new_password ip w).1 used in
    let done = (Returns-reset_password env tenant_id₂ raw new_password₂ ip₂ _).at _ again in
    let unused = done.was_unused in absurd (ground (arith, done.found, still))
