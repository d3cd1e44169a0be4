-- ===== src/Auth/Detection.antt =====
-- What RotateRefreshToken of backend/auth-service leaves when it reports a reused token.
use mathlib.Core.Path.{subst}
use mathlib.Core.Option.{some_inj}
use capibarco.Base.{ℕ, ◌≡◌, sym, ◌∙◌, ◌≢◌, Bool, true, Option, none, some, List, arith}
use capibarco.Base.Text.{Text, lit, text_eq_refl}
use capibarco.Base.Table.{find}
use capibarco.Base.Result.{ok, err}
use capibarco.Base.Action.{guard}
use capibarco.Base.Action.Returns.{Returns-guard}
use capibarco.Base.Action.Raises.{
  Raises, Raises-never, Raises-pure, Raises-bind, Raises-fail, Raises-guard,
}
use capibarco.Auth.Domain.{token_reused, token_expired, RefreshToken}
use capibarco.Auth.Outside.{Env, World, draw, request, now, new_id, random_token, after}
use capibarco.Auth.Store.{
  has_hash, create_refresh_token, revoke_refresh_token, revoke_refresh_token_family,
}
use capibarco.Auth.Tokens.{
  IssuedRefreshToken, or_error, find_token, issue, replace_token, reject_reuse, spend_token,
  rotate_refresh_token,
}
use capibarco.Auth.Session.{Call, run, On-run}
use capibarco.Auth.Stable.{On}
use capibarco.Auth.Issue.{Returns-now, Returns-new_id, Returns-random_token, Returns-request}
use capibarco.Auth.Rotation.{Returns-find_token, Returns-rotate}
use capibarco.Auth.Family.{is_dead, is_dead-revoked, is_dead-find, Dead-Stable}

module _ (env : Env) (w : World) {Post : World → Type 0} where
  quiet_now : Raises (now env) w token_reused Post
  unfolding now draw
  quiet_now = Raises-never _ w (λ h. absurd cc)

  quiet_new_id : Raises (new_id env) w token_reused Post
  unfolding new_id draw
  quiet_new_id = Raises-never _ w (λ h. ground arith)

  quiet_random_token : Raises (random_token env) w token_reused Post
  unfolding random_token draw
  quiet_random_token = Raises-never _ w (λ h. ground arith)

  quiet_find_token : (h : Text) → Raises (find_token env h) w token_reused Post
  unfolding find_token or_error
  quiet_find_token h = Raises-never _ w (λ e. ground arith)

  quiet_create :
      (t : RefreshToken) → Raises (request env (create_refresh_token t)) w token_reused Post
  unfolding request create_refresh_token
  quiet_create t = Raises-never _ w (λ e. ground arith)

  quiet_revoke :
      (id reason : Text) (at : ℕ)
      → Raises (request env (revoke_refresh_token id reason at)) w token_reused Post
  unfolding request revoke_refresh_token
  quiet_revoke id reason at = Raises-never _ w (λ e. ground arith)

  quiet_revoke_family :
      (f : Text) (at : ℕ)
      → Raises
          (request env (revoke_refresh_token_family f (lit "reuse_detected") at))
          w
          token_reused
          Post
  unfolding request revoke_refresh_token_family
  quiet_revoke_family f at = Raises-never _ w (λ e. ground arith)

  quiet_guard : (b : Bool) → Raises (guard b token_expired) w token_reused Post
  quiet_guard b = Raises-guard b token_expired w (λ h. absurd cc)

module _ (env : Env) {Post : World → Type 0} where
  quiet_issue : (t u f : Text) (w : World) → Raises (issue env t u f) w token_reused Post
  unfolding issue
  quiet_issue t u f w = Raises-bind _ _ w (quiet_new_id env w) (
      Returns-new_id env w λ id. Raises-bind _ _ _ (quiet_random_token env _) (
        Returns-random_token env _ λ raw. Raises-bind _ _ _ (quiet_now env _) (
          Returns-now env _
            (Raises-bind _ _ _ (quiet_create env _ _) (record { at = λ x e. Raises-pure _ _ })))))

  quiet_replace :
      (t : RefreshToken) (at : ℕ) (w : World) → Raises (replace_token env t at) w token_reused Post
  unfolding replace_token
  quiet_replace t at w = Raises-bind _ _ w (quiet_issue _ _ _ w) (record {
    at = λ next e.
        Raises-bind _ _ _ (quiet_revoke env _ _ _ _) (record { at = λ x q. Raises-pure _ _ });
  })

-- After `revoke_refresh_token_family` the family is dead.
Raises-reject :
    (env : Env) (t : RefreshToken) (at : ℕ) (w : World)
    → Raises
        (reject_reuse env t at)
        w
        token_reused
        (λ w₁. is_dead t.family_id w₁.refresh_tokens ≡ true)
unfolding reject_reuse revoke_refresh_token_family
Raises-reject env t at w = Raises-bind _ _ w (quiet_revoke_family env w t.family_id at) (
    Returns-request env _ _ (record {
      at = λ u e.
          Raises-fail _ (is_dead-revoked t.family_id (lit "reuse_detected") at w.refresh_tokens);
    }))

Raises-spend :
    (env : Env) (t : RefreshToken) (at : ℕ) (c : Option ℕ) (w : World)
    → Raises
        (spend_token env t at c)
        w
        token_reused
        (λ w₁. is_dead t.family_id w₁.refresh_tokens ≡ true)
Raises-spend env t at (some c) w = Raises-reject env t at w
Raises-spend env t at none w = quiet_replace env t at w

-- Where RotateRefreshToken reports that the stored token `current` was reused, every token of its
-- family is revoked.
pub reuse_revokes_family :
    (env : Env) (raw : Text) (w : World) (current : RefreshToken)
    → find (has_hash (env.hash_token raw)) w.refresh_tokens ≡ some current
    → (rotate_refresh_token env raw w).0 ≡ err token_reused
    → is_dead current.family_id (rotate_refresh_token env raw w).1.refresh_tokens ≡ true
unfolding rotate_refresh_token
reuse_revokes_family env raw w current found =
    (Raises-bind _ _ w (quiet_now env w) (
      Returns-now env w (
        Raises-bind _ _ _ (quiet_find_token env _ _) (
          Returns-find_token env _ _ λ t e. Raises-bind _ _ _ (quiet_guard env _ _) (
            Returns-guard _ _ _ λ unexpired.
              subst
                (λ (x : RefreshToken).
                  Raises (spend_token env t (env.clock w.tick) t.revoked_at) (after (after w))
                    token_reused (λ w₁. is_dead x.family_id w₁.refresh_tokens ≡ true))
                (some_inj.0 (sym e ∙ found)) (Raises-spend env t _ _ _)))))).at

-- No token of a dead family is accepted.
dead_refused :
    (env : Env) (raw : Text) (w : World) (f : Text) (r : IssuedRefreshToken)
    → is_dead f w.refresh_tokens ≡ true
    → (rotate_refresh_token env raw w).0 ≡ ok r
    → r.token.family_id ≢ f
dead_refused env raw w f r dead accepted same =
    let done = (Returns-rotate env raw w).at r accepted in
    let other =
      is_dead-find f (has_hash (env.hash_token raw)) w.refresh_tokens dead done.found
        done.was_live in
    absurd (ground (arith, text_eq_refl f, other, same, done.family))

-- A family that is wholly revoked stays so, and gives no token again: whatever calls follow, with
-- whatever faults, a token that RotateRefreshToken then returns is of another family, as long as no
-- identifier that is drawn is that family's.
pub dead_forever :
    (env : Env) (f : Text)
    → ((n : ℕ) → env.fresh n ≢ some f)
    → (w : World) → is_dead f w.refresh_tokens ≡ true
    → (calls : List Call) (raw : Text) (r : IssuedRefreshToken)
    → (rotate_refresh_token env raw (run env calls w)).0 ≡ ok r
    → r.token.family_id ≢ f
dead_forever env f new w dead calls raw r =
    dead_refused env raw (run env calls w) f r
      (unfold On in On-run (Dead-Stable env f new) calls w dead)
