-- ===== src/Auth/Reuse.antt =====
-- Refresh tokens of backend/auth-service that were used before: one that was spent, and the family
-- that is revoked when one comes back.
use capibarco.Base.{
  ℕ, ◌≡◌, refl, ◌≢◌, inl, inr, Bool, true, Option-cases, List, [], ◌∷◌, ◌++◌, arith,
}
use capibarco.Base.Text.{Text}
use capibarco.Base.Table.{find, update, find-update, find-append_some}
use capibarco.Base.Result.{ok}
use capibarco.Base.Action.{bind-ok}
use capibarco.Base.Action.Returns.{Returns, Returns-bind, Returns-weaken, Keeps-Returns}
use capibarco.Auth.Domain.{RefreshToken}
use capibarco.Auth.Outside.{Env, World}
use capibarco.Auth.Store.{has_hash, revoked, inserted}
use capibarco.Auth.Tokens.{IssuedRefreshToken, rotate_refresh_token}
use capibarco.Auth.Access.{AuthOutput}
use capibarco.Auth.Service.{refresh_token}
use capibarco.Auth.Stable.{Tables, Stable, On}
use capibarco.Auth.Usecases.{access_rules}
use capibarco.Auth.Session.{Call, run, On-run}
use capibarco.Auth.Rotation.{is_spent, is_revoked, Returns-rotate}

abbrev pub Spent : Text → Tables
Spent hash rs ps = is_spent hash rs ≡ true

pub revoked-is_revoked :
    (reason : Text) (at : ℕ) (t : RefreshToken) → is_revoked (revoked reason at t) ≡ true
revoked-is_revoked reason at t = elim (Option-cases t.revoked_at) [
  | inl e ↦ ground arith
  | inr (a, e) ↦ ground arith
]

is_spent-append :
    (h : Text) (rs : List RefreshToken) (t : RefreshToken)
    → is_spent h rs ≡ true
    → is_spent h (rs ++ (t ∷ [])) ≡ true
unfolding is_spent
is_spent-append h rs t spent = elim (Option-cases (find (has_hash h) rs)) [
  | inl e ↦ ground arith
  | inr (x, e) ↦ ground (arith, find-append_some (has_hash h) rs (t ∷ []) e)
]

is_spent-update :
    (h : Text) (p : RefreshToken → Bool) (reason : Text) (at : ℕ) (rs : List RefreshToken)
    → is_spent h rs ≡ true
    → is_spent h (update p (revoked reason at) rs) ≡ true
unfolding is_spent
is_spent-update h p reason at rs spent = elim (Option-cases (find (has_hash h) rs)) [
  | inl e ↦ ground arith
  | inr (x, e) ↦ ground (
    arith,
    find-update (has_hash h) p (revoked reason at) rs (λ y. refl),
    revoked-is_revoked reason at x,
  )
]

abbrev Anything : Text → Type 0
Anything f = Unit {0}

Spent-Stable : (env : Env) (h : Text) → Stable env (Spent h) Anything
Spent-Stable env h = record {
  create = λ rs ps t q a. is_spent-append h rs (inserted t) q;
  revoke = λ rs ps p reason at q. is_spent-update h p reason at rs q;
  rotation = λ rs ps h₁ t q found live. tt;
  first = λ n id e. tt;
  create_reset = λ rs ps t q. q;
  consume = λ rs ps p at q. q;
}

-- A spent token is refused.
spent_refused :
    (env : Env) (raw : Text) (w : World)
    → is_spent (env.hash_token raw) w.refresh_tokens ≡ true
    → (r : IssuedRefreshToken) → (rotate_refresh_token env raw w).0 ≢ ok r
unfolding is_spent
spent_refused env raw w spent r accepted =
    let done = (Returns-rotate env raw w).at r accepted in
    let live = done.was_live in absurd (ground (arith, done.found))

refresh-spends :
    (env : Env) (raw : Text) (w : World)
    → Returns
        (refresh_token env raw)
        w
        (λ out w₁. is_spent (env.hash_token raw) w₁.refresh_tokens ≡ true)
unfolding refresh_token On
refresh-spends env raw w =
    let stable = Spent-Stable env (env.hash_token raw) in
    Returns-bind _ _ _ (
      Returns-weaken (Returns-rotate env raw w) λ r w₁ done.
        Keeps-Returns {P = On (Spent (env.hash_token raw))} (search (access_rules) depth 14)
          done.spent)

-- A refresh token that RefreshToken accepted is refused for ever after: whatever calls follow, with
-- whatever faults, it is not accepted again.
pub refresh_once :
    (env : Env) (raw : Text) (w : World) {out : AuthOutput}
    → (refresh_token env raw w).0 ≡ ok out
    → (calls : List Call) (out₂ : AuthOutput)
    → (refresh_token env raw (run env calls (refresh_token env raw w).1)).0 ≢ ok out₂
unfolding refresh_token On
refresh_once env raw w h calls out₂ again =
    let spent = (refresh-spends env raw w).at _ h in
    let still =
      On-run (Spent-Stable env (env.hash_token raw)) calls (refresh_token env raw w).1 spent in
    let (r, e, _, _) = bind-ok _ _ _ again in spent_refused env raw _ still r e
