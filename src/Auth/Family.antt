-- ===== src/Auth/Family.antt =====
-- The family of a refresh token of backend/auth-service whose reuse was detected.
use capibarco.Base.{
  ℕ, ◌≡◌, refl, ap, ◌∙◌, ◌≢◌, inl, inr, Bool, true, false, not, ◌&&◌, ◌||◌, none, some, Bool-cases,
  List, [], ◌∷◌, ◌++◌, arith,
}
use capibarco.Base.Text.{Text, text_eq, eq_of_text_eq}
use capibarco.Base.Table.{find, update}
use capibarco.Auth.Domain.{RefreshToken}
use capibarco.Auth.Outside.{Env}
use capibarco.Auth.Store.{has_hash, in_family, revoked, inserted}
use capibarco.Auth.Stable.{Tables, Stable}
use capibarco.Auth.Rotation.{is_revoked}
use capibarco.Auth.Reuse.{revoked-is_revoked}

-- Every token of the family is revoked.
unfoldable pub is_dead : Text → List RefreshToken → Bool
is_dead f [] = true
is_dead f (t ∷ ts) = (not (in_family f t) || is_revoked t) && is_dead f ts

is_dead-append :
    (f : Text) (rs : List RefreshToken) (t : RefreshToken)
    → is_dead f rs ≡ true
    → in_family f t ≡ false
    → is_dead f (rs ++ (t ∷ [])) ≡ true
unfolding is_dead
is_dead-append f [] t d n = ground arith
is_dead-append f (x ∷ rs) t d n = ground (arith, is_dead-append f rs t)

is_dead-update :
    (f : Text) (p : RefreshToken → Bool) (reason : Text) (at : ℕ) (rs : List RefreshToken)
    → is_dead f rs ≡ true
    → is_dead f (update p (revoked reason at) rs) ≡ true
unfolding is_dead
is_dead-update f p reason at [] d = refl
is_dead-update f p reason at (x ∷ rs) d =
    ground (arith, is_dead-update f p reason at rs, revoked-is_revoked reason at x)

pub is_dead-revoked :
    (f : Text) (reason : Text) (at : ℕ) (rs : List RefreshToken)
    → is_dead f (update (in_family f) (revoked reason at) rs) ≡ true
unfolding is_dead
is_dead-revoked f reason at [] = refl
is_dead-revoked f reason at (x ∷ rs) =
    ground (arith, is_dead-revoked f reason at rs, revoked-is_revoked reason at x)

pub is_dead-find :
    (f : Text) (p : RefreshToken → Bool) (rs : List RefreshToken) {t : RefreshToken}
    → is_dead f rs ≡ true
    → find p rs ≡ some t
    → t.revoked_at ≡ none
    → in_family f t ≡ false
unfolding is_dead
is_dead-find f p [] d found live = cc
is_dead-find f p (x ∷ rs) {t} d found live = ground (arith, is_dead-find f p rs {t = t})

abbrev pub Dead : Text → Tables
Dead f rs ps = is_dead f rs ≡ true

-- A family that is not `f`.
abbrev Other : Text → Text → Type 0
Other f g = text_eq g f ≡ false

pub Dead-Stable :
    (env : Env) (f : Text) → ((n : ℕ) → env.fresh n ≢ some f) → Stable env (Dead f) (Other f)
Dead-Stable env f new = record {
  create = λ rs ps t q other. is_dead-append f rs (inserted t) q other;
  revoke = λ rs ps p reason at q. is_dead-update f p reason at rs q;
  rotation = λ rs ps h t q found live. is_dead-find f (has_hash h) rs q found live;
  first = λ n id e. elim (Bool-cases (text_eq id f)) [
    | inl same ↦ absurd (new n (e ∙ ap some (eq_of_text_eq id f same)))
    | inr other ↦ other
  ];
  create_reset = λ rs ps t q. q;
  consume = λ rs ps p at q. q;
}
