-- ===== src/Base/Action/Raises.antt =====
-- What holds when an action returns a given error.
use capibarco.Base.Names.{◌≡◌, ◌≢◌, refl, Bool, true, false}
use capibarco.Base.Result.{Result, ok, err}
use capibarco.Base.Action.{Action, continue, pure, fail, guard, ◌>>=◌}
use capibarco.Base.Action.Returns.{Returns}

-- From `w`, where `m` returns the error `e`, the world it leaves has `Post`.
pub record Raises {W E A : Type 0} (m : Action W E A) (w : W) (e : E) (Post : W → Type 0)
    : Type 0 where
  pub at : (m w).0 ≡ err e → Post (m w).1

module _ {W E A : Type 0} {e : E} {Post : W → Type 0} where
  pub Raises-never : (m : Action W E A) (w : W) → (m w).0 ≢ err e → Raises m w e Post
  Raises-never m w never = record { at = λ h. absurd (never h) }

  pub Raises-pure : (a : A) (w : W) → Raises (pure a) w e Post
  unfolding pure
  Raises-pure a w = record { at = λ h. absurd cc }

  pub Raises-fail : (w : W) → Post w → Raises (fail {A = A} e) w e Post
  unfolding fail
  Raises-fail w h = record { at = λ q. h }

module _ {W E : Type 0} {e : E} {Post : W → Type 0} where
  pub Raises-guard : (b : Bool) (x : E) (w : W) → x ≢ e → Raises (guard b x) w e Post
  unfolding guard
  Raises-guard true x w other = record { at = λ h. absurd (other cc) }
  Raises-guard false x w other = record { at = λ h. absurd cc }

module _ {W E A B : Type 0} {e : E} {Post : W → Type 0} where
  Raises-continue :
      (r : Result E A) (f : A → Action W E B) (w : W)
      → (r ≡ err e → Post w)
      → ((a : A) → r ≡ ok a → Raises (f a) w e Post)
      → (continue r f w).0 ≡ err e
      → Post (continue r f w).1
  Raises-continue (ok a) f w km kf h = (kf a refl).at h
  Raises-continue (err x) f w km kf h = km cc

  pub Raises-bind :
      (m : Action W E A) (f : A → Action W E B) (w : W)
      → Raises m w e Post
      → Returns m w (λ a w₁. Raises (f a) w₁ e Post)
      → Raises (m >>= f) w e Post
  unfolding ◌>>=◌
  Raises-bind m f w km kf = record { at = λ h. Raises-continue (m w).0 f (m w).1 km.at kf.at h }
