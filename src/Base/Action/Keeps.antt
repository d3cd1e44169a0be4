-- ===== src/Base/Action/Keeps.antt =====
-- Invariants of actions, with one rule for each way to build an action.
use capibarco.Base.Names.{◌≡◌, refl, Bool, true, false, if◌then◌else◌}
use capibarco.Base.Result.{Result, ok, err}
use capibarco.Base.Action.{Action, continue, pure, fail, lift, guard, attempt_only, ◌>>=◌}

-- `m` keeps `P`, whether it returns a value or an error.
pub record Keeps {W E A : Type 0} (P : W → Type 0) (m : Action W E A) : Type 0 where
  pub at : (w : W) → P w → P (m w).1

module _ {W E A : Type 0} {P : W → Type 0} where
  pub Keeps-pure : (a : A) → Keeps P (pure {E = E} a)
  unfolding pure
  Keeps-pure a = record { at = λ w h. h }

  pub Keeps-fail : (e : E) → Keeps P (fail {A = A} e)
  unfolding fail
  Keeps-fail e = record { at = λ w h. h }

  pub Keeps-lift : (r : Result E A) → Keeps P (lift r)
  unfolding lift
  Keeps-lift r = record { at = λ w h. h }

  pub Keeps-if :
      (b : Bool) (m n : Action W E A) → Keeps P m → Keeps P n → Keeps P (if b then m else n)
  Keeps-if true m n km kn = km
  Keeps-if false m n km kn = kn

  pub Keeps-attempt_only : (m : Action W E A) → Keeps P m → Keeps P (attempt_only m)
  unfolding attempt_only
  Keeps-attempt_only m km = record { at = λ w h. km.at w h }

module _ {W E A B : Type 0} {P : W → Type 0} where
  Keeps-continue :
      (r : Result E A) (f : A → Action W E B) (w : W)
      → P w
      → ((a : A) → r ≡ ok a → Keeps P (f a))
      → P (continue r f w).1
  Keeps-continue (ok a) f w h kf = (kf a refl).at w h
  Keeps-continue (err e) f w h kf = h

  -- The rest of the method may use what `m` returns from a world with the invariant.
  pub Keeps-bind-given :
      (m : Action W E A) (f : A → Action W E B)
      → Keeps P m
      → ((a : A) (w : W) → P w → (m w).0 ≡ ok a → Keeps P (f a))
      → Keeps P (m >>= f)
  unfolding ◌>>=◌
  Keeps-bind-given m f km kf = record {
    at = λ w h. let (r, w₁) = m w in Keeps-continue r f w₁ (km.at w h) (λ a e. kf a w h e);
  }

  pub Keeps-bind :
      (m : Action W E A) (f : A → Action W E B)
      → Keeps P m
      → ((a : A) → Keeps P (f a))
      → Keeps P (m >>= f)
  Keeps-bind m f km kf = Keeps-bind-given m f km (λ a w h e. kf a)

module _ {W E : Type 0} {P : W → Type 0} where
  pub Keeps-guard : (b : Bool) (e : E) → Keeps P (guard {W = W} {E = E} b e)
  unfolding guard
  Keeps-guard true e = record { at = λ w h. h }
  Keeps-guard false e = record { at = λ w h. h }

pub ruleset keeps_rules =
    (Keeps-pure, Keeps-fail, Keeps-lift, Keeps-if, Keeps-attempt_only, Keeps-bind, Keeps-guard)
