-- ===== src/Base/Action/Returns.antt =====
-- What holds when an action returns without an error, with one rule for each way to build an action.
use mathlib.Core.Path.{subst}
use capibarco.Base.Names.{◌≡◌, refl, Bool, true, false, if◌then◌else◌}
use capibarco.Base.Result.{Result, ok, err, ok-inj}
use capibarco.Base.Action.{Action, continue, pure, fail, lift, guard, attempt_only, ◌>>=◌}
use capibarco.Base.Action.Keeps.{Keeps}

-- From `w`, a value that `m` returns has `Post`, with the world it leaves.
pub record Returns {W E A : Type 0} (m : Action W E A) (w : W) (Post : A → W → Type 0)
    : Type 0 where
  pub at : (a : A) → (m w).0 ≡ ok a → Post a (m w).1

module _ {W E A : Type 0} {Post : A → W → Type 0} where
  pub Returns-pure : (a : A) (w : W) → Post a w → Returns (pure {E = E} a) w Post
  unfolding pure
  Returns-pure a w h = record { at = λ b e. subst (λ x. Post x w) (ok-inj e) h }

  pub Returns-fail : (e : E) (w : W) → Returns (fail e) w Post
  unfolding fail
  Returns-fail e w = record { at = λ b q. absurd cc }

  pub Returns-lift :
      (r : Result E A) (w : W) → ((a : A) → r ≡ ok a → Post a w) → Returns (lift r) w Post
  unfolding lift
  Returns-lift r w h = record { at = h }

  pub Returns-if :
      (b : Bool) (m n : Action W E A) (w : W)
      → (b ≡ true → Returns m w Post)
      → (b ≡ false → Returns n w Post)
      → Returns (if b then m else n) w Post
  Returns-if true m n w km kn = km refl
  Returns-if false m n w km kn = kn refl

  pub Returns-weaken :
      {m : Action W E A} {w : W} {Pre : A → W → Type 0}
      → Returns m w Pre
      → ((a : A) (w₁ : W) → Pre a w₁ → Post a w₁)
      → Returns m w Post
  Returns-weaken km weaker = record { at = λ a e. weaker a _ (km.at a e) }

pub Keeps-Returns :
    {W E A : Type 0} {P : W → Type 0} {m : Action W E A} {w : W}
    → Keeps P m
    → P w
    → Returns m w (λ a w₁. P w₁)
Keeps-Returns km h = record { at = λ a e. km.at _ h }

module _ {W E A B : Type 0} {Post : B → W → Type 0} where
  Returns-continue :
      (r : Result E A) (f : A → Action W E B) (w : W)
      → ((a : A) → r ≡ ok a → Returns (f a) w Post)
      → (b : B) → (continue r f w).0 ≡ ok b
      → Post b (continue r f w).1
  Returns-continue (ok a) f w kf b e = (kf a refl).at b e
  Returns-continue (err x) f w kf b e = absurd cc

  pub Returns-bind :
      (m : Action W E A) (f : A → Action W E B) (w : W)
      → Returns m w (λ a w₁. Returns (f a) w₁ Post)
      → Returns (m >>= f) w Post
  unfolding ◌>>=◌
  Returns-bind m f w km = record { at = λ b e. Returns-continue (m w).0 f (m w).1 km.at b e }

module _ {W E : Type 0} {Post : Unit {0} → W → Type 0} where
  pub Returns-guard :
      (b : Bool) (e : E) (w : W) → (b ≡ false → Post tt w) → Returns (guard b e) w Post
  unfolding guard
  Returns-guard true e w h = record { at = λ u q. absurd cc }
  Returns-guard false e w h = record { at = λ u q. h refl }

  pub Returns-attempt_only :
      {A : Type 0} (m : Action W E A) (w : W) → Post tt (m w).1 → Returns (attempt_only m) w Post
  unfolding attempt_only
  Returns-attempt_only m w h = record { at = λ u q. h }
