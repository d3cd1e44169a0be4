-- ===== src/Base/Action.antt =====
-- Methods of a Go service: each reads and changes the world outside the service and may return an
-- error. What a call did before an error stays done, so the world comes back beside the error too.
pub mod Keeps
pub mod Returns
pub mod Raises
pub mod Ports
use capibarco.Base.Names.{Bool, true, false, if◌then◌else◌, ◌≡◌, refl}
use capibarco.Base.Result.{Result, ok, err}

abbrev pub Action : Type 0 → Type 0 → Type 0 → Type 0
Action W E A = W → Result E A × W

module _ {W E A : Type 0} where
  pub pure : A → Action W E A
  pure a w = (ok a, w)

  -- `return err`
  pub fail : E → Action W E A
  fail e w = (err e, w)

  -- What a function that touches nothing returns.
  pub lift : Result E A → Action W E A
  lift r w = (r, w)

module _ {W E A B : Type 0} where
  abbrev pub continue : Result E A → (A → Action W E B) → Action W E B
  continue (ok a) f w = f a w
  continue (err e) f w = (err e, w)

  infixl 10 ◌>>=◌ ◌>>◌
  -- `a, err := m; if err != nil { return err }`. Opening this opens `pure`, `fail` and `lift` too.
  unfoldable pub ◌>>=◌ : Action W E A → (A → Action W E B) → Action W E B
  unfolding pure fail lift
  ◌>>=◌ m f w = let (r, w₁) = m w in continue r f w₁

  abbrev pub ◌>>◌ : Action W E A → Action W E B → Action W E B
  m >> n = m >>= λ _. n

  continue-ok :
      (r : Result E A) (f : A → Action W E B) (w : W) {b : B}
      → (continue r f w).0 ≡ ok b
      → (a : A) × (r ≡ ok a) × ((f a w).0 ≡ ok b) × ((continue r f w).1 ≡ (f a w).1)
  continue-ok (ok a) f w h = (a, refl, h, refl)
  continue-ok (err e) f w h = absurd cc

  -- An action that returned ran each of its two halves to its end.
  pub bind-ok :
      (m : Action W E A) (f : A → Action W E B) (w : W) {b : B}
      → ((m >>= f) w).0 ≡ ok b
      → (a : A) × ((m w).0 ≡ ok a) × ((f a (m w).1).0 ≡ ok b) × (((m >>= f) w).1 ≡ (f a (m w).1).1)
  unfolding ◌>>=◌
  bind-ok m f w h = let (r, w₁) = m w in continue-ok r f w₁ h

module _ {W E : Type 0} where
  -- `if c { return err }`
  unfoldable pub guard : Bool → E → Action W E (Unit {0})
  guard true e w = (err e, w)
  guard false e w = (ok tt, w)

  -- `_ = m`: the error of the call is dropped.
  unfoldable pub attempt_only : {A : Type 0} → Action W E A → Action W E (Unit {0})
  attempt_only m w = (ok tt, (m w).1)
