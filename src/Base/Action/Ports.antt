-- ===== src/Base/Action/Ports.antt =====
-- Calls of a port over a network: what becomes of a call, and its result as a value.
use capibarco.Base.Names.{◌≡◌}
use capibarco.Base.Result.{Result, ok, err}
use capibarco.Base.Action.{Action}
use capibarco.Base.Action.Keeps.{Keeps}

-- A call is answered, refused before it takes effect, or takes effect and its answer is lost.
pub data Fate : Type 0 where
  answered refused unheard : Fate

-- The outcome of a call that would end as `o` and begins in `w`; the caller of a call that fails on
-- its way sees `lost`.
abbrev pub met : {W E A : Type 0} → E → Fate → Result E A × W → W → Result E A × W
met lost answered (r, w₁) w = (r, w₁)
met lost refused (r, w₁) w = (err lost, w)
met lost unheard (r, w₁) w = (err lost, w₁)

-- The result of a call as a value, its error included.
unfoldable pub outcome_of : {W E A : Type 0} → Action W E A → Action W E (Result E A)
outcome_of m w = (ok (m w).0, (m w).1)

module _ {W E A : Type 0} (lost : E) where
  pub met-kept :
      (P : W → Type 0) (f : Fate) (o : Result E A × W) (w : W) → P o.1 → P w → P (met lost f o w).1
  met-kept P answered (r, w₁) w h k = h
  met-kept P refused (r, w₁) w h k = k
  met-kept P unheard (r, w₁) w h k = h

  pub met-answered :
      (Post : A → W → Type 0) (f : Fate) (o : Result E A × W) (w : W) (a : A)
      → (met lost f o w).0 ≡ ok a
      → ((b : A) → o.0 ≡ ok b → Post b o.1)
      → Post a (met lost f o w).1
  met-answered Post answered (r, w₁) w a e h = h a e
  met-answered Post refused (r, w₁) w a e h = absurd cc
  met-answered Post unheard (r, w₁) w a e h = absurd cc

pub Keeps-outcome_of :
    {W E A : Type 0} {P : W → Type 0} (m : Action W E A) → Keeps P m → Keeps P (outcome_of m)
unfolding outcome_of
Keeps-outcome_of m km = record { at = λ w h. km.at w h }
