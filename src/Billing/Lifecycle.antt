-- ===== src/Billing/Lifecycle.antt =====
-- The life of a donation: what `MarkSucceeded` and `MarkFailed` of donation.go can do to it.
use capibarco.Base.{ℕ, ◌≡◌, refl, ◌≢◌, List, [], ◌∷◌, arith}
use capibarco.Base.Text.{Text}
use capibarco.Base.Result.{Result, ok, err}
use capibarco.Billing.Domain.{
  Error, PaymentStatus, pending, succeeded, failed, Donation, mark_succeeded, mark_failed,
}

-- One of the two calls, with its arguments.
pub data Mark : Type 0 where
  success : Text → ℕ → Mark
  failure : Text → ℕ → Mark

unfoldable pub mark : Mark → Donation → Result Error Donation
mark (success payment_id at) d = mark_succeeded d payment_id at
mark (failure reason at) d = mark_failed d reason at

-- A caller that goes on with the donation as the call left it: a failed call leaves it alone.
pub after : Mark → Donation → Donation
unfolding mark
after m d = elim (mark m d) [ ok d' ↦ d' | err _ ↦ d ]

pub run_marks : Donation → List Mark → Donation
run_marks d [] = d
run_marks d (m ∷ ms) = run_marks (after m d) ms

-- The edges of the status diagram.
infix 40 ◌⟶◌
pub data ◌⟶◌ : PaymentStatus → PaymentStatus → Type 0 where
  stay : {s : PaymentStatus} → s ⟶ s
  pay : pending ⟶ succeeded
  decline : pending ⟶ failed

-- A call that succeeds follows an edge of the diagram, and leaves the identity, the payer, the type
-- and the identifier of the target, the amount, the provider and the time of creation of the
-- donation alone.
pub mark-⟶ :
    (m : Mark) (d : Donation) {d' : Donation}
    → mark m d ≡ ok d'
    → (d.status ⟶ d'.status)
      × (d'.id ≡ d.id)
      × (d'.payer_profile_id ≡ d.payer_profile_id)
      × (d'.target_type ≡ d.target_type)
      × (d'.target_id ≡ d.target_id)
      × (d'.amount ≡ d.amount)
      × (d'.provider ≡ d.provider)
      × (d'.created_at ≡ d.created_at)
unfolding mark mark_succeeded mark_failed
mark-⟶ (success p at) d h = grind (arith, stay, pay, decline)
mark-⟶ (failure r at) d h = grind (arith, stay, pay, decline)

after-settled : (m : Mark) (d : Donation) → d.status ≢ pending → after m d ≡ d
unfolding after mark_succeeded mark_failed
after-settled (success p at) d n = ground arith
after-settled (failure r at) d n = ground arith

-- Once a donation is no longer pending, no sequence of marks changes any field of it: a succeeded
-- donation never fails, and a failed one never succeeds.
pub run_marks-settled : (d : Donation) (ms : List Mark) → d.status ≢ pending → run_marks d ms ≡ d
unfolding run_marks
run_marks-settled d [] n = refl
run_marks-settled d (m ∷ ms) n = rw (after-settled m d n) (run_marks-settled d ms n)
