-- ===== src/Billing/Tests.antt =====
-- The theorems on billing, at concrete requests.
use capibarco.Base.{ℕ, ◌≡◌, refl, true, []}
use capibarco.Base.Int.{pos}
use capibarco.Base.Text.{Text, lit, trim_space, is_blank}
use capibarco.Billing.Domain.{
  Money, Donation, PaymentStatus, DonationTargetType, NewBoostParams, Boost, mark_succeeded,
}
use capibarco.Billing.Lifecycle.{success, mark, mark-⟶, ◌⟶◌}

abbrev five : Money
five = record { currency_code = lit "EUR"; units = pos 5; nanos = pos 0 }

abbrev donation : PaymentStatus → Text → ℕ → Donation
donation status payment_id at = record {
  id = lit "d1";
  payer_profile_id = lit "ann";
  target_type = DonationTargetType.animal;
  target_id = lit "rex";
  amount = five;
  status = status;
  provider = lit "mock";
  provider_payment_id = payment_id;
  failure_reason = [];
  created_at = 3;
  updated_at = at;
}

abbrev boost_params : NewBoostParams
boost_params = record {
  id = lit "b1";
  animal_id = lit "rex";
  owner_profile_id = lit "ann";
  donation_id = lit "d1";
  donation_status = PaymentStatus.succeeded;
  duration = pos 100;
  starts_at = 7;
}

abbrev boost : Boost
boost = record {
  id = lit "b1";
  animal_id = lit "rex";
  owner_profile_id = lit "ann";
  donation_id = lit "d1";
  starts_at = 7;
  expires_at = 107;
  active = true;
  cancel_reason = [];
  cancelled_at = 0;
}

mark-⟶_example :
    (PaymentStatus.pending ⟶ PaymentStatus.succeeded)
    × (lit "d1" ≡ lit "d1")
    × (lit "ann" ≡ lit "ann")
    × (DonationTargetType.animal ≡ DonationTargetType.animal)
    × (lit "rex" ≡ lit "rex")
    × (five ≡ five)
    × (lit "mock" ≡ lit "mock")
    × (◌≡◌ {A = ℕ} 3 3)
unfolding mark mark_succeeded is_blank trim_space
mark-⟶_example =
    mark-⟶ (success (lit "p1") 9) (donation PaymentStatus.pending [] 3)
      {d' = donation PaymentStatus.succeeded (lit "p1") 9} refl
