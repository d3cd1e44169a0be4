-- ===== src/Billing/Validation.antt =====
-- What the constructors of backend/billing-service/internal/domain accept.
use capibarco.Base.{ℕ, ◌+◌, ◌≤◌, ◌<◌, ◌≡◌, true, false, ◌&&◌, arith}
use capibarco.Base.Int.{ℤ, pos, negsuc}
use capibarco.Base.Text.{Text, is_blank}
use capibarco.Base.Result.{ok, is_ok}
use capibarco.Billing.Domain.{
  currency_code_pattern, new_money, succeeded, NewBoostParams, new_boost, Boost, max_boost_duration,
  NewEntitlementParams, Entitlement, new_entitlement, is_known, NewDonationParams, new_donation,
  Donation, pending, is_target,
}
use capibarco.Billing.Store.{amount_checks}

-- `NewMoney` accepts exactly the amounts that pass the CHECK constraints of the donations and
-- ledger_entries tables, with a currency code of three capital letters.
pub new_money-checks :
    (code : Text) (units nanos : ℤ)
    → is_ok (new_money code units nanos)
      ≡ currency_code_pattern code
        && amount_checks (record { currency_code = code; units = units; nanos = nanos })
unfolding new_money
new_money-checks code (pos u) (pos n) = ground arith
new_money-checks code (pos u) (negsuc n) = ground arith
new_money-checks code (negsuc u) (pos n) = ground arith
new_money-checks code (negsuc u) (negsuc n) = ground arith

-- A boost that `NewBoost` accepts was paid by a succeeded donation, keeps the four identifiers,
-- none of them blank, is active, ends after it starts, and lasts 90 days at most.
pub new_boost_sound :
    (p : NewBoostParams) {b : Boost}
    → new_boost p ≡ ok b
    → (p.donation_status ≡ succeeded)
      × (b.donation_id ≡ p.donation_id)
      × (is_blank b.id ≡ false)
      × (is_blank b.animal_id ≡ false)
      × (is_blank b.owner_profile_id ≡ false)
      × (is_blank b.donation_id ≡ false)
      × (b.active ≡ true)
      × (b.starts_at < b.expires_at)
      × (b.expires_at ≤ b.starts_at + max_boost_duration)
unfolding new_boost
new_boost_sound p h = ground arith

-- Every duration from one nanosecond to 90 days is accepted, where the donation has succeeded, no
-- identifier is blank and the start is not the zero time.
pub new_boost_complete :
    (p : NewBoostParams) (d : ℕ)
    → p.donation_status ≡ succeeded
    → is_blank p.id ≡ false
    → is_blank p.animal_id ≡ false
    → is_blank p.owner_profile_id ≡ false
    → is_blank p.donation_id ≡ false
    → p.duration ≡ pos d
    → 0 < d
    → d ≤ max_boost_duration
    → 0 < p.starts_at
    → is_ok (new_boost p) ≡ true
unfolding new_boost
new_boost_complete p d s i a o n e lo hi st = ground arith

-- An accepted entitlement has a known type and ends after it starts, as its table demands.
pub new_entitlement_sound :
    (p : NewEntitlementParams) {e : Entitlement}
    → new_entitlement p ≡ ok e
    → (is_known e.type ≡ true)
      × (e.starts_at < e.expires_at)
      × (e.active ≡ true)
      × (is_blank e.id ≡ false)
      × (is_blank e.owner_profile_id ≡ false)
unfolding new_entitlement
new_entitlement_sound p h = ground arith

-- A new donation is pending, keeps its amount unchecked, and has a real target type.
pub new_donation_sound :
    (p : NewDonationParams) {d : Donation}
    → new_donation p ≡ ok d
    → (d.status ≡ pending)
      × (d.amount ≡ p.amount)
      × (is_target d.target_type ≡ true)
      × (d.id ≡ p.id)
      × (is_blank d.id ≡ false)
unfolding new_donation
new_donation_sound p h = ground arith
