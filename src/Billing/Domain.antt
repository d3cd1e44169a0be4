-- ===== src/Billing/Domain.antt =====
-- backend/billing-service/internal/domain: money, donations, boosts, entitlements, the ledger and
-- the hash of idempotency keys. An error is its sentinel (what errors.Is sees): the text that
-- fmt.Errorf adds is left out. A time is the number of nanoseconds since Go's zero time.
use capibarco.Base.{
  ℕ, ◌+◌, Bool, true, false, ◌&&◌, ◌||◌, [], ◌∷◌, ◌++◌, leb, ◌==◌, if◌then◌else◌, not,
}
use capibarco.Base.Int.{ℤ, pos, negsuc, ltb_ℤ}
use capibarco.Base.Text.{Text, is_blank, trim_space}
use capibarco.Base.Result.{Result, ok, ◌>>◌, fail_if}

-- The sentinels of errors.go, `ErrCircuitOpen`, a cancelled context, a violated CHECK or foreign
-- key, and any other failure of a dependency.
pub data Error : Type 0 where
  validation invalid_money invalid_transition payment_not_succeeded not_found conflict : Error
  archived_animal circuit_open cancelled constraint : Error
  external : ℕ → Error

pub record Money : Type 0 where
  pub currency_code : Text
  pub units : ℤ
  pub nanos : ℤ

abbrev is_upper : ℕ → Bool
is_upper c = leb b'A' c && leb c b'Z'

-- `^[A-Z]{3}$`
abbrev pub currency_code_pattern : Text → Bool
currency_code_pattern (a ∷ b ∷ c ∷ []) = is_upper a && (is_upper b && is_upper c)
currency_code_pattern _ = false

abbrev is_zero : ℤ → Bool
is_zero (pos n) = n == 0
is_zero (negsuc n) = false

abbrev pub nanos_per_unit : ℕ
nanos_per_unit = 1_000_000_000

unfoldable pub new_money : Text → ℤ → ℤ → Result Error Money
new_money code units nanos = do
  fail_if (not (currency_code_pattern code)) invalid_money
  fail_if (ltb_ℤ units (pos 0) || (ltb_ℤ nanos (pos 0) || not (ltb_ℤ nanos (pos nanos_per_unit))))
      invalid_money
  fail_if (is_zero units && is_zero nanos) invalid_money
  ok (record { currency_code = code; units = units; nanos = nanos })

pub data PaymentStatus : Type 0 where
  pending succeeded failed cancelled refunded : PaymentStatus

pub data DonationTargetType : Type 0 where
  unspecified shelter animal : DonationTargetType

pub record Donation : Type 0 where
  pub id : Text
  pub payer_profile_id : Text
  pub target_type : DonationTargetType
  pub target_id : Text
  pub amount : Money
  pub status : PaymentStatus
  pub provider : Text
  pub provider_payment_id : Text
  pub failure_reason : Text
  pub created_at : ℕ
  pub updated_at : ℕ

pub record NewDonationParams : Type 0 where
  pub id : Text
  pub payer_profile_id : Text
  pub target_type : DonationTargetType
  pub target_id : Text
  pub amount : Money
  pub provider : Text
  pub created_at : ℕ

abbrev pub is_target : DonationTargetType → Bool
is_target unspecified = false
is_target _ = true

unfoldable pub new_donation : NewDonationParams → Result Error Donation
new_donation p = do
  fail_if (is_blank p.id) validation
  fail_if (is_blank p.payer_profile_id) validation
  fail_if (not (is_target p.target_type)) validation
  fail_if (is_blank p.target_id) validation
  fail_if (is_blank p.provider) validation
  fail_if (p.created_at == 0) validation
  ok (record {
    id = p.id;
    payer_profile_id = p.payer_profile_id;
    target_type = p.target_type;
    target_id = p.target_id;
    amount = p.amount;
    status = PaymentStatus.pending;
    provider = p.provider;
    provider_payment_id = [];
    failure_reason = [];
    created_at = p.created_at;
    updated_at = p.created_at;
  })

abbrev is_pending : PaymentStatus → Bool
is_pending PaymentStatus.pending = true
is_pending _ = false

abbrev pub is_succeeded : PaymentStatus → Bool
is_succeeded PaymentStatus.succeeded = true
is_succeeded _ = false

abbrev is_failed : PaymentStatus → Bool
is_failed PaymentStatus.failed = true
is_failed _ = false

-- A method on `*Donation` returns the donation that it leaves.
unfoldable pub mark_succeeded : Donation → Text → ℕ → Result Error Donation
mark_succeeded d provider_payment_id at = if is_succeeded d.status then ok d else do
  fail_if (not (is_pending d.status)) invalid_transition
  fail_if (is_blank provider_payment_id) validation
  ok (record d {
    status = PaymentStatus.succeeded;
    provider_payment_id = provider_payment_id;
    updated_at = at;
  })

unfoldable pub mark_failed : Donation → Text → ℕ → Result Error Donation
mark_failed d reason at = if is_failed d.status then ok d else do
  fail_if (not (is_pending d.status)) invalid_transition
  fail_if (is_blank reason) validation
  ok (record d { status = PaymentStatus.failed; failure_reason = reason; updated_at = at })

-- 90 days in nanoseconds
abbrev pub max_boost_duration : ℕ
max_boost_duration = 7_776_000_000_000_000

pub record Boost : Type 0 where
  pub id : Text
  pub animal_id : Text
  pub owner_profile_id : Text
  pub donation_id : Text
  pub starts_at : ℕ
  pub expires_at : ℕ
  pub active : Bool
  pub cancel_reason : Text
  pub cancelled_at : ℕ

pub record NewBoostParams : Type 0 where
  pub id : Text
  pub animal_id : Text
  pub owner_profile_id : Text
  pub donation_id : Text
  pub donation_status : PaymentStatus
  pub duration : ℤ
  pub starts_at : ℕ

-- `t.Add(d)` for a duration that the caller has checked to be positive
abbrev pub add_duration : ℕ → ℤ → ℕ
add_duration t (pos d) = t + d
add_duration t (negsuc d) = t

unfoldable pub new_boost : NewBoostParams → Result Error Boost
new_boost p = do
  fail_if (not (is_succeeded p.donation_status)) payment_not_succeeded
  fail_if
      (is_blank p.id
        || (is_blank p.animal_id || (is_blank p.owner_profile_id || is_blank p.donation_id)))
      validation
  fail_if (not (ltb_ℤ (pos 0) p.duration) || ltb_ℤ (pos max_boost_duration) p.duration) validation
  fail_if (p.starts_at == 0) validation
  ok (record {
    id = p.id;
    animal_id = p.animal_id;
    owner_profile_id = p.owner_profile_id;
    donation_id = p.donation_id;
    starts_at = p.starts_at;
    expires_at = add_duration p.starts_at p.duration;
    active = true;
    cancel_reason = [];
    cancelled_at = 0;
  })

-- `(*Boost).Cancel`
unfoldable pub cancel : Boost → Text → ℕ → Boost
cancel b reason at =
    if not b.active
    then b
    else record b { active = false; cancel_reason = reason; cancelled_at = at }

-- A type outside the three is `other`, with its text.
pub data EntitlementType : Type 0 where
  advanced_filters extended_animal_stats animal_boost : EntitlementType
  other : Text → EntitlementType

abbrev pub is_known : EntitlementType → Bool
is_known (other t) = false
is_known _ = true

pub record Entitlement : Type 0 where
  pub id : Text
  pub owner_profile_id : Text
  pub type : EntitlementType
  pub resource_id : Text
  pub starts_at : ℕ
  pub expires_at : ℕ
  pub active : Bool

pub record NewEntitlementParams : Type 0 where
  pub id : Text
  pub owner_profile_id : Text
  pub type : EntitlementType
  pub resource_id : Text
  pub duration : ℤ
  pub starts_at : ℕ

unfoldable pub new_entitlement : NewEntitlementParams → Result Error Entitlement
new_entitlement p = do
  fail_if (is_blank p.id || is_blank p.owner_profile_id) validation
  fail_if (not (is_known p.type)) validation
  fail_if (not (ltb_ℤ (pos 0) p.duration)) validation
  fail_if (p.starts_at == 0) validation
  ok (record {
    id = p.id;
    owner_profile_id = p.owner_profile_id;
    type = p.type;
    resource_id = p.resource_id;
    starts_at = p.starts_at;
    expires_at = add_duration p.starts_at p.duration;
    active = true;
  })

pub record LedgerEntry : Type 0 where
  pub id : Text
  pub profile_id : Text
  pub amount : Money
  pub reason : Text
  pub reference_id : Text
  pub created_at : ℕ

-- `digest` is SHA-256 followed by the hexadecimal encoding.
unfoldable pub hash_idempotency_key : (Text → Text) → Text → Text → Result Error Text
hash_idempotency_key digest scope key = do
  fail_if (is_blank scope || is_blank key) validation
  ok (digest (trim_space scope ++ 0 ∷ trim_space key))
