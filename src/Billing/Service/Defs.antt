-- ===== src/Billing/Service/Defs.antt =====
-- Donations and boosts: the methods of the billing service.
use capibarco.Base.{ℕ, false, ◌+◌, Option, none, some, [], if◌then◌else◌}
use capibarco.Base.Int.{ℤ}
use capibarco.Base.Text.{Text, lit, trim_space}
use capibarco.Base.Result.{Result, ok, err, fail_if}
use capibarco.Billing.Domain.{
  Error, not_found, archived_animal, Money, DonationTargetType, Donation, new_donation,
  mark_succeeded, mark_failed, Boost, new_boost, cancel, hash_idempotency_key,
}
use capibarco.Billing.Ports.{
  PaymentIntent, PaymentConfirmation, of_donation, of_boost, IdempotencyRecord, Env, Action, ◌>>=◌,
  ◌>>◌, lift, pure, ask, tick, publish,
}
use capibarco.Billing.Store.{
  get_idempotency, save_idempotency, create_donation, get_donation, save_donation, create_boost_row,
  get_boost, save_boost, is_animal_archived, add_ledger_entry, within_tx,
}
use capibarco.Billing.Resilience.{call_payment}

-- A call of the payment provider is one numbered step.
unfoldable pub provider : {A : Type 0} → (ℕ → Result Error A) → Action A
provider answer w = (answer w.tick, record (tick w) { provider_calls = w.provider_calls + 1 })

-- `if record, err := GetIdempotency(…); err == nil { hit } else if !errors.Is(err, ErrNotFound)
-- { return err }`, and what follows it.
abbrev pub answer :
    {A : Type 0}
    → Result Error IdempotencyRecord
    → (IdempotencyRecord → Action A)
    → Action A
    → Action A
answer (ok found) hit miss w = hit found w
answer (err not_found) hit miss w = miss w
answer (err e) hit miss w = (err e, w)

unfoldable pub replay_or :
    {A : Type 0} → Action IdempotencyRecord → (IdempotencyRecord → Action A) → Action A → Action A
replay_or look hit miss w = let (r, w') = look w in answer r hit miss w'

pub record CreateDonationIntentInput : Type 0 where
  pub payer_profile_id : Text
  pub target_type : DonationTargetType
  pub target_id : Text
  pub amount : Money
  pub provider : Text
  pub idempotency_key : Text

pub record ConfirmDonationInput : Type 0 where
  pub donation_id : Text
  pub provider_payment_id : Text
  pub idempotency_key : Text
  pub trace_id : Text
  pub correlation_id : Text

pub record CreateBoostInput : Type 0 where
  pub animal_id : Text
  pub owner_profile_id : Text
  pub donation_id : Text
  pub duration : ℤ
  pub idempotency_key : Text
  pub trace_id : Text
  pub correlation_id : Text

abbrev pub scope_create_donation_intent : Text
scope_create_donation_intent = lit "CreateDonationIntent"

abbrev pub scope_confirm_donation : Text
scope_confirm_donation = lit "ConfirmDonation"

abbrev pub scope_create_boost : Text
scope_create_boost = lit "CreateBoost"

module _ (env : Env) where
  -- The transaction that `CreateDonationIntent` ends with.
  unfoldable pub store_intent : ℕ → Text → Donation → Action (Unit {0})
  store_intent now key_hash donation = within_tx env false (λ ctx. do
    create_donation env donation
    save_idempotency env (record {
      scope = scope_create_donation_intent;
      key_hash = key_hash;
      resource_kind = lit "donation";
      resource_id = donation.id;
      related_resource_id = [];
      created_at = now;
    }))

  unfoldable pub create_donation_intent :
      CreateDonationIntentInput → Action (Donation × PaymentIntent)
  create_donation_intent input = do
    key_hash ←
        lift (hash_idempotency_key env.digest scope_create_donation_intent input.idempotency_key)
    replay_or (get_idempotency env scope_create_donation_intent key_hash)
        (λ found. do
          donation ← get_donation env found.resource_id
          intent ← provider (λ n. env.get_intent n donation.provider_payment_id)
          pure (donation, intent))
        (do
          now ← ask env.now
          id ← ask (env.new_id (lit "don"))
          donation ← lift (
              new_donation (record {
                id = id;
                payer_profile_id = trim_space input.payer_profile_id;
                target_type = input.target_type;
                target_id = trim_space input.target_id;
                amount = input.amount;
                provider = trim_space input.provider;
                created_at = now;
              }))
          intent ← call_payment env (
              provider (λ n. env.create_intent n (record {
                provider = donation.provider;
                donation_id = donation.id;
                payer_profile_id = donation.payer_profile_id;
                amount = donation.amount;
                description = lit "PetMatch donation";
              })))
          let stored = record donation { provider_payment_id = intent.provider_payment_id }
          store_intent now key_hash stored
          pure (stored, intent))

  -- The event is published inside the transaction.
  unfoldable pub persist_failed_donation : Donation → ConfirmDonationInput → Action (Unit {0})
  persist_failed_donation donation input = within_tx env false (λ ctx. do
    save_donation env donation
    publish env (record {
      topic = lit "billing.donation_failed";
      partition_key = donation.id;
      type = lit "DonationFailedEvent";
      trace_id = input.trace_id;
      correlation_id = input.correlation_id;
      idempotency_key = input.idempotency_key;
      payload = of_donation donation;
    }))

  -- The transaction of a confirmed donation.
  unfoldable pub store_confirmation : ℕ → Text → Donation → Action (Unit {0})
  store_confirmation now key_hash donation = within_tx env false (λ ctx. do
    save_donation env donation
    id ← ask (env.new_id (lit "ledger"))
    add_ledger_entry env (record {
      id = id;
      profile_id = donation.payer_profile_id;
      amount = donation.amount;
      reason = lit "donation_succeeded";
      reference_id = donation.id;
      created_at = now;
    })
    save_idempotency env (record {
      scope = scope_confirm_donation;
      key_hash = key_hash;
      resource_kind = lit "donation";
      resource_id = donation.id;
      related_resource_id = [];
      created_at = now;
    }))

  -- `ConfirmDonation` from a payment that went through.
  unfoldable pub confirm_success :
      ConfirmDonationInput → Text → Donation → PaymentConfirmation → ℕ → Action (Option Donation)
  confirm_success input key_hash donation confirmation now = do
    donation' ← lift (mark_succeeded donation confirmation.provider_payment_id now)
    store_confirmation now key_hash donation'
    publish env (record {
      topic = lit "billing.donation_succeeded";
      partition_key = donation'.id;
      type = lit "DonationSucceededEvent";
      trace_id = input.trace_id;
      correlation_id = input.correlation_id;
      idempotency_key = input.idempotency_key;
      payload = of_donation donation';
    })
    pure (some donation')

  -- `ConfirmDonation` from a declined payment. The Go method returns the zero result with the error
  -- of `persistFailedDonation`, which is nil if that succeeds: `none` stands for the zero result.
  unfoldable pub confirm_failure :
      ConfirmDonationInput → Donation → PaymentConfirmation → ℕ → Action (Option Donation)
  confirm_failure input donation confirmation now = do
    donation' ← lift (mark_failed donation confirmation.failure_reason now)
    persist_failed_donation donation' input
    pure none

  unfoldable pub finish_confirmation :
      ConfirmDonationInput → Text → Donation → PaymentConfirmation → Action (Option Donation)
  finish_confirmation input key_hash donation confirmation = ask env.now >>= λ now.
      if confirmation.succeeded
      then confirm_success input key_hash donation confirmation now
      else confirm_failure input donation confirmation now

  unfoldable pub confirm_donation : ConfirmDonationInput → Action (Option Donation)
  confirm_donation input = do
    key_hash ← lift (hash_idempotency_key env.digest scope_confirm_donation input.idempotency_key)
    replay_or (get_idempotency env scope_confirm_donation key_hash)
        (λ found. do donation ← get_donation env found.resource_id; pure (some donation))
        (do
          donation ← get_donation env input.donation_id
          confirmation ← call_payment env (provider (λ n. env.confirm n input.provider_payment_id))
          finish_confirmation input key_hash donation confirmation)

  -- The transaction of a new boost.
  unfoldable pub store_boost : ℕ → Text → Boost → Action (Unit {0})
  store_boost now key_hash boost = within_tx env false (λ ctx. do
    create_boost_row env boost
    save_idempotency env (record {
      scope = scope_create_boost;
      key_hash = key_hash;
      resource_kind = lit "boost";
      resource_id = boost.id;
      related_resource_id = [];
      created_at = now;
    }))

  unfoldable pub create_boost : CreateBoostInput → Action Boost
  create_boost input = do
    key_hash ← lift (hash_idempotency_key env.digest scope_create_boost input.idempotency_key)
    replay_or (get_idempotency env scope_create_boost key_hash)
        (λ found. get_boost env found.resource_id)
        (do
          archived ← is_animal_archived env input.animal_id
          lift (fail_if archived archived_animal)
          donation ← get_donation env input.donation_id
          now ← ask env.now
          id ← ask (env.new_id (lit "boost"))
          boost ← lift (
              new_boost (record {
                id = id;
                animal_id = input.animal_id;
                owner_profile_id = input.owner_profile_id;
                donation_id = input.donation_id;
                donation_status = donation.status;
                duration = input.duration;
                starts_at = now;
              }))
          store_boost now key_hash boost
          publish env (record {
            topic = lit "billing.boost_activated";
            partition_key = boost.animal_id;
            type = lit "BoostActivatedEvent";
            trace_id = input.trace_id;
            correlation_id = input.correlation_id;
            idempotency_key = input.idempotency_key;
            payload = of_boost boost;
          })
          pure boost)

  unfoldable pub cancel_boost : Text → Text → Action Boost
  cancel_boost boost_id reason = do
    boost ← get_boost env boost_id
    now ← ask env.now
    let cancelled = cancel boost reason now
    save_boost env cancelled
    pure cancelled
