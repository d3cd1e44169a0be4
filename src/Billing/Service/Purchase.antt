-- ===== src/Billing/Service/Purchase.antt =====
-- `PurchaseEntitlement` of service.go: an internal payment, then a donation, an entitlement and a
-- ledger entry in one transaction.
use capibarco.Base.{false, ℕ, not}
use capibarco.Base.Int.{ℤ}
use capibarco.Base.Text.{Text, lit, text_eq}
use capibarco.Base.Result.{fail_if}
use capibarco.Base.Table.{find}
use capibarco.Billing.Domain.{
  validation, Money, DonationTargetType, Donation, new_donation, mark_succeeded, EntitlementType,
  Entitlement, new_entitlement, hash_idempotency_key,
}
use capibarco.Billing.Ports.{
  PaymentIntent, of_entitlement, Env, Action, ◌>>=◌, ◌>>◌, lift, pure, ask, publish,
}
use capibarco.Billing.Store.{
  or_not_found, get_idempotency, save_idempotency, create_donation, get_donation,
  create_entitlement, get_entitlements, add_ledger_entry, within_tx,
}
use capibarco.Billing.Resilience.{call_payment}
use capibarco.Billing.Service.Defs.{provider, replay_or}

pub record PurchaseEntitlementInput : Type 0 where
  pub owner_profile_id : Text
  pub type : EntitlementType
  pub resource_id : Text
  pub amount : Money
  pub duration : ℤ
  pub idempotency_key : Text
  pub trace_id : Text
  pub correlation_id : Text

abbrev pub scope_purchase_entitlement : Text
scope_purchase_entitlement = lit "PurchaseEntitlement"

module _ (env : Env) where
  unfoldable pub create_and_confirm_internal_payment : Donation → Action PaymentIntent
  create_and_confirm_internal_payment donation = do
    intent ← call_payment env (
        provider (λ n. env.create_intent n (record {
          provider = donation.provider;
          donation_id = donation.id;
          payer_profile_id = donation.payer_profile_id;
          amount = donation.amount;
          description = lit "PetMatch entitlement purchase";
        })))
    confirmation ← call_payment env (provider (λ n. env.confirm n intent.provider_payment_id))
    lift (fail_if (not confirmation.succeeded) validation)
    pure intent

  unfoldable pub store_purchase :
      PurchaseEntitlementInput → ℕ → Text → Donation → Entitlement → Action (Unit {0})
  store_purchase input now key_hash donation entitlement = within_tx env false (λ ctx. do
    create_donation env donation
    create_entitlement env entitlement
    id ← ask (env.new_id (lit "ledger"))
    add_ledger_entry env (record {
      id = id;
      profile_id = input.owner_profile_id;
      amount = input.amount;
      reason = lit "entitlement_purchased";
      reference_id = entitlement.id;
      created_at = now;
    })
    save_idempotency env (record {
      scope = scope_purchase_entitlement;
      key_hash = key_hash;
      resource_kind = lit "entitlement";
      resource_id = entitlement.id;
      related_resource_id = donation.id;
      created_at = now;
    }))

  unfoldable pub purchase_entitlement : PurchaseEntitlementInput → Action (Entitlement × Donation)
  purchase_entitlement input = do
    key_hash ←
        lift (hash_idempotency_key env.digest scope_purchase_entitlement input.idempotency_key)
    replay_or (get_idempotency env scope_purchase_entitlement key_hash)
        (λ found. do
          entitlements ← get_entitlements env input.owner_profile_id
          entitlement ←
              lift (or_not_found (find (λ e. text_eq e.id found.resource_id) entitlements))
          donation ← get_donation env found.related_resource_id
          pure (entitlement, donation))
        (do
          now ← ask env.now
          id ← ask (env.new_id (lit "don"))
          pending ← lift (
              new_donation (record {
                id = id;
                payer_profile_id = input.owner_profile_id;
                target_type = DonationTargetType.shelter;
                target_id = input.owner_profile_id;
                amount = input.amount;
                provider = lit "mock";
                created_at = now;
              }))
          intent ← create_and_confirm_internal_payment pending
          donation ← lift (mark_succeeded pending intent.provider_payment_id now)
          entitlement_id ← ask (env.new_id (lit "entitlement"))
          entitlement ← lift (
              new_entitlement (record {
                id = entitlement_id;
                owner_profile_id = input.owner_profile_id;
                type = input.type;
                resource_id = input.resource_id;
                duration = input.duration;
                starts_at = now;
              }))
          store_purchase input now key_hash donation entitlement
          publish env (record {
            topic = lit "billing.entitlement_granted";
            partition_key = entitlement.owner_profile_id;
            type = lit "EntitlementGrantedEvent";
            trace_id = input.trace_id;
            correlation_id = input.correlation_id;
            idempotency_key = input.idempotency_key;
            payload = of_entitlement entitlement;
          })
          pure (entitlement, donation))
