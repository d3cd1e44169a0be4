-- ===== src/Billing/Service.antt =====
-- backend/billing-service/internal/application/service.go, one function per method.
pub mod Defs
mod Purchase
pub use Defs.{CreateDonationIntentInput, ConfirmDonationInput, CreateBoostInput}
pub use Purchase.{PurchaseEntitlementInput}
unfoldable pub use Defs.{
  store_intent, create_donation_intent, persist_failed_donation, store_confirmation,
  confirm_success, confirm_failure, finish_confirmation, confirm_donation, store_boost,
  create_boost, cancel_boost,
}
unfoldable pub use Purchase.{
  create_and_confirm_internal_payment, store_purchase, purchase_entitlement,
}
