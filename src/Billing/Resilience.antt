-- ===== src/Billing/Resilience.antt =====
-- backend/billing-service/internal/application/breaker.go and retry.go, and the way that
-- `callPayment` of service.go joins them. A call is one step of the model: what other goroutines do
-- to the breaker while the lock is free is not modelled.
pub mod Defs
pub mod Breaker
pub mod Attempts
unfoldable pub use Defs.{
  new_circuit_breaker, on_failure, on_success, is_open, settle, execute, retry_loop, retry, guarded,
  call_payment,
}
