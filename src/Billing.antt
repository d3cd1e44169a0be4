-- ===== src/Billing.antt =====
-- The billing service (backend/billing-service).
pub mod Domain
pub mod Ports
pub mod Store
pub mod Resilience
pub mod Service
pub mod Lifecycle
pub mod Validation
pub mod Triple
pub mod Paid
pub mod Session
pub mod Replay
pub mod Ledger
pub mod Atomic
mod Tests
mod ServiceTests
