-- ===== src/Notify.antt =====
-- backend/notification-service: domain, service and the statements of the PostgreSQL repository.
pub mod Domain
pub mod Channels
pub mod Wording
pub mod Outside
pub mod Hub
pub mod Store
pub mod Service
pub mod Handlers
pub mod Once
pub mod Session
pub mod Replay
mod Tests
