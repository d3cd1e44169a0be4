-- ===== src/Auth.antt =====
-- backend/auth-service: domain, usecases and the statements of the PostgreSQL repository.
pub mod Domain
pub mod Outside
pub mod Store
pub mod Tokens
pub mod Access
pub mod Service
pub mod Reset
pub mod Stable
pub mod Usecases
pub mod Session
pub mod Issue
pub mod Rotation
pub mod Reuse
pub mod Family
pub mod Detection
pub mod OneTime
pub mod Identity
pub mod Login
pub mod Registration
pub mod Owner
mod Samples
mod Tests
mod AccountTests
