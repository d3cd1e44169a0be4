-- ===== src/Animal.antt =====
-- The animal service (backend/animal-service/internal).
pub mod Domain
pub mod Profile
pub mod Labels
pub mod Lifecycle
pub mod Reachable
pub mod Photos
pub mod Outside
pub mod Service
pub mod Owner
pub mod Refinement
mod Samples
mod Tests
mod ServiceTests
