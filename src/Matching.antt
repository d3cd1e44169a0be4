-- ===== src/Matching.antt =====
-- The matching service (backend/matching-service/internal: domain/matching/model.go,
-- app/matching/service.go and infra/postgres/store.go).
pub mod Domain
pub mod Store
pub mod Service
pub mod Outbox
pub mod Replay
pub mod Archive
mod Tests
