-- ===== src/Chat.antt =====
-- The chat service (backend/chat-service/internal/domain/chat/model.go).
pub mod Domain
pub mod Participants
mod Tests
