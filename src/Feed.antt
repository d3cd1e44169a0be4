-- ===== src/Feed.antt =====
-- The feed service (backend/feed-service/internal/feed/service.go): who is served, in which order,
-- page by page.
pub mod Types
pub mod Ranking
pub mod Serving
pub mod Paging
pub mod Visibility
mod Tests
