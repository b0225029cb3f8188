-- ===== src/Shares.antt =====
-- src/shares/index.ts: share links.
pub mod Routes
pub mod View
pub mod Viewed
pub mod Burned
mod Tests
