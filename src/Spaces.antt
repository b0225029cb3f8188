-- ===== src/Spaces.antt =====
-- src/spaces/index.ts: spaces, their members and their folders. The user is signed in; the random
-- suffixes of a slug come as a list of drawn ones.
pub mod Names
pub mod Routes
pub mod Members
pub mod Steps
mod Tests
