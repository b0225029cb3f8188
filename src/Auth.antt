-- ===== src/Auth.antt =====
-- src/security/sessions.ts and src/auth/guard.ts: the sessions of signed-in users, and the guard in
-- front of every authenticated route.
pub mod Sessions
pub mod Touch
pub mod Credentials
pub mod Guard
pub mod SignedOut
pub mod Tests
