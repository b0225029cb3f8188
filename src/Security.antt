-- ===== src/Security.antt =====
-- src/security besides the sessions: proxies, rate limits and the headers of downloads.
pub mod Proxies
pub mod Rates
pub mod Inline
mod Tests
