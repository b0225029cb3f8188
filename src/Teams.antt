-- ===== src/Teams.antt =====
-- src/teams: slugs and hosts, the cached look-up of teams, and the resolution of a request's team.
pub mod Slug
pub mod Resolve
pub mod Urls
pub mod Request
mod Tests
