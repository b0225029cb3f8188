-- ===== src/Files.antt =====
-- src/files: the handlers of files and of their versions, and byte ranges.
pub mod Range
pub mod Routes
pub mod Versions
pub mod Restored
mod Tests
