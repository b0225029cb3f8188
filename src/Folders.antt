-- ===== src/Folders.antt =====
-- src/folders: the tree of folders, its handlers and the trash.
pub mod Tree
pub mod Routes
pub mod Moves
pub mod Purge
mod Tests
