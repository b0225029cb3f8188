-- ===== src/Uploads.antt =====
-- src/uploads: resumable chunked uploads. The objects are in Uploads/Store.antt, the step that
-- records a finished upload in Uploads/Finalize.antt, the session rows in Uploads/Rows.antt, and the
-- handlers in Uploads/Init.antt and Uploads/Sessions.antt.
pub mod Store
pub mod Finalize
pub mod Rows
pub mod Init
pub mod Sessions
pub mod Tests
