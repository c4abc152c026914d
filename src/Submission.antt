-- ===== src/Submission.antt =====
-- apps/submission-api.
pub mod Store
pub mod Dispatch
pub mod Upload
pub mod Config
pub mod Main
pub mod Examples
