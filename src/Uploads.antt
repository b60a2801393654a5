-- ===== src/Uploads.antt =====
-- src/bqemulator/jobs/upload_session_manager.py: resumable uploads.
pub mod ContentRange
pub mod Sessions
pub mod Sound
pub mod Calls
pub mod Chunks
