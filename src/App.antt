-- ===== src/App.antt =====
-- src/app.
pub mod Streaming
