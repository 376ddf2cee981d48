-- ===== src/App.antt =====
-- src/app: the configuration, and the session that owns the navigation system, the dataset reader and the
-- servers.
pub mod Config
pub mod Session
pub mod Replay
