-- ===== src/Logs.antt =====
-- Recent logs: packages/logs/src/index.ts.
pub mod Utf8
pub mod Lines
pub mod Stream
pub mod Chunks
pub mod Decoded
pub mod Boundaries
pub mod Cut
pub mod Bounds
pub mod Feeds
pub mod Windows
pub mod Window
pub mod Request
pub mod Guarded
pub mod Parsed
pub mod Spaces
