-- ===== src/Timeline.antt =====
-- packages/db/src/index.ts: `MemoryObservationStore`.
pub mod Records
pub mod Ingest
pub mod Reviews
pub mod Retention
pub mod Decisions
pub mod Recording
pub mod Mirrors
pub mod Keyed
pub mod Cleanup
pub mod Linked
pub mod Batches
pub mod Replaced
pub mod Deletions
pub mod History
pub mod Decided
pub mod Found
pub mod Final
pub mod Policies
pub mod Unread
pub mod Checkpoints
pub mod Queries
pub mod Cursors
pub mod Pages
pub mod Ascending
pub mod Positions
pub mod Paged
pub mod Opened
pub mod Splits
pub mod Behind
pub mod Counted
pub mod Requests
pub mod Requested
