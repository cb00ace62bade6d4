-- ===== src/Scenarios.antt =====
-- Concrete stores and requests, on which the theorems are applied.
pub mod Fixtures
mod Workspace
mod Events
mod Experiments
mod Releases
mod Choices
mod Scopes
mod Signals
mod Windows
mod Resources
mod Pages
mod Requests
