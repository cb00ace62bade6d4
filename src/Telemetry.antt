-- ===== src/Telemetry.antt =====
-- Telemetry: packages/telemetry/src/index.ts.
pub mod Names
pub mod Signals
pub mod Labels
pub mod Runtime
pub mod Metrics
pub mod Steps
pub mod Escaping
pub mod Attributes
pub mod Exportable
pub mod Kept
pub mod Series
pub mod Recent
pub mod Exports
pub mod Spans
pub mod Totals
