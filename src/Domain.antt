-- ===== src/Domain.antt =====
-- packages/domain/src/index.ts: experiments, correlation suggestions, and the retention policy.
pub mod Names
pub mod Correlation
pub mod Lifecycle
pub mod Experiment
pub mod Retention
