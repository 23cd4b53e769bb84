-- ===== src/Runtime.antt =====
-- The runtime: the lifecycle of a run, the strategy protocol, reports, of src/psrc/runtime.
pub mod Lifecycle
pub mod Strategy
pub mod Report
pub mod Artifacts
pub mod Training
pub mod Package
pub mod Orchestrator
