-- ===== src/Adapters/Reference.antt =====
-- src/psrc/adapters/reference.py: the deterministic event engine.
pub mod Prices
pub mod Settlement
pub mod Commands
pub mod Events
pub mod Run
pub mod Capabilities
pub mod Loops
pub mod Steps
pub mod Replay
pub mod Tally
pub mod Balance
pub mod Records
pub mod Limits
pub mod Ordering
pub mod Targets
pub mod Exposure
