-- ===== src/Tests.antt =====
-- Runs of the model on concrete declarations, events and strategies: the theorems at their inputs.
pub mod Data
pub mod Contracts
pub mod Engine
pub mod Runs
pub mod Store
pub mod Strategies
pub mod Authoring
pub mod Bundles
pub mod Sandbox
pub mod Packages
pub mod Contained
