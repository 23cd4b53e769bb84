-- ===== src/Domain.antt =====
-- The trading domain: market events, actions and the account, of src/psrc/domain.
-- Timestamps are microseconds since the epoch, all timezone-aware.
pub mod Market
pub mod Actions
pub mod Account
pub mod Equality
