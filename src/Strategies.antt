-- ===== src/Strategies.antt =====
-- src/psrc/strategies and src/psrc/examples: the strategies that the repository brings.
pub mod Window
pub mod Common
pub mod Discipline
pub mod SmaCross
pub mod Donchian
pub mod Twap
pub mod Answers
pub mod Feeding
pub mod Microprice
pub mod Maker
