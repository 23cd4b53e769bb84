-- ===== src/Contract/Compiler.antt =====
-- src/psrc/contract/compiler.py: `compile_run`, which turns the four declarations of a run into an
-- execution plan or raises. The digests of `sha256_model` and the clock are arguments.
mod Timeframes
pub mod Symbols
pub mod Requirement
pub mod Plan
pub mod Specification
pub mod Fitting
pub mod Compatible
pub mod Permitted
pub mod Mapping
pub mod Refusals
unfoldable pub use Timeframes.{
  major, before_dot, duration_seconds, period_seconds, split_last, can_resample, divides_into,
}
