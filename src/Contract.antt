-- ===== src/Contract.antt =====
-- The contract: declarations, errors, the compiler of an execution plan, of src/psrc/contract.
pub mod Errors
pub mod Models
pub mod Compiler
pub mod Compatibility
