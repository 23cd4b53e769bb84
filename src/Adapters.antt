-- ===== src/Adapters.antt =====
-- The engines behind the execution boundary, of src/psrc/adapters.
pub mod Reference
