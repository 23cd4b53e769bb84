-- ===== src/Sandbox.antt =====
-- src/psrc/sandbox: the scanner of strategy sources, and the container that untrusted ones run in.
pub mod Static
pub mod Container
