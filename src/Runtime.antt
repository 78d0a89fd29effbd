-- ===== src/Runtime.antt =====
-- crates/audesys-runtime: the service that runs programs.
pub mod Lifecycle
