-- ===== src/Amw.antt =====
-- The in-process middleware, crates/audesys-amw-inproc.
pub mod Qos
pub mod Stream
pub mod Transport
pub mod Discovery
