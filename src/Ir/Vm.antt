-- ===== src/Ir/Vm.antt =====
-- crates/audesys-hal-ir/src/vm.rs: the machine's state and its accessors. `usize` values (`ip`, the
-- call stack) stay far below 2^64, since a step wants `ip` inside the program, and are not wrapped.
pub mod Timer
pub mod Counter
pub mod Latch
pub mod State
pub mod Blocks
