-- ===== src/Ir.antt =====
-- crates/audesys-hal-ir: the register machine that runs compiled IEC 61131-3 programs.
pub mod Instr
pub mod Build
pub mod Program
pub mod Vm
pub mod Exec
pub mod Machine
