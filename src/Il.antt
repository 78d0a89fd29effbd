-- ===== src/Il.antt =====
-- crates/audesys-il-compiler: Instruction List, from the source to a program of the machine.
pub mod Lexer
pub mod Parser
pub mod Codegen
pub mod Compile
pub mod Running
pub mod Halting
pub mod Compare
pub mod Limits
pub mod Source
pub mod Scan
