-- ===== src/Ir/Instr.antt =====
-- crates/audesys-hal-ir/src/instruction.rs and types.rs: opcodes, operands and
-- instructions.
use audesys.Base.{ℕ, List, All, ◌<◌}
use audesys.Hal.Value.{HalValue, IsValue}

-- A register's index is a `u8`; a signal's name is the list of its bytes.
pub data Operand : Type 0 where
  register : ℕ → Operand
  immediate : HalValue → Operand
  signal_name : List ℕ → Operand

-- `modulo` is the source's `Mod`.
pub data Opcode : Type 0 where
  nop load store : Opcode
  add sub mul div modulo neg : Opcode
  eq neq gt lt gte lte : Opcode
  and or xor not : Opcode
  jump jump_if call ret : Opcode
  load_index store_index : Opcode
  timer_run read_timer : Opcode
  counter_run read_counter : Opcode
  sr_run read_sr : Opcode
  edge_run read_edge : Opcode
  halt : Opcode

pub record Instruction : Type 0 where
  pub opcode : Opcode
  pub operands : List Operand

-- The ranges that the source's types give: an immediate is a value.
abbrev pub IsOperand : Operand → Type 0
IsOperand (register r) = r < 256
IsOperand (immediate v) = IsValue v
IsOperand (signal_name s) = Unit

abbrev pub IsInstruction : Instruction → Type 0
IsInstruction i = All IsOperand i.operands

abbrev pub instruction : Opcode → List Operand → Instruction
instruction opcode operands = record { opcode = opcode; operands = operands }
