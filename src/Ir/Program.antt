-- ===== src/Ir/Program.antt =====
-- crates/audesys-hal-ir/src/program.rs and types.rs: the compiled program.
use audesys.Base.{ℕ, Bool, true, false, ◌||◌, List, [], ◌∷◌, ◌++◌, length, All}
use audesys.Hal.PinType.{HalPinType}
use audesys.Ir.Instr.{Opcode, Instruction, IsInstruction}

pub data Direction : Type 0 where
  read write read_write : Direction

pub record SignalBinding : Type 0 where
  pub hal_signal_name : List ℕ
  pub program_var : List ℕ
  pub direction : Direction
  pub hal_pin_type : HalPinType

pub record ChannelBinding : Type 0 where
  pub channel_name : List ℕ
  pub direction : Direction

pub record FunctionEntry : Type 0 where
  pub name : List ℕ
  pub entry_point : ℕ
  pub reg_count : ℕ

pub record HalProgram : Type 0 where
  pub name : List ℕ
  pub signals : List SignalBinding
  pub channels : List ChannelBinding
  pub instructions : List Instruction
  pub function_table : List FunctionEntry

-- Every immediate of the program is a value of its type.
abbrev pub IsProgram : HalProgram → Type 0
IsProgram p = All IsInstruction p.instructions

abbrev pub new_program : List ℕ → List Instruction → HalProgram
new_program name instructions = record {
  name = name;
  signals = [];
  channels = [];
  instructions = instructions;
  function_table = [];
}

pub instruction_count : HalProgram → ℕ
instruction_count p = length p.instructions

abbrev pub is_halt : Opcode → Bool
is_halt Opcode.halt = true
is_halt _ = false

abbrev pub any_halt : List Instruction → Bool
any_halt [] = false
any_halt (i ∷ is) = is_halt i.opcode || any_halt is

unfoldable pub is_well_formed : HalProgram → Bool
is_well_formed p = any_halt p.instructions

pub add_function : HalProgram → FunctionEntry → HalProgram
add_function p entry = record p { function_table = p.function_table ++ entry ∷ [] }
