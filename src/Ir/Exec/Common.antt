-- ===== src/Ir/Exec/Common.antt =====
-- crates/audesys-hal-ir/src/executor.rs: the result of an instruction and the reading of operands.
-- A method on `&mut self` takes the machine and returns it with its result.
pub mod Frame
use audesys.Base.{ℕ, Bool, false, Outcome, ok, ◌>>=◌}
use audesys.Base.Words.{pos}
use audesys.Hal.Value.{HalValue, bool, s32, u32}
use audesys.Ir.Instr.{Operand, register, immediate, signal_name}
use audesys.Ir.Vm.State.{Vm, read_register, write_register}

pub data ExecutorResult : Type 0 where
  continue halted breaked : ExecutorResult

abbrev pub Exec : Type 0
Exec = Outcome (Vm × ExecutorResult)

abbrev pub continue_with : Vm → Exec
continue_with vm = ok (vm, continue)

-- `match op { Operand::Register(r) => *r, _ => return other }`.
abbrev pub on_register : Operand → Exec → (ℕ → Exec) → Exec
on_register (register r) other k = k r
on_register (immediate v) other k = other
on_register (signal_name s) other k = other

-- `match op { Operand::Immediate(HalValue::U32(i)) => *i, _ => return other }`.
abbrev pub on_u32 : Operand → Exec → (ℕ → Exec) → Exec
on_u32 (immediate (u32 i)) other k = k i
on_u32 _ other k = other

unfoldable pub read_reg : Vm → Operand → Outcome HalValue
read_reg vm (register r) = read_register vm r
read_reg vm _ = ok (s32 (pos 0))

abbrev pub dest_reg : Operand → ℕ
dest_reg (register r) = r
dest_reg _ = 0

abbrev pub write_and_continue : Vm → ℕ → HalValue → Exec
write_and_continue vm r value = write_register vm r value >>= continue_with

unfoldable pub u32_or_zero : Operand → ℕ
u32_or_zero (immediate (u32 v)) = v
u32_or_zero _ = 0

-- `match value { HalValue::Bool(b) => b, _ => false }`.
abbrev pub as_bool : HalValue → Bool
as_bool (bool b) = b
as_bool _ = false

-- An input of a latch: a register that holds a Boolean, and otherwise `false`.
unfoldable pub bool_input : Vm → Operand → Outcome Bool
bool_input vm (register r) = read_register vm r >>= λ value. ok (as_bool value)
bool_input vm _ = ok false
