-- ===== src/Ir/Exec/Flow.antt =====
-- crates/audesys-hal-ir/src/executor.rs: jumps, calls and returns.
use audesys.Base.{ℕ, ◌+◌, List, ◌∷◌, Option, none, some, if◌then◌else◌, Outcome, ok, ◌>>=◌}
use audesys.Base.Words.{w32, to_bits}
use audesys.Hal.Value.{s32, u32}
use audesys.Ir.Instr.{Operand, register, immediate}
use audesys.Ir.Vm.State.{
  Vm, read_register, write_register, set_ip, advance_ip, push_call_ip, pop_call_ip,
}
use audesys.Ir.Exec.Common.{halted, Exec, continue_with}

-- A jump whose operand is no `U32` leaves the instruction pointer alone.
unfoldable pub exec_jump : List Operand → Vm → Exec
exec_jump (immediate (u32 target) ∷ _) vm = continue_with (set_ip vm target)
exec_jump _ vm = continue_with vm

unfoldable pub jump_target : List Operand → Option ℕ
jump_target (immediate (u32 target) ∷ _) = some target
jump_target _ = none

unfoldable pub jump_if_to : Option ℕ → Vm → Exec
jump_if_to (some target) vm =
    continue_with (if vm.flags_zero then set_ip vm target else advance_ip vm)
jump_if_to none vm = continue_with (advance_ip vm)

unfoldable pub exec_jump_if : List Operand → Vm → Exec
exec_jump_if operands vm = jump_if_to (jump_target operands) vm

unfoldable pub read_u32_operand : List Operand → ℕ
read_u32_operand (immediate (u32 v) ∷ _) = v
read_u32_operand (immediate (s32 v) ∷ _) = to_bits w32 v
read_u32_operand _ = 0

unfoldable pub exec_call : List Operand → Vm → Exec
exec_call operands vm =
    continue_with (set_ip (push_call_ip vm (vm.ip + 1)) (read_u32_operand operands))

unfoldable pub copy_result : List Operand → Vm → Outcome Vm
copy_result (register r ∷ _) vm = do value ← read_register vm r; write_register vm 0 value
copy_result _ vm = ok vm

-- The two cases of the popped address: an empty call stack halts the machine.
unfoldable pub return_to : Option (ℕ × Vm) → List Operand → Vm → Exec
return_to none operands vm = ok (vm, halted)
return_to (some (return_ip, popped)) operands vm = do
  vm' ← copy_result operands popped
  continue_with (set_ip vm' return_ip)

unfoldable pub exec_ret : List Operand → Vm → Exec
exec_ret operands vm = return_to (pop_call_ip vm) operands vm
