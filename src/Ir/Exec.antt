-- ===== src/Ir/Exec.antt =====
-- crates/audesys-hal-ir/src/executor.rs: the dispatch of instructions.
pub mod Common
pub mod Data
pub mod Flow
pub mod Blocks
pub mod Frame
use audesys.Base.{not, List, ok}
use audesys.Hal.Platform.{Platform}
use audesys.Hal.Value.Arith.{
  hal_binop, add_op, sub_op, mul_op, hal_bitop, and_op, or_op, xor_op, hal_neg, hal_not,
}
use audesys.Hal.Value.Order.{hal_eq, hal_gt, hal_lt, hal_ge, hal_le}
use audesys.Ir.Instr.{Operand, Opcode, Instruction}
use audesys.Ir.Vm.State.{Vm}
use audesys.Ir.Exec.Common.{halted, Exec, continue_with}
use audesys.Ir.Exec.Data.{
  exec_load, exec_load_index, exec_store_index, exec_binop, exec_unary, exec_compare, exec_store,
  div_or_zero, rem_or_zero,
}
use audesys.Ir.Exec.Flow.{exec_jump, exec_jump_if, exec_call, exec_ret}
use audesys.Ir.Exec.Blocks.{
  exec_timer_run, exec_read_timer, exec_counter_run, exec_read_counter, exec_sr_run, exec_read_sr,
  exec_edge_run, exec_read_edge,
}

unfoldable pub execute_opcode : Platform → Opcode → List Operand → Vm → Exec
unfolding exec_load exec_load_index exec_store_index exec_binop exec_unary exec_compare exec_store
    div_or_zero rem_or_zero exec_jump exec_jump_if exec_call exec_ret exec_timer_run exec_read_timer
    exec_counter_run exec_read_counter exec_sr_run exec_read_sr exec_edge_run exec_read_edge
execute_opcode pl Opcode.nop ops vm = continue_with vm
execute_opcode pl Opcode.store ops vm = exec_store ops vm
execute_opcode pl Opcode.load_index ops vm = exec_load_index pl ops vm
execute_opcode pl Opcode.store_index ops vm = exec_store_index pl ops vm
execute_opcode pl Opcode.load ops vm = exec_load ops vm
execute_opcode pl Opcode.add ops vm = exec_binop (hal_binop (add_op pl)) ops vm
execute_opcode pl Opcode.sub ops vm = exec_binop (hal_binop (sub_op pl)) ops vm
execute_opcode pl Opcode.mul ops vm = exec_binop (hal_binop (mul_op pl)) ops vm
execute_opcode pl Opcode.div ops vm = exec_binop (div_or_zero pl) ops vm
execute_opcode pl Opcode.modulo ops vm = exec_binop (rem_or_zero pl) ops vm
execute_opcode pl Opcode.neg ops vm = exec_unary (hal_neg pl) ops vm
execute_opcode pl Opcode.eq ops vm = exec_compare hal_eq ops vm
execute_opcode pl Opcode.neq ops vm = exec_compare (λ a b. not (hal_eq a b)) ops vm
execute_opcode pl Opcode.gt ops vm = exec_compare hal_gt ops vm
execute_opcode pl Opcode.lt ops vm = exec_compare hal_lt ops vm
execute_opcode pl Opcode.gte ops vm = exec_compare hal_ge ops vm
execute_opcode pl Opcode.lte ops vm = exec_compare hal_le ops vm
execute_opcode pl Opcode.and ops vm = exec_binop (λ a b. ok (hal_bitop and_op a b)) ops vm
execute_opcode pl Opcode.or ops vm = exec_binop (λ a b. ok (hal_bitop or_op a b)) ops vm
execute_opcode pl Opcode.xor ops vm = exec_binop (λ a b. ok (hal_bitop xor_op a b)) ops vm
execute_opcode pl Opcode.not ops vm = exec_unary (λ a. ok (hal_not a)) ops vm
execute_opcode pl Opcode.jump ops vm = exec_jump ops vm
execute_opcode pl Opcode.jump_if ops vm = exec_jump_if ops vm
execute_opcode pl Opcode.call ops vm = exec_call ops vm
execute_opcode pl Opcode.ret ops vm = exec_ret ops vm
execute_opcode pl Opcode.timer_run ops vm = exec_timer_run ops vm
execute_opcode pl Opcode.read_timer ops vm = exec_read_timer ops vm
execute_opcode pl Opcode.counter_run ops vm = exec_counter_run pl ops vm
execute_opcode pl Opcode.read_counter ops vm = exec_read_counter ops vm
execute_opcode pl Opcode.sr_run ops vm = exec_sr_run ops vm
execute_opcode pl Opcode.read_sr ops vm = exec_read_sr ops vm
execute_opcode pl Opcode.edge_run ops vm = exec_edge_run ops vm
execute_opcode pl Opcode.read_edge ops vm = exec_read_edge ops vm
execute_opcode pl Opcode.halt ops vm = ok (vm, halted)

abbrev pub execute_instruction : Platform → Instruction → Vm → Exec
execute_instruction pl inst vm = execute_opcode pl inst.opcode inst.operands vm
