-- ===== src/Ir/Exec/Frame.antt =====
-- The instruction pointer under the instructions that are no jump, call, return or halt.
use audesys.Base.{◌≡◌, List, ok, Bool, true, false}
use audesys.Hal.Platform.{Platform}
use audesys.Hal.Value.Arith.{hal_not, hal_bitop, and_op, or_op, xor_op}
use audesys.Ir.Instr.{Operand, Opcode}
use audesys.Ir.Vm.State.{Vm}
use audesys.Ir.Exec.{execute_opcode}
use audesys.Ir.Exec.Common.Frame.{Stays, here}
use audesys.Ir.Exec.Data.Frame.{
  exec_load-Stays, exec_load_index-Stays, exec_store_index-Stays, exec_binop-Stays,
  exec_unary-Stays, exec_compare-Stays, exec_store-Stays,
}
use audesys.Ir.Exec.Blocks.Frame.{
  exec_timer_run-Stays, exec_read_timer-Stays, exec_counter_run-Stays, exec_read_counter-Stays,
  exec_sr_run-Stays, exec_read_sr-Stays, exec_edge_run-Stays, exec_read_edge-Stays,
}

abbrev pub is_flow : Opcode → Bool
is_flow Opcode.jump = true
is_flow Opcode.jump_if = true
is_flow Opcode.call = true
is_flow Opcode.ret = true
is_flow Opcode.halt = true
is_flow _ = false

pub execute_opcode-Stays :
    (pl : Platform) (opcode : Opcode) (ops : List Operand) (vm : Vm)
    → is_flow opcode ≡ false
    → Stays vm.ip vm.call_stack (execute_opcode pl opcode ops vm)
unfolding execute_opcode
execute_opcode-Stays pl Opcode.nop ops vm h = here vm
execute_opcode-Stays pl Opcode.load ops vm h = exec_load-Stays ops vm
execute_opcode-Stays pl Opcode.store ops vm h = exec_store-Stays ops vm
execute_opcode-Stays pl Opcode.load_index ops vm h = exec_load_index-Stays pl ops vm
execute_opcode-Stays pl Opcode.store_index ops vm h = exec_store_index-Stays pl ops vm
execute_opcode-Stays pl Opcode.neg ops vm h = exec_unary-Stays _ ops vm
execute_opcode-Stays pl Opcode.not ops vm h = exec_unary-Stays (λ a. ok (hal_not a)) ops vm
execute_opcode-Stays pl Opcode.and ops vm h =
    exec_binop-Stays (λ a b. ok (hal_bitop and_op a b)) ops vm
execute_opcode-Stays pl Opcode.or ops vm h =
    exec_binop-Stays (λ a b. ok (hal_bitop or_op a b)) ops vm
execute_opcode-Stays pl Opcode.xor ops vm h =
    exec_binop-Stays (λ a b. ok (hal_bitop xor_op a b)) ops vm
execute_opcode-Stays pl Opcode.eq ops vm h = exec_compare-Stays _ ops vm
execute_opcode-Stays pl Opcode.neq ops vm h = exec_compare-Stays _ ops vm
execute_opcode-Stays pl Opcode.gt ops vm h = exec_compare-Stays _ ops vm
execute_opcode-Stays pl Opcode.lt ops vm h = exec_compare-Stays _ ops vm
execute_opcode-Stays pl Opcode.gte ops vm h = exec_compare-Stays _ ops vm
execute_opcode-Stays pl Opcode.lte ops vm h = exec_compare-Stays _ ops vm
execute_opcode-Stays pl Opcode.timer_run ops vm h = exec_timer_run-Stays ops vm
execute_opcode-Stays pl Opcode.read_timer ops vm h = exec_read_timer-Stays ops vm
execute_opcode-Stays pl Opcode.counter_run ops vm h = exec_counter_run-Stays pl ops vm
execute_opcode-Stays pl Opcode.read_counter ops vm h = exec_read_counter-Stays ops vm
execute_opcode-Stays pl Opcode.sr_run ops vm h = exec_sr_run-Stays ops vm
execute_opcode-Stays pl Opcode.read_sr ops vm h = exec_read_sr-Stays ops vm
execute_opcode-Stays pl Opcode.edge_run ops vm h = exec_edge_run-Stays ops vm
execute_opcode-Stays pl Opcode.read_edge ops vm h = exec_read_edge-Stays ops vm
execute_opcode-Stays pl Opcode.jump ops vm h = cc
execute_opcode-Stays pl Opcode.jump_if ops vm h = cc
execute_opcode-Stays pl Opcode.call ops vm h = cc
execute_opcode-Stays pl Opcode.ret ops vm h = cc
execute_opcode-Stays pl Opcode.halt ops vm h = cc
execute_opcode-Stays pl _ ops vm h = exec_binop-Stays _ ops vm
