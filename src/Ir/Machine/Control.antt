-- ===== src/Ir/Machine/Control.antt =====
-- The instruction pointer at a call and its return.
use audesys.Base.{
  ℕ, ◌+◌, ◌<◌, ◌≡◌, refl, false, lt→ltb, length, List, [], ◌∷◌, get_elem?, some, ok, ◌>>=◌,
}
use audesys.Hal.Platform.{Platform}
use audesys.Hal.Value.{u32}
use audesys.Ir.Instr.{Opcode, Operand, instruction, immediate}
use audesys.Ir.Exec.Common.{continue}
use audesys.Ir.Exec.{execute_opcode}
use audesys.Ir.Exec.Flow.{exec_ret, exec_call, read_u32_operand, return_to, copy_result}
use audesys.Ir.Vm.State.{pop_call_ip, pop_from}
use audesys.Ir.Machine.{Executor, step, run_instruction, record_trace, settle_ip}

abbrev jumped : Executor → ℕ → List ℕ → Executor
jumped e target stack = record e { vm = record e.vm { ip = target; call_stack = stack } }

step-call :
    (pl : Platform) (e : Executor) (target : ℕ) (ops : List Operand)
    → e.debug_state.debug_mode ≡ false
    → e.vm.ip < length e.program.instructions
    → get_elem? e.program.instructions e.vm.ip
      ≡ some (instruction Opcode.call (immediate (u32 target) ∷ ops))
    → step pl e ≡ ok (jumped e target ((e.vm.ip + 1) ∷ e.vm.call_stack), continue)
unfolding step run_instruction execute_opcode exec_call read_u32_operand record_trace settle_ip
step-call pl e target ops quiet inside at =
    rw (lt→ltb e.vm.ip (length e.program.instructions) inside, quiet, at)

step-ret :
    (pl : Platform) (e : Executor) (return_ip : ℕ) (stack : List ℕ)
    → e.debug_state.debug_mode ≡ false
    → e.vm.ip < length e.program.instructions
    → get_elem? e.program.instructions e.vm.ip ≡ some (instruction Opcode.ret [])
    → e.vm.call_stack ≡ return_ip ∷ stack
    → step pl e ≡ ok (jumped e (return_ip + 1) stack, continue)
unfolding step run_instruction execute_opcode exec_ret pop_call_ip pop_from return_to copy_result
    record_trace settle_ip
step-ret pl e return_ip stack quiet inside at top =
    rw (lt→ltb e.vm.ip (length e.program.instructions) inside, quiet, at, top)

-- In the normal mode, a step at a Call of an address that holds a Ret without operand, and the
-- step after it, leave the machine as it was but for the instruction pointer, which is two past
-- the Call and not one.
pub call-ret_skips :
    (pl : Platform) (e : Executor) (target : ℕ) (ops : List Operand)
    → e.debug_state.debug_mode ≡ false
    → e.vm.ip < length e.program.instructions
    → get_elem? e.program.instructions e.vm.ip
      ≡ some (instruction Opcode.call (immediate (u32 target) ∷ ops))
    → target < length e.program.instructions
    → get_elem? e.program.instructions target ≡ some (instruction Opcode.ret [])
    → (step pl e >>= λ r. step pl r.0)
      ≡ ok (record e { vm = record e.vm { ip = e.vm.ip + 1 + 1 } }, continue)
call-ret_skips pl e target ops quiet inside at inside' at' =
    rw (step-call pl e target ops quiet inside at) (
      step-ret pl (jumped e target ((e.vm.ip + 1) ∷ e.vm.call_stack)) (e.vm.ip + 1) e.vm.call_stack
        quiet inside' at' refl)
