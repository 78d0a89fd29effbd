-- ===== src/Examples/Machine.antt =====
-- The executor: examples.
use audesys.Base.{◌≡◌, ◌>>=◌, refl, [], ◌∷◌, arith, ok, Post, none, some}
use audesys.Base.Words.{pos}
use audesys.Examples.{debug_build}
use audesys.Hal.Value.{s32}
use audesys.Ir.Instr.{Opcode}
use audesys.Ir.Build.{jump_if, load_imm, halt, call, ret}
use audesys.Ir.Program.{HalProgram, new_program}
use audesys.Ir.Vm.State.{new_vm, read_register}
use audesys.Ir.Exec.{execute_opcode}
use audesys.Ir.Exec.Flow.{read_u32_operand, jump_target}
use audesys.Ir.Exec.Common.{continue, breaked}
use audesys.Ir.Machine.{
  Executor, reset, contains, new_executor, run_to_halt, step, resume, run_instruction, record_trace,
  settle_ip, enable_debug, disable_debug, add_breakpoint,
}
use audesys.Ir.Machine.Reach.{IsExecutor, Move, Reach, Reach-IsExecutor}
use audesys.Ir.Machine.Session.{bare, proceed, iterate, Mirrors, iterate-proceed}
use audesys.Ir.Machine.Debug.{step_at_breakpoint}
use audesys.Ir.Machine.Halting.{EndsWithin, run_to_halt-EndsWithin}
use audesys.Ir.Machine.Control.{call-ret_skips}

-- A call of address 3, where a return is.
abbrev program : HalProgram
program = new_program [] (call 3 ∷ load_imm 0 (s32 (pos 5)) ∷ halt ∷ ret none ∷ [])

abbrev start : Executor
start = new_executor program

abbrev in_call : Executor
in_call = record start { vm = record new_vm { ip = 3; call_stack = 1 ∷ [] } }

call_step : step debug_build start ≡ ok (in_call, continue)
unfolding step run_instruction execute_opcode new_vm record_trace settle_ip read_u32_operand
call_step = refl

abbrev traced_call : Executor
traced_call = record in_call {
  debug_state = record (enable_debug start).debug_state {
    trace_buffer = record { ip = 0; opcode = Opcode.call; r0 = s32 (pos 0) } ∷ [];
  };
}

traced_step : step debug_build (enable_debug start) ≡ ok (traced_call, continue)
unfolding step run_instruction execute_opcode new_vm record_trace settle_ip read_u32_operand
    contains read_register
traced_step = refl

Reach-IsExecutor_example : IsExecutor program (reset traced_call)
Reach-IsExecutor_example = Reach-IsExecutor debug_build (
    Reach.next (Reach.next (Reach.next Reach.here Move.enables) (Move.steps continue traced_step))
      Move.resets)

call-ret_skips_example :
    (step debug_build start >>= λ r. step debug_build r.0)
    ≡ ok (record start { vm = record new_vm { ip = 2 } }, continue)
unfolding new_vm
call-ret_skips_example =
    call-ret_skips debug_build start 3 [] refl (omega arith) refl (omega arith) refl

abbrev stopped : Executor
stopped = enable_debug (add_breakpoint 0 start).0

step_at_breakpoint_example :
    (step debug_build stopped ≡ ok (stopped, breaked))
    × (run_to_halt debug_build 9 stopped 4 ≡ ok (some (stopped, 5)))
    × (resume debug_build stopped
        ≡ (run_instruction debug_build (disable_debug stopped) >>= λ r. ok (enable_debug r.0, r.1)))
unfolding new_vm
step_at_breakpoint_example = step_at_breakpoint debug_build start (omega arith) 8 4

iterate-proceed_example :
    Mirrors (iterate (step debug_build) 3 (bare stopped)) (iterate (proceed debug_build) 3 stopped)
iterate-proceed_example = iterate-proceed debug_build 3 stopped

-- Three breakpoints, out of order.
abbrev marked : Executor
marked = record start { debug_state = record start.debug_state { breakpoints = 7 ∷ 2 ∷ 5 ∷ [] } }

-- A forward program: a conditional jump over a load.
abbrev forward : Executor
forward =
    new_executor
      (new_program [] (load_imm 0 (s32 (pos 5)) ∷ jump_if 3 ∷ load_imm 0 (s32 (pos 6)) ∷ halt ∷ []))

run_to_halt-EndsWithin_example : Post (EndsWithin 4) (run_to_halt debug_build 5 forward 0)
unfolding jump_target
run_to_halt-EndsWithin_example =
    run_to_halt-EndsWithin debug_build 5 forward (tt, (omega arith, (tt, (tt, tt)))) refl
      (omega arith)
