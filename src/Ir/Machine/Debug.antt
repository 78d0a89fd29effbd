-- ===== src/Ir/Machine/Debug.antt =====
-- Breakpoints, the trace and `resume`.
use audesys.Base.{
  ℕ, suc, some, ◌+◌, ◌<◌, ◌≡◌, ◌≢◌, refl, false, lt→ltb, ==_iff, length, length-append,
  if◌then◌else◌, ok, ◌>>=◌, Post, returns, Post-bind, Post-any, if-Post_cases, expect, get_elem?,
}
use mathlib.Core.List.{Perm}
use audesys.Hal.Platform.{Platform}
use audesys.Ir.Exec.Common.{ExecutorResult, breaked}
use audesys.Ir.Exec.{execute_instruction}
use audesys.Ir.Vm.State.{Vm, read_register}
use audesys.Ir.Instr.{Opcode}
use audesys.Ir.Machine.{
  DebugState, Executor, contains, remove_set, record_trace, run_instruction, step, disable_debug,
  enable_debug, at_breakpoint, add_breakpoint, remove_breakpoint, list_breakpoints, resume,
  run_to_halt,
}
use audesys.Ir.Machine.Sets.{
  Distinct, contains-delete_ne, contains-delete_self, contains-insert_set, IsSorted, sort-IsSorted,
  sort-perm,
}

module _ (pl : Platform) (e : Executor) (inside : e.vm.ip < length e.program.instructions) where
  -- At an instruction pointer inside the program, with a breakpoint there and the debug mode on, a
  -- step stops at once and changes nothing, run_to_halt ends with the same executor after that one
  -- step, and resume executes the instruction with the debug mode off and turns it on again.
  pub step_at_breakpoint :
      (fuel steps : ℕ)
      → let stopped = enable_debug (add_breakpoint e.vm.ip e).0 in
        (step pl stopped ≡ ok (stopped, breaked))
        × (run_to_halt pl (suc fuel) stopped steps ≡ ok (some (stopped, steps + 1)))
        × (resume pl stopped
            ≡ (run_instruction pl (disable_debug stopped) >>= λ r. ok (enable_debug r.0, r.1)))
  unfolding step run_to_halt resume add_breakpoint
  step_at_breakpoint fuel steps = rw (lt→ltb e.vm.ip (length e.program.instructions) inside) (
      rw
        (
          contains-insert_set e.vm.ip e.vm.ip e.debug_state.breakpoints,
          (==_iff e.vm.ip e.vm.ip).1 refl,
        )
        (refl, refl, refl))

  -- With no breakpoint at the instruction pointer, or the debug mode off, a step executes the
  -- instruction there.
  pub step_past : at_breakpoint e ≡ false → step pl e ≡ run_instruction pl e
  unfolding step
  step_past h = rw (lt→ltb e.vm.ip (length e.program.instructions) inside, h)

-- Where no breakpoint is set twice, a removed breakpoint is not set, every other address is as it
-- was, and the result says whether it had been set.
pub remove_breakpoint_removes :
    (ip other : ℕ) (e : Executor)
    → Distinct e.debug_state.breakpoints
    → let (e', removed) = remove_breakpoint ip e in
      (contains ip e'.debug_state.breakpoints ≡ false)
      × (removed ≡ contains ip e.debug_state.breakpoints)
      × (ip ≢ other
          → contains other e'.debug_state.breakpoints ≡ contains other e.debug_state.breakpoints)
unfolding remove_breakpoint remove_set
remove_breakpoint_removes ip other e h = (
  contains-delete_self ip e.debug_state.breakpoints h,
  refl,
  λ ne. contains-delete_ne ip other e.debug_state.breakpoints ne,
)

-- The listed breakpoints are in order, and a permutation of the set ones.
pub list_breakpoints-IsSorted :
    (e : Executor)
    → IsSorted (list_breakpoints e) × Perm (list_breakpoints e) e.debug_state.breakpoints
unfolding list_breakpoints
list_breakpoints-IsSorted e =
    (sort-IsSorted e.debug_state.breakpoints, sort-perm e.debug_state.breakpoints)

-- What a step says of the debug state it leaves: the breakpoints and the mode stay, and the trace has
-- grown by one entry for the executed instruction, in debug mode.
pub record Traced (e e' : Executor) : Type 0 where
  pub same_mode : e'.debug_state.debug_mode ≡ e.debug_state.debug_mode
  pub same_breakpoints : e'.debug_state.breakpoints ≡ e.debug_state.breakpoints
  pub grown : length e'.debug_state.trace_buffer ≡ (
      if e.debug_state.debug_mode
      then length e.debug_state.trace_buffer + 1
      else length e.debug_state.trace_buffer)

record_trace_grows :
    (ip : ℕ) (opcode : Opcode) (vm : Vm) (d : DebugState)
    → Post
        (λ (d' : DebugState).
          (d'.debug_mode ≡ d.debug_mode)
          × (d'.breakpoints ≡ d.breakpoints)
          × (length d'.trace_buffer
              ≡ (if d.debug_mode then length d.trace_buffer + 1 else length d.trace_buffer)))
        (record_trace ip opcode vm d)
unfolding record_trace
record_trace_grows ip opcode vm d =
    if-Post_cases d.debug_mode
      (λ on.
        Post-bind (Post-any (read_register vm 0))
          λ r0 _. returns (refl, refl, rw on (length-append d.trace_buffer _)))
      λ off. returns (refl, refl, rw off)

-- An executed instruction that does not panic keeps the breakpoints and the debug mode, and adds
-- one entry to the trace in debug mode and none without.
pub run_instruction-Traced :
    (pl : Platform) (e : Executor)
    → Post (λ (r : Executor × ExecutorResult). Traced e r.0) (run_instruction pl e)
unfolding run_instruction
run_instruction-Traced pl e =
    Post-bind (Post-any (expect (get_elem? e.program.instructions e.vm.ip))) λ inst _.
      Post-bind (Post-any (execute_instruction pl inst e.vm)) λ r _.
        Post-bind (record_trace_grows e.vm.ip inst.opcode r.0 e.debug_state)
          λ d k. returns record { same_mode = k.0; same_breakpoints = k.1; grown = k.2 }
