-- ===== src/Ir/Machine/Reach.antt =====
-- The states that an executor reaches, by any sequence of steps, resumes, resets and debug calls.
use audesys.Base.{
  ℕ, ◌+◌, ◌≡◌, refl, inl, inr, subst, Bool, true, false, ltb, length, Bool-cases, List, get_elem?,
  All, All-append, Option, none, some, expect, ok, Post, returns, panics, Post-bind, Post-any,
  Post-ok, assert-Post, if-Post,
}
use audesys.Hal.Platform.{Platform}
use audesys.Ir.Instr.{Opcode, Instruction}
use audesys.Ir.Program.{HalProgram}
use audesys.Ir.Vm.State.{Vm, new_vm, reset_vm, read_register}
use audesys.Ir.Exec.Common.{ExecutorResult}
use audesys.Ir.Machine.Calls.{opcode-Stacks}
use audesys.Ir.Machine.Sets.{Distinct, delete-Distinct, insert_set-Distinct}
use audesys.Ir.Machine.{
  new_executor, remove_set, reset, disable_debug, enable_debug, add_breakpoint, remove_breakpoint,
  clear_breakpoints, clear_trace, resume, TraceEntry, DebugState, Executor, is_jump, record_trace,
  settle_ip, run_instruction, step, at_breakpoint,
}

-- The instruction at an address of the program has the opcode.
pub data IsOpcodeAt : List Instruction → ℕ → Opcode → Type 0 where
  at :
      {is : List Instruction} {i : ℕ} (inst : Instruction)
      → get_elem? is i ≡ some inst
      → IsOpcodeAt is i inst.opcode

-- The address behind a call.
abbrev IsBehindCall : List Instruction → ℕ → Type 0
IsBehindCall is n = (i : ℕ) × (n ≡ i + 1) × IsOpcodeAt is i Opcode.call

abbrev IsEntry : List Instruction → TraceEntry → Type 0
IsEntry is t = IsOpcodeAt is t.ip t.opcode

pub record IsDebug (is : List Instruction) (d : DebugState) : Type 0 where
  pub distinct : Distinct d.breakpoints
  pub entries : All (IsEntry is) d.trace_buffer

-- What holds of an executor that runs `program`.
pub record IsExecutor (program : HalProgram) (e : Executor) : Type 0 where
  pub runs : e.program ≡ program
  pub calls : All (IsBehindCall program.instructions) e.vm.call_stack
  pub debug : IsDebug program.instructions e.debug_state

expect-at : {A : Type 0} (o : Option A) → Post (λ (a : A). o ≡ some a) (expect o)
expect-at none = panics
expect-at (some a) = returns refl

record_trace-IsDebug :
    {is : List Instruction} (ip : ℕ) (opcode : Opcode) (vm : Vm) {d : DebugState}
    → IsOpcodeAt is ip opcode
    → IsDebug is d
    → Post (IsDebug is) (record_trace ip opcode vm d)
unfolding record_trace
record_trace-IsDebug {is} ip opcode vm {d} here k =
    if-Post d.debug_mode
      (Post-bind (Post-any (read_register vm 0)) λ r0 _. returns record {
        distinct = k.distinct;
        entries = All-append (IsEntry is) d.trace_buffer _ k.entries (here, tt);
      })
      (returns k)

settle-calls :
    (P : ℕ → Type 0) (opcode : Opcode) (vm : Vm)
    → All P vm.call_stack
    → All P (settle_ip opcode vm).call_stack
unfolding settle_ip
settle-calls P opcode vm h = elim (Bool-cases (is_jump opcode)) [ inl e ↦ rw e h | inr e ↦ rw e h ]

module _ (pl : Platform) {program : HalProgram} where
  run_instruction-IsExecutor :
      (e : Executor)
      → IsExecutor program e
      → Post (λ (r : Executor × ExecutorResult). IsExecutor program r.0) (run_instruction pl e)
  unfolding run_instruction
  run_instruction-IsExecutor e h =
      Post-bind (expect-at (get_elem? e.program.instructions e.vm.ip)) λ inst found.
        let here : IsOpcodeAt program.instructions e.vm.ip inst.opcode =
          subst (λ (p : HalProgram). IsOpcodeAt p.instructions e.vm.ip inst.opcode) h.runs
            (at inst found) in
        let behind : inst.opcode ≡ Opcode.call → IsBehindCall program.instructions (e.vm.ip + 1) =
          λ is_call.
            (e.vm.ip, refl, subst (IsOpcodeAt program.instructions e.vm.ip) is_call here) in
        Post-bind
          (opcode-Stacks (IsBehindCall program.instructions) pl inst.opcode inst.operands e.vm
            behind h.calls)
          λ r v. Post-bind (record_trace-IsDebug e.vm.ip inst.opcode r.0 here h.debug) λ d k.
            returns record {
              runs = h.runs;
              calls = settle-calls (IsBehindCall program.instructions) inst.opcode r.0 v;
              debug = k;
            }

  step-IsExecutor :
      (e : Executor)
      → IsExecutor program e
      → Post (λ (r : Executor × ExecutorResult). IsExecutor program r.0) (step pl e)
  unfolding step
  step-IsExecutor e h =
      assert-Post (ltb e.vm.ip (length e.program.instructions))
        λ _. if-Post (at_breakpoint e) (returns h) (run_instruction-IsExecutor e h)

new_executor-IsExecutor : (program : HalProgram) → IsExecutor program (new_executor program)
unfolding new_vm
new_executor-IsExecutor program = record {
  runs = refl;
  calls = tt;
  debug = record { distinct = tt; entries = tt };
}

-- A call of the executor that changes it.
pub data Move (pl : Platform) (e : Executor) : Executor → Type 0 where
  steps : {e' : Executor} (r : ExecutorResult) → step pl e ≡ ok (e', r) → Move pl e e'
  resumes : {e' : Executor} (r : ExecutorResult) → resume pl e ≡ ok (e', r) → Move pl e e'
  resets : Move pl e (reset e)
  enables : Move pl e (enable_debug e)
  disables : Move pl e (disable_debug e)
  adds : (ip : ℕ) → Move pl e (add_breakpoint ip e).0
  removes : (ip : ℕ) → Move pl e (remove_breakpoint ip e).0
  clears : Move pl e (clear_breakpoints e)
  clears_trace : Move pl e (clear_trace e)
  -- `vm_mut`, by a caller that leaves the call stack alone.
  edits : {vm : Vm} → vm.call_stack ≡ e.vm.call_stack → Move pl e (record e { vm = vm })

pub data Reach (pl : Platform) (e : Executor) : Executor → Type 0 where
  here : Reach pl e e
  next : {t u : Executor} → Reach pl e t → Move pl t u → Reach pl e u

with_debug :
    {program : HalProgram} {e : Executor} {d : DebugState}
    → IsExecutor program e
    → IsDebug program.instructions d
    → IsExecutor program (record e { debug_state = d })
with_debug h k = record { runs = h.runs; calls = h.calls; debug = k }

with_mode :
    {is : List Instruction} {d : DebugState} (b : Bool)
    → IsDebug is d
    → IsDebug is (record d { debug_mode = b })
with_mode b k = record { distinct = k.distinct; entries = k.entries }

module _ (pl : Platform) {program : HalProgram} where
  resume-IsExecutor :
      (e : Executor)
      → IsExecutor program e
      → Post (λ (r : Executor × ExecutorResult). IsExecutor program r.0) (resume pl e)
  unfolding resume
  resume-IsExecutor e h =
      Post-bind (step-IsExecutor pl (disable_debug e) (with_debug h (with_mode false h.debug)))
        λ r k. returns (with_debug k (with_mode true k.debug))

  Move-IsExecutor : {e u : Executor} → Move pl e u → IsExecutor program e → IsExecutor program u
  unfolding reset reset_vm add_breakpoint remove_breakpoint remove_set clear_breakpoints clear_trace
  Move-IsExecutor {e} (steps r s) h = Post-ok (step-IsExecutor pl e h) s
  Move-IsExecutor {e} (resumes r s) h = Post-ok (resume-IsExecutor e h) s
  Move-IsExecutor resets h = record { runs = h.runs; calls = tt; debug = h.debug }
  Move-IsExecutor enables h = with_debug h (with_mode true h.debug)
  Move-IsExecutor disables h = with_debug h (with_mode false h.debug)
  Move-IsExecutor {e} (adds ip) h = with_debug h record {
    distinct = insert_set-Distinct ip e.debug_state.breakpoints h.debug.distinct;
    entries = h.debug.entries;
  }
  Move-IsExecutor {e} (removes ip) h = with_debug h record {
    distinct = delete-Distinct ip e.debug_state.breakpoints h.debug.distinct;
    entries = h.debug.entries;
  }
  Move-IsExecutor clears h = with_debug h record { distinct = tt; entries = h.debug.entries }
  Move-IsExecutor clears_trace h = with_debug h record { distinct = h.debug.distinct; entries = tt }
  Move-IsExecutor (edits same) h = record {
    runs = h.runs;
    calls = rw same h.calls;
    debug = h.debug;
  }

  -- In every executor that is reached from a new one by steps, resumes, resets, debug calls and
  -- edits of the machine that leave its call stack alone, each address on the call stack is one
  -- past a Call of the program, each entry of the trace has the opcode that the program has at its
  -- address, no breakpoint is set twice, and the program is the same.
  pub Reach-IsExecutor : {e : Executor} → Reach pl (new_executor program) e → IsExecutor program e
  Reach-IsExecutor here = new_executor-IsExecutor program
  Reach-IsExecutor (next r m) = Move-IsExecutor m (Reach-IsExecutor r)
