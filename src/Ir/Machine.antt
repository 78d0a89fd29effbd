-- ===== src/Ir/Machine.antt =====
-- crates/audesys-hal-ir/src/executor.rs: `Executor`, its steps and its debugging.
pub mod Sets
pub mod Calls
pub mod Reach
pub mod Debug
pub mod Session
pub mod Control
pub mod Halting
use audesys.Base.{
  ℕ, zero, suc, ◌+◌, Bool, true, false, ◌&&◌, ◌||◌, List, [], ◌∷◌, ◌++◌, Option, none, some, length,
  get_elem?, ltb, leb, ◌==◌, if◌then◌else◌, Outcome, ok, ◌>>=◌, ◌>>◌, assert, expect,
}
use audesys.Hal.Platform.{Platform}
use audesys.Hal.Value.{HalValue}
use audesys.Ir.Instr.{Opcode}
use audesys.Ir.Program.{HalProgram}
use audesys.Ir.Vm.State.{Vm, new_vm, reset_vm, read_register, advance_ip}
use audesys.Ir.Exec.Common.{ExecutorResult, continue, halted, breaked}
use audesys.Ir.Exec.{execute_instruction}

pub record TraceEntry : Type 0 where
  pub ip : ℕ
  pub opcode : Opcode
  pub r0 : HalValue

-- `breakpoints` is the `HashSet`, as a list without repetition.
pub record DebugState : Type 0 where
  pub debug_mode : Bool
  pub breakpoints : List ℕ
  pub trace_buffer : List TraceEntry

abbrev pub new_debug_state : DebugState
new_debug_state = record { debug_mode = false; breakpoints = []; trace_buffer = [] }

pub record Executor : Type 0 where
  pub vm : Vm
  pub program : HalProgram
  pub debug_state : DebugState

abbrev pub new_executor : HalProgram → Executor
new_executor program = record { vm = new_vm; program = program; debug_state = new_debug_state }

-- `HashSet::contains`, `insert` and `remove`.
unfoldable pub contains : ℕ → List ℕ → Bool
contains a [] = false
contains a (b ∷ bs) = (a == b) || contains a bs

unfoldable pub insert_set : ℕ → List ℕ → List ℕ × Bool
insert_set a bs = if contains a bs then (bs, false) else (a ∷ bs, true)

unfoldable pub delete : ℕ → List ℕ → List ℕ
delete a [] = []
delete a (b ∷ bs) = if a == b then bs else b ∷ delete a bs

unfoldable pub remove_set : ℕ → List ℕ → List ℕ × Bool
remove_set a bs = (delete a bs, contains a bs)

-- The opcodes after which `step` leaves the instruction pointer alone.
abbrev pub is_jump : Opcode → Bool
is_jump Opcode.jump = true
is_jump Opcode.jump_if = true
is_jump Opcode.call = true
is_jump _ = false

-- The record of an executed instruction, in debug mode.
unfoldable pub record_trace : ℕ → Opcode → Vm → DebugState → Outcome DebugState
record_trace ip opcode vm d =
    let entry : HalValue → TraceEntry = λ r0. record { ip = ip; opcode = opcode; r0 = r0 } in
    if d.debug_mode
    then (read_register vm 0 >>= λ r0.
        ok (record d { trace_buffer = d.trace_buffer ++ entry r0 ∷ [] }))
    else ok d

-- The instruction pointer after an instruction.
unfoldable pub settle_ip : Opcode → Vm → Vm
settle_ip opcode vm = if is_jump opcode then vm else advance_ip vm

-- Fetch, execute, record, advance.
unfoldable pub run_instruction : Platform → Executor → Outcome (Executor × ExecutorResult)
run_instruction pl e = do
  inst ← expect (get_elem? e.program.instructions e.vm.ip)
  (vm, result) ← execute_instruction pl inst e.vm
  debug_state ← record_trace e.vm.ip inst.opcode vm e.debug_state
  ok (record e { vm = settle_ip inst.opcode vm; debug_state = debug_state }, result)

abbrev pub at_breakpoint : Executor → Bool
at_breakpoint e = e.debug_state.debug_mode && contains e.vm.ip e.debug_state.breakpoints

unfoldable pub step : Platform → Executor → Outcome (Executor × ExecutorResult)
step pl e =
    assert (ltb e.vm.ip (length e.program.instructions))
    >> (if at_breakpoint e then ok (e, breaked) else run_instruction pl e)

unfoldable pub reset : Executor → Executor
reset e = record e { vm = reset_vm e.vm }

-- The loop of `run_to_halt` on fuel: `none` when the fuel is used up.
unfoldable pub run_to_halt : Platform → ℕ → Executor → ℕ → Outcome (Option (Executor × ℕ))
run_to_halt pl zero e steps = ok none
run_to_halt pl (suc fuel) e steps = step pl e >>= λ r. elim r.1 [
  | continue ↦ run_to_halt pl fuel r.0 (steps + 1)
  | halted ↦ ok (some (r.0, steps + 1))
  | breaked ↦ ok (some (r.0, steps + 1))
]

abbrev pub set_debug : Bool → Executor → Executor
set_debug b e = record e { debug_state = record e.debug_state { debug_mode = b } }

abbrev pub enable_debug : Executor → Executor
enable_debug = set_debug true

abbrev pub disable_debug : Executor → Executor
disable_debug = set_debug false

unfoldable pub add_breakpoint : ℕ → Executor → Executor × Bool
add_breakpoint ip e =
    let (bs, added) = insert_set ip e.debug_state.breakpoints in
    (record e { debug_state = record e.debug_state { breakpoints = bs } }, added)

unfoldable pub remove_breakpoint : ℕ → Executor → Executor × Bool
remove_breakpoint ip e =
    let (bs, removed) = remove_set ip e.debug_state.breakpoints in
    (record e { debug_state = record e.debug_state { breakpoints = bs } }, removed)

-- `sort_unstable`.
unfoldable pub insert_sorted : ℕ → List ℕ → List ℕ
insert_sorted a [] = a ∷ []
insert_sorted a (b ∷ bs) = if leb a b then a ∷ b ∷ bs else b ∷ insert_sorted a bs

unfoldable pub sort : List ℕ → List ℕ
sort [] = []
sort (a ∷ as') = insert_sorted a (sort as')

unfoldable pub list_breakpoints : Executor → List ℕ
list_breakpoints e = sort e.debug_state.breakpoints

unfoldable pub clear_breakpoints : Executor → Executor
clear_breakpoints e = record e { debug_state = record e.debug_state { breakpoints = [] } }

unfoldable pub clear_trace : Executor → Executor
clear_trace e = record e { debug_state = record e.debug_state { trace_buffer = [] } }

-- One step with the debug mode off, and on again after it.
unfoldable pub resume : Platform → Executor → Outcome (Executor × ExecutorResult)
resume pl e = do (e', result) ← step pl (disable_debug e); ok (enable_debug e', result)
