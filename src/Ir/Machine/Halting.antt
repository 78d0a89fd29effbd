-- ===== src/Ir/Machine/Halting.antt =====
-- `Executor::run_to_halt` of crates/audesys-hal-ir/src/executor.rs: the length of a run.
use audesys.Base.{
  ℕ, zero, suc, ◌+◌, ◌<◌, ◌≤◌, ◌≡◌, refl, subst, arith, true, false, ltb, length, List, [], ◌∷◌,
  get_elem?, Option, none, some, ◌⊎◌, inl, inr, Bool-cases, ltb→lt, Post, returns, panics,
  Post-bind, Post-weaken, assert-Post, if-Post, if-Post_cases, Post-any, expect, Bool, ◌&&◌,
}
use audesys.Hal.Platform.{Platform}
use audesys.Hal.Value.{u32}
use audesys.Ir.Instr.{Opcode, Operand, Instruction, immediate}
use audesys.Ir.Vm.State.{Vm, read_register}
use audesys.Ir.Exec.{execute_opcode}
use audesys.Ir.Exec.Common.{Exec, ExecutorResult, continue, halted}
use audesys.Ir.Exec.Flow.{exec_jump, exec_jump_if, jump_if_to, jump_target}
use audesys.Ir.Exec.Frame.{is_flow, execute_opcode-Stays}
use audesys.Ir.Machine.{
  Executor, DebugState, step, run_instruction, record_trace, settle_ip, run_to_halt, at_breakpoint,
}

-- A jump from address `i` goes to a later one. A jump without an address would loop for ever; a
-- conditional one goes on.
abbrev JumpsForward : ℕ → Option ℕ → Type 0
JumpsForward i none = ⊥
JumpsForward i (some target) = i < target

abbrev JumpsForwardIf : ℕ → Option ℕ → Type 0
JumpsForwardIf i none = Unit
JumpsForwardIf i (some target) = i < target

abbrev pub GoesForward : ℕ → Opcode → List Operand → Type 0
GoesForward i Opcode.jump ops = JumpsForward i (jump_target ops)
GoesForward i Opcode.jump_if ops = JumpsForwardIf i (jump_target ops)
GoesForward i Opcode.call ops = ⊥
GoesForward i Opcode.ret ops = ⊥
GoesForward i _ ops = Unit

-- Each instruction of a list that starts at address `i`.
abbrev pub IsForward : ℕ → List Instruction → Type 0
IsForward i [] = Unit
IsForward i (x ∷ xs) = GoesForward i x.opcode x.operands × IsForward (suc i) xs

-- The machine halts, or the instruction pointer is behind `n`.
abbrev Advances : ℕ → Opcode → Exec → Type 0
Advances n opcode m =
    Post
      (λ (r : Vm × ExecutorResult).
        (r.1 ≡ halted) ⊎ ((r.1 ≡ continue) × (n < (settle_ip opcode r.0).ip)))
      m

stays-Advances :
    (pl : Platform) (opcode : Opcode) (ops : List Operand) (vm : Vm)
    → is_flow opcode ≡ false
    → Advances vm.ip opcode (execute_opcode pl opcode ops vm)
unfolding settle_ip
stays-Advances pl Opcode.jump ops vm h = cc
stays-Advances pl Opcode.jump_if ops vm h = cc
stays-Advances pl Opcode.call ops vm h = cc
stays-Advances pl opcode ops vm h =
    Post-weaken (execute_opcode-Stays pl opcode ops vm h) λ r k. inr (k.1, omega (arith, k.0))

jump-Advances :
    (ops : List Operand) (vm : Vm)
    → JumpsForward vm.ip (jump_target ops)
    → Advances vm.ip Opcode.jump (exec_jump ops vm)
unfolding exec_jump jump_target settle_ip
jump-Advances (immediate (u32 target) ∷ _) vm h = returns (inr (refl, h))
jump-Advances _ vm h = absurd h

jump_if-Advances :
    (target : Option ℕ) (vm : Vm)
    → JumpsForwardIf vm.ip target
    → Advances vm.ip Opcode.jump_if (jump_if_to target vm)
unfolding jump_if_to settle_ip
jump_if-Advances none vm h = returns (inr (refl, omega arith))
jump_if-Advances (some target) vm h = elim (Bool-cases vm.flags_zero) [
  | inl e ↦ rw e (returns (inr (refl, h)))
  | inr e ↦ rw e (returns (inr (refl, omega arith)))
]

opcode-Advances :
    (pl : Platform) (opcode : Opcode) (ops : List Operand) (vm : Vm)
    → GoesForward vm.ip opcode ops
    → Advances vm.ip opcode (execute_opcode pl opcode ops vm)
unfolding execute_opcode exec_jump_if
opcode-Advances pl Opcode.jump ops vm h = jump-Advances ops vm h
opcode-Advances pl Opcode.jump_if ops vm h = jump_if-Advances (jump_target ops) vm h
opcode-Advances pl Opcode.call ops vm h = absurd h
opcode-Advances pl Opcode.ret ops vm h = absurd h
opcode-Advances pl Opcode.halt ops vm h = returns (inl refl)
opcode-Advances pl opcode ops vm h = stays-Advances pl opcode ops vm refl

forward_at :
    (is : List Instruction) (i k : ℕ)
    → IsForward i is
    → Post (λ x. GoesForward (i + k) x.opcode x.operands) (expect (get_elem? is k))
forward_at [] i k h = panics
forward_at (x ∷ xs) i zero h =
    returns (subst (λ n. GoesForward n x.opcode x.operands) (omega arith) h.0)
forward_at (x ∷ xs) i (suc k) h =
    Post-weaken (forward_at xs (suc i) k h.1)
      λ y g. subst (λ n. GoesForward n y.opcode y.operands) (omega arith) g

-- What a step of a forward program does in the normal mode.
abbrev Progress : Executor → Executor × ExecutorResult → Type 0
Progress e r =
    (r.1 ≡ halted)
    ⊎ ((r.1 ≡ continue)
        × (e.vm.ip < r.0.vm.ip)
        × (r.0.program ≡ e.program)
        × (r.0.debug_state.debug_mode ≡ false))

record_trace_quiet :
    (ip : ℕ) (opcode : Opcode) (vm : Vm) (d : DebugState)
    → d.debug_mode ≡ false
    → Post (λ (d' : DebugState). d'.debug_mode ≡ false) (record_trace ip opcode vm d)
unfolding record_trace
record_trace_quiet ip opcode vm d quiet =
    if-Post d.debug_mode (Post-bind (Post-any (read_register vm 0)) λ r0 _. returns quiet)
      (returns quiet)

run_instruction-Progress :
    (pl : Platform) (e : Executor)
    → IsForward 0 e.program.instructions
    → e.debug_state.debug_mode ≡ false
    → Post (Progress e) (run_instruction pl e)
unfolding run_instruction
run_instruction-Progress pl e forward quiet =
    Post-bind (forward_at e.program.instructions 0 e.vm.ip forward) λ inst f.
      Post-bind
        (opcode-Advances pl inst.opcode inst.operands e.vm
          (subst (λ n. GoesForward n inst.opcode inst.operands) (omega arith) f))
        λ r a. Post-bind (record_trace_quiet e.vm.ip inst.opcode r.0 e.debug_state quiet) λ d q.
          returns
            (elim a [ inl stops ↦ inl stops | inr (goes, ahead) ↦ inr (goes, ahead, refl, q) ])

step-Progress :
    (pl : Platform) (e : Executor)
    → IsForward 0 e.program.instructions
    → e.debug_state.debug_mode ≡ false
    → Post (λ r. (e.vm.ip < length e.program.instructions) × Progress e r) (step pl e)
unfolding step
step-Progress pl e forward quiet =
    assert-Post (ltb e.vm.ip (length e.program.instructions)) λ inside.
      if-Post_cases (at_breakpoint e)
        (λ stops. absurd (not_stopped e.debug_state.debug_mode _ quiet stops))
        λ _.
          Post-weaken (run_instruction-Progress pl e forward quiet)
            λ r p. (ltb→lt e.vm.ip (length e.program.instructions) inside, p)
  where
    not_stopped : (a b : Bool) → a ≡ false → (a && b) ≡ true → ⊥
    not_stopped true b p q = cc
    not_stopped false b p q = cc

-- The run has ended, after no more than `n` steps.
abbrev pub EndsWithin : ℕ → Option (Executor × ℕ) → Type 0
EndsWithin n none = ⊥
EndsWithin n (some (e, steps)) = steps ≤ n

run_within :
    (pl : Platform) (fuel : ℕ) (e : Executor) (steps n : ℕ)
    → IsForward 0 e.program.instructions
    → e.debug_state.debug_mode ≡ false
    → 0 < fuel
    → length e.program.instructions < fuel + e.vm.ip
    → steps + length e.program.instructions ≤ n + e.vm.ip
    → Post (EndsWithin n) (run_to_halt pl fuel e steps)
unfolding run_to_halt
run_within pl zero e steps n forward quiet some_fuel enough bound = absurd (omega arith)
run_within pl (suc fuel) e steps n forward quiet some_fuel enough bound =
    Post-bind (step-Progress pl e forward quiet) λ r p. elim p.1 [
      | inl stops ↦ rw stops (returns (omega (arith, p.0)))
      | inr (goes, ahead, same, still) ↦
          let same_length : length r.0.program.instructions ≡ length e.program.instructions =
            rw same refl in
          rw goes (
            run_within pl fuel r.0 (steps + 1) n (rw same forward) still (omega (arith, p.0))
              (omega (arith, same_length)) (omega (arith, same_length)))
    ]

-- In the normal mode, on a program without calls and returns whose jumps go to later addresses,
-- and with more fuel than the program has instructions, run_to_halt from any instruction pointer
-- ends before the fuel does, after no more steps than there are instructions, unless it panics.
pub run_to_halt-EndsWithin :
    (pl : Platform) (fuel : ℕ) (e : Executor)
    → IsForward 0 e.program.instructions
    → e.debug_state.debug_mode ≡ false
    → length e.program.instructions < fuel
    → Post (EndsWithin (length e.program.instructions)) (run_to_halt pl fuel e 0)
run_to_halt-EndsWithin pl fuel e forward quiet enough =
    run_within pl fuel e 0 (length e.program.instructions) forward quiet (omega arith) (omega arith)
      (omega arith)
