-- ===== src/Il/Codegen/Running.antt =====
-- The machine at the end of the code that crates/audesys-il-compiler/src/codegen.rs has emitted.
use audesys.Base.{
  ℕ, suc, ◌+◌, ◌<◌, ◌≡◌, refl, ◌∙◌, ap, false, List, [], ◌∷◌, ◌++◌, length, some, get_elem?,
  get_elem?-append_length, append_snoc, length-append, lt→ltb, ok, arith,
}
use audesys.Hal.Platform.{Platform}
use audesys.Ir.Instr.{Operand, Opcode, Instruction, instruction}
use audesys.Ir.Program.{HalProgram}
use audesys.Ir.Vm.State.{Vm, advance_ip}
use audesys.Ir.Exec.Common.{continue}
use audesys.Ir.Exec.{execute_opcode}
use audesys.Ir.Machine.{
  Executor, new_executor, is_jump, step, run_instruction, run_to_halt, record_trace, settle_ip,
}
use audesys.Il.Codegen.{Codegen, emit}

abbrev pub with_vm : HalProgram → Vm → Executor
with_vm p vm = record (new_executor p) { vm = vm }

-- A program that begins with the emitted code runs through it, an instruction a step, and is then
-- at its end with the machine `vm`.
pub record Ran (pl : Platform) (g : Codegen) (vm : Vm) : Type 0 where
  pub at_end : vm.ip ≡ length g.instructions
  pub runs :
      (p : HalProgram) (rest : List Instruction) (fuel steps : ℕ)
      → p.instructions ≡ g.instructions ++ rest
      → run_to_halt pl (length g.instructions + fuel) (new_executor p) steps
        ≡ run_to_halt pl fuel (with_vm p vm) (steps + length g.instructions)

-- A step at an instruction that does not jump.
pub step_on :
    (pl : Platform) (p : HalProgram) (vm vm' : Vm) (opcode : Opcode) (operands : List Operand)
    → vm.ip < length p.instructions
    → get_elem? p.instructions vm.ip ≡ some (instruction opcode operands)
    → execute_opcode pl opcode operands vm ≡ ok (vm', continue)
    → is_jump opcode ≡ false
    → step pl (with_vm p vm) ≡ ok (with_vm p (advance_ip vm'), continue)
unfolding step run_instruction record_trace settle_ip
step_on pl p vm vm' opcode operands inside at does straight =
    rw (lt→ltb vm.ip (length p.instructions) inside, at, does, straight)

-- A step of the loop.
pub run_to_halt-step :
    (pl : Platform) (p : HalProgram) (vm vm' : Vm) (fuel steps : ℕ)
    → step pl (with_vm p vm) ≡ ok (with_vm p vm', continue)
    → run_to_halt pl (suc fuel) (with_vm p vm) steps
      ≡ run_to_halt pl fuel (with_vm p vm') (steps + 1)
unfolding run_to_halt
run_to_halt-step pl p vm vm' fuel steps does = rw does refl

pub Ran-emit :
    {pl : Platform} {g : Codegen} {vm : Vm} (vm' : Vm) (opcode : Opcode) (operands : List Operand)
    → Ran pl g vm
    → execute_opcode pl opcode operands vm ≡ ok (vm', continue)
    → vm'.ip ≡ vm.ip
    → is_jump opcode ≡ false
    → Ran pl (emit opcode operands g) (advance_ip vm')
Ran-emit {pl = pl} {g = g} {vm = vm} vm' opcode operands r does same straight = record {
  at_end = omega (arith, r.at_end, same, longer);
  runs = λ p rest fuel steps e.
      let split = e ∙ append_snoc g.instructions i rest in
      let inside : vm.ip < length p.instructions =
        rw split (omega (arith, r.at_end, length-append g.instructions (i ∷ rest))) in
      let at : get_elem? p.instructions vm.ip ≡ some i =
        rw (split, r.at_end) (get_elem?-append_length g.instructions i rest) in
      ap (λ n. run_to_halt pl n (new_executor p) steps) (shift fuel)
      ∙ r.runs p (i ∷ rest) (suc fuel) steps split
      ∙ run_to_halt-step pl p vm (advance_ip vm') fuel (steps + length g.instructions)
          (step_on pl p vm vm' opcode operands inside at does straight)
      ∙ ap (run_to_halt pl fuel (with_vm p (advance_ip vm'))) (count steps);
}
  where
    i : Instruction
    i = instruction opcode operands

    longer : length (g.instructions ++ i ∷ []) ≡ length g.instructions + 1
    longer = length-append g.instructions (i ∷ [])

    shift : (fuel : ℕ) → length (g.instructions ++ i ∷ []) + fuel ≡ length g.instructions + suc fuel
    shift fuel = omega (arith, longer)

    count :
        (steps : ℕ) → steps + length g.instructions + 1 ≡ steps + length (g.instructions ++ i ∷ [])
    count steps = omega (arith, longer)
