-- ===== src/Il/Compare.antt =====
-- crates/audesys-il-compiler/src/codegen.rs, `materialize_cr_from_flags`: a comparison on the machine.
use audesys.Base.{
  ℕ, suc, ◌+◌, ◌<◌, ◌%◌, ◌≡◌, refl, ap₂, if◌then◌else◌, sym, ◌∙◌, ap, true, false, Bool, List, [],
  ◌∷◌, ◌++◌, some, length, length-append, get_elem?, get_elem?-append_right, append_snoc, set,
  lt→ltb, ok, arith, not,
}
use audesys.Base.Words.{w32, modulus}
use audesys.Hal.Platform.{Platform}
use audesys.Hal.Value.{HalValue, bool, u32}
use audesys.Hal.Value.Order.{hal_eq, hal_gt, hal_lt, hal_ge, hal_le}
use audesys.Ir.Instr.{register, immediate, Opcode, Instruction, instruction}
use audesys.Ir.Program.{HalProgram}
use audesys.Ir.Vm.State.{Vm, read_register, set_flags_zero, set_ip, advance_ip, register_count}
use audesys.Ir.Exec.Common.{continue, continue_with, read_reg}
use audesys.Ir.Exec.Data.{exec_compare}
use audesys.Ir.Exec.Flow.{exec_jump, exec_jump_if, jump_if_to, jump_target}
use audesys.Ir.Exec.{execute_opcode}
use audesys.Ir.Machine.{is_jump, step, run_instruction, run_to_halt, record_trace, settle_ip}
use audesys.Il.Parser.{CompareOp}
use audesys.Il.Codegen.{Codegen, emit_cmp, cr_reg, compare_opcode, materialize_cr_from_flags}
use audesys.Il.Codegen.Running.{with_vm, step_on, run_to_halt-step}
use audesys.Il.Codegen.Effects.{put, InRegister, load_immediate}

-- What the operators mean.
unfoldable pub compares : CompareOp → HalValue → HalValue → Bool
compares CompareOp.equal a b = hal_eq a b
compares CompareOp.not_equal a b = not (hal_eq a b)
compares CompareOp.greater a b = hal_gt a b
compares CompareOp.greater_equal a b = hal_ge a b
compares CompareOp.less a b = hal_lt a b
compares CompareOp.less_equal a b = hal_le a b

abbrev target : Opcode → ℕ → Instruction
target opcode ip = instruction opcode (immediate (u32 (ip % modulus w32)) ∷ [])

abbrev set_cr : Bool → Instruction
set_cr b = instruction Opcode.load (register cr_reg ∷ immediate (bool b) ∷ [])

-- The five instructions of a comparison at the address `n`.
abbrev comparison : CompareOp → ℕ → ℕ → List Instruction → List Instruction
comparison op r n rest =
    instruction (compare_opcode op) (register cr_reg ∷ register r ∷ [])
    ∷ target Opcode.jump_if (n + 1 + 3)
    ∷ set_cr false
    ∷ target Opcode.jump (n + 1 + 5)
    ∷ set_cr true
    ∷ rest

module _ (pl : Platform) (op : CompareOp) where
  exec_comparison :
      (vm : Vm) (r : ℕ) {a b : HalValue}
      → InRegister vm cr_reg a
      → InRegister vm r b
      → execute_opcode pl (compare_opcode op) (register cr_reg ∷ register r ∷ []) vm
        ≡ continue_with (set_flags_zero vm (compares op a b))
  unfolding execute_opcode compare_opcode compares exec_compare read_reg read_register
  exec_comparison vm r {a} {b} (inside, at) (inside', at') = dispatched op
    where
      compared :
          (f : HalValue → HalValue → Bool)
          → exec_compare f (register cr_reg ∷ register r ∷ []) vm
            ≡ continue_with (set_flags_zero vm (f a b))
      compared f = rw (at, lt→ltb r register_count inside', at')

      dispatched :
          (op : CompareOp)
          → execute_opcode pl (compare_opcode op) (register cr_reg ∷ register r ∷ []) vm
            ≡ continue_with (set_flags_zero vm (compares op a b))
      dispatched CompareOp.equal = compared hal_eq
      dispatched CompareOp.not_equal = compared (λ a b. not (hal_eq a b))
      dispatched CompareOp.greater = compared hal_gt
      dispatched CompareOp.greater_equal = compared hal_ge
      dispatched CompareOp.less = compared hal_lt
      dispatched CompareOp.less_equal = compared hal_le

materialized :
    (op : CompareOp) (r : ℕ) (g : Codegen) (rest : List Instruction)
    → (materialize_cr_from_flags (emit_cmp (compare_opcode op) cr_reg r g)).instructions ++ rest
      ≡ g.instructions ++ comparison op r (length g.instructions) rest
unfolding materialize_cr_from_flags
materialized op r g rest =
    append_snoc _ _ rest
    ∙ append_snoc _ _ _
    ∙ append_snoc _ _ _
    ∙ append_snoc _ _ _
    ∙ append_snoc g.instructions _ _
    ∙ ap
        (λ n.
          g.instructions
          ++ instruction (compare_opcode op) (register cr_reg ∷ register r ∷ [])
            ∷ target Opcode.jump_if (n + 3)
            ∷ set_cr false
            ∷ target Opcode.jump (n + 5)
            ∷ set_cr true
            ∷ rest)
        (length-append g.instructions _)

module _ (pl : Platform) (p : HalProgram) where
  step-jump_if :
      (vm : Vm) (ip : ℕ) {to : ℕ}
      → ip % modulus w32 ≡ to
      → vm.ip < length p.instructions
      → get_elem? p.instructions vm.ip ≡ some (target Opcode.jump_if ip)
      → step pl (with_vm p vm)
        ≡ ok (with_vm p (if vm.flags_zero then set_ip vm to else advance_ip vm), continue)
  unfolding step run_instruction record_trace settle_ip execute_opcode exec_jump_if jump_if_to
      jump_target
  step-jump_if vm ip lands inside at =
      rw (sym lands, lt→ltb vm.ip (length p.instructions) inside, at)

  step-jump :
      (vm : Vm) (ip : ℕ) {to : ℕ}
      → ip % modulus w32 ≡ to
      → vm.ip < length p.instructions
      → get_elem? p.instructions vm.ip ≡ some (target Opcode.jump ip)
      → step pl (with_vm p vm) ≡ ok (with_vm p (set_ip vm to), continue)
  unfolding step run_instruction record_trace settle_ip execute_opcode exec_jump
  step-jump vm ip lands inside at = rw (sym lands, lt→ltb vm.ip (length p.instructions) inside, at)

-- The machine where the code of a comparison has led: at its end if the comparison holds, and an
-- instruction further if it does not.
abbrev pub compared : Codegen → Bool → Vm → Vm
compared after c vm = record vm {
  registers = set vm.registers cr_reg (bool c);
  flags_zero = c;
  ip = if c then length after.instructions else length after.instructions + 1;
}

-- The steps that it takes.
abbrev pub steps_of : Bool → ℕ
steps_of c = if c then 3 else 4

module _ (pl : Platform) (op : CompareOp) (r : ℕ) (g : Codegen) (p : HalProgram)
    (rest : List Instruction) (vm : Vm) {a b : HalValue}
    (fits : length g.instructions + 6 < modulus w32)
    (begins : p.instructions
      ≡ (materialize_cr_from_flags (emit_cmp (compare_opcode op) cr_reg r g)).instructions ++ rest)
    (at_start : vm.ip ≡ length g.instructions) (left : InRegister vm cr_reg a)
    (right : InRegister vm r b) where
  split : p.instructions ≡ g.instructions ++ comparison op r (length g.instructions) rest
  split = begins ∙ materialized op r g rest

  at_offset :
      (k : ℕ) {ip : ℕ} {i : Instruction}
      → ip ≡ length g.instructions + k
      → get_elem? (comparison op r (length g.instructions) rest) k ≡ some i
      → get_elem? p.instructions ip ≡ some i
  at_offset k e h =
      rw (e, split)
        (get_elem?-append_right g.instructions (comparison op r (length g.instructions) rest) k ∙ h)

  inside_at : (k : ℕ) {ip : ℕ} → ip ≡ length g.instructions + k → k < 5 → ip < length p.instructions
  inside_at k e h =
      let size : length p.instructions ≡ length g.instructions + (5 + length rest) = rw split (
        omega
          (arith, length-append g.instructions (comparison op r (length g.instructions) rest))) in
      omega (arith, size)

  abbrev after : Codegen
  after = materialize_cr_from_flags (emit_cmp (compare_opcode op) cr_reg r g)

  end : length after.instructions ≡ length g.instructions + 5
  end = omega (
    arith,
    ap length (materialized op r g []),
    length-append after.instructions [],
    length-append g.instructions (comparison op r (length g.instructions) []),
  )

  lands_true : (length g.instructions + 1 + 3) % modulus w32 ≡ length g.instructions + 4
  lands_true = omega arith

  lands_done : (length g.instructions + 1 + 5) % modulus w32 ≡ length g.instructions + 6
  lands_done = omega arith

  first_step :
      (c : Bool)
      → compares op a b ≡ c
      → step pl (with_vm p vm) ≡ ok (with_vm p (advance_ip (set_flags_zero vm c)), continue)
  unfolding compare_opcode
  first_step c h =
      step_on pl p vm (set_flags_zero vm c) (compare_opcode op) (register cr_reg ∷ register r ∷ [])
        (inside_at 0 (omega (arith, at_start)) (omega arith))
        (at_offset 0 (omega (arith, at_start)) refl)
        (exec_comparison pl op vm r left right ∙ ap (λ c. continue_with (set_flags_zero vm c)) h)
        (straight op)
    where
      straight : (op : CompareOp) → is_jump (compare_opcode op) ≡ false
      straight CompareOp.equal = refl
      straight CompareOp.not_equal = refl
      straight CompareOp.greater = refl
      straight CompareOp.greater_equal = refl
      straight CompareOp.less = refl
      straight CompareOp.less_equal = refl

  outcome :
      (c : Bool) (fuel steps : ℕ)
      → compares op a b ≡ c
      → run_to_halt pl (steps_of c + fuel) (with_vm p vm) steps
        ≡ run_to_halt pl fuel (with_vm p (compared after c vm)) (steps + steps_of c)
  outcome true fuel steps h =
      let v1 : Vm = advance_ip (set_flags_zero vm true) in
      let v2 : Vm = set_ip v1 (length g.instructions + 4) in
      let v3 : Vm = advance_ip (put cr_reg (bool true) v2) in
      ap (λ k. run_to_halt pl k (with_vm p vm) steps) (plus_three fuel)
      ∙ run_to_halt-step pl p vm v1 (suc (suc fuel)) steps (first_step true h)
      ∙ run_to_halt-step pl p v1 v2 (suc fuel) (steps + 1) (
          step-jump_if pl p v1 (length g.instructions + 1 + 3) lands_true
            (inside_at 1 (omega (arith, at_start)) (omega arith))
            (at_offset 1 (omega (arith, at_start)) refl))
      ∙ run_to_halt-step pl p v2 v3 fuel (steps + 1 + 1) (
          step_on pl p v2 (put cr_reg (bool true) v2) Opcode.load _ (inside_at 4 refl (omega arith))
            (at_offset 4 refl refl) (load_immediate v2 pl cr_reg (bool true) (omega arith)) refl)
      ∙ ap₂ (λ ip k. run_to_halt pl fuel (with_vm p (record v3 { ip = ip })) k) (omega (arith, end))
          (omega arith)
    where
      plus_three : (n : ℕ) → 3 + n ≡ suc (suc (suc n))
      plus_three n = omega arith
  outcome false fuel steps h =
      let v1 : Vm = advance_ip (set_flags_zero vm false) in
      let v2 : Vm = advance_ip v1 in
      let v3 : Vm = advance_ip (put cr_reg (bool false) v2) in
      let v4 : Vm = set_ip v3 (length g.instructions + 6) in
      ap (λ k. run_to_halt pl k (with_vm p vm) steps) (plus_four fuel)
      ∙ run_to_halt-step pl p vm v1 (suc (suc (suc fuel))) steps (first_step false h)
      ∙ run_to_halt-step pl p v1 v2 (suc (suc fuel)) (steps + 1) (
          step-jump_if pl p v1 (length g.instructions + 1 + 3) lands_true
            (inside_at 1 (omega (arith, at_start)) (omega arith))
            (at_offset 1 (omega (arith, at_start)) refl))
      ∙ run_to_halt-step pl p v2 v3 (suc fuel) (steps + 1 + 1) (
          step_on pl p v2 (put cr_reg (bool false) v2) Opcode.load _
            (inside_at 2 (omega (arith, at_start)) (omega arith))
            (at_offset 2 (omega (arith, at_start)) refl)
            (load_immediate v2 pl cr_reg (bool false) (omega arith)) refl)
      ∙ run_to_halt-step pl p v3 v4 fuel (steps + 1 + 1 + 1) (
          step-jump pl p v3 (length g.instructions + 1 + 5) lands_done
            (inside_at 3 (omega (arith, at_start)) (omega arith))
            (at_offset 3 (omega (arith, at_start)) refl))
      ∙ ap₂ (λ ip k. run_to_halt pl fuel (with_vm p (record v4 { ip = ip })) k) (omega (arith, end))
          (omega arith)
    where
      plus_four : (n : ℕ) → 4 + n ≡ suc (suc (suc (suc n)))
      plus_four n = omega arith

  -- The code of a comparison, from any machine at its start and at an address that fits a u32,
  -- takes three steps to its end with a true accumulator where the comparison holds; where it does
  -- not, it takes four steps and ends with a false accumulator one instruction further.
  pub materialize_cr_from_flags-compared :
      (fuel steps : ℕ)
      → run_to_halt pl (steps_of (compares op a b) + fuel) (with_vm p vm) steps
        ≡ run_to_halt pl fuel
            (with_vm p (compared after (compares op a b) vm))
            (steps + steps_of (compares op a b))
  materialize_cr_from_flags-compared fuel steps = outcome (compares op a b) fuel steps refl
