-- ===== src/Il/Codegen.antt =====
-- crates/audesys-il-compiler/src/codegen.rs: from statements to instructions. A method on
-- `&mut self` takes the state and gives the new one.
pub mod Registers
pub mod Running
pub mod Effects
pub mod Tracking
pub mod Emission
pub mod Straight
use audesys.Base.{
  ℕ, suc, ◌+◌, ◌-◌, ◌%◌, Bool, true, false, ◌&&◌, List, [], ◌∷◌, ◌++◌, length, Option, none, some,
  get_elem?, set, ltb, if◌then◌else◌, Outcome, ok, panic, ◌>>=◌, expect, map_get, map_insert,
}
use audesys.Base.Words.{w32, modulus}
use audesys.Hal.Value.{HalValue, bool, u32}
use audesys.Ir.Instr.{Operand, register, immediate, signal_name, Opcode, Instruction, instruction}
use audesys.Ir.Build.{jump, jump_if, call, ret, halt}
use audesys.Ir.Machine.{is_jump}
use audesys.Il.Parser.{
  CompareOp, IlStatement, load, load_not, store, and_var, and_not, or_var, or_not, xor_var, add_var,
  sub_var, mul_var, div_var, mod_var, cmp, jump_if_not, return, set_var, reset_var, invert, ton_var,
  tof_var, tp_var, ctu_var, ctd_var, r_trig_var, f_trig_var, sr_var, rs_var, label_name,
}

abbrev pub user_reg_max : ℕ
user_reg_max = 9

abbrev pub temp1_reg : ℕ
temp1_reg = 12

abbrev pub cr_reg : ℕ
cr_reg = 14

abbrev pub true_reg : ℕ
true_reg = 15

pub record Codegen : Type 0 where
  pub instructions : List Instruction
  pub var_map : List (List ℕ × ℕ)
  pub next_reg : ℕ
  pub labels : List (List ℕ × ℕ)
  pub label_refs : List (ℕ × List ℕ)

abbrev pub new_codegen : Codegen
new_codegen = record { instructions = []; var_map = []; next_reg = 0; labels = []; label_refs = [] }

abbrev pub allocate : Codegen → List ℕ → Codegen
allocate g name = record g {
  next_reg = suc g.next_reg;
  var_map = map_insert name g.next_reg g.var_map;
}

abbrev pub or_allocate : Option ℕ → Codegen → List ℕ → Outcome (ℕ × Codegen)
or_allocate (some r) g name = ok (r, g)
or_allocate none g name =
    if ltb user_reg_max g.next_reg then panic else ok (g.next_reg, allocate g name)

unfoldable pub get_var_reg : Codegen → List ℕ → Outcome (ℕ × Codegen)
get_var_reg g name = or_allocate (map_get name g.var_map) g name

abbrev pub emit : Opcode → List Operand → Codegen → Codegen
emit opcode operands g = record g {
  instructions = g.instructions ++ instruction opcode operands ∷ [];
}

abbrev pub current_ip : Codegen → ℕ
current_ip g = length g.instructions

abbrev pub emit_load_reg : ℕ → ℕ → Codegen → Codegen
emit_load_reg dest src = emit Opcode.load (register dest ∷ register src ∷ [])

abbrev pub emit_load_imm : ℕ → HalValue → Codegen → Codegen
emit_load_imm dest val = emit Opcode.load (register dest ∷ immediate val ∷ [])

abbrev pub emit_not : ℕ → ℕ → Codegen → Codegen
emit_not src dest = emit Opcode.not (register src ∷ register dest ∷ [])

abbrev pub emit_arith : Opcode → ℕ → ℕ → ℕ → Codegen → Codegen
emit_arith opcode a b out = emit opcode (register a ∷ register b ∷ register out ∷ [])

abbrev pub emit_cmp : Opcode → ℕ → ℕ → Codegen → Codegen
emit_cmp opcode a b = emit opcode (register a ∷ register b ∷ [])

abbrev push : Instruction → Codegen → Codegen
push i = emit i.opcode i.operands

abbrev pub emit_jump : ℕ → Codegen → Codegen
emit_jump target = push (jump target)

abbrev pub emit_jump_if : ℕ → Codegen → Codegen
emit_jump_if target = push (jump_if target)

unfoldable pub materialize_cr_from_flags : Codegen → Codegen
materialize_cr_from_flags g =
    let true_ip = (current_ip g + 3) % modulus w32 in
    let done_ip = (current_ip g + 5) % modulus w32 in
    emit_load_imm cr_reg (bool true)
      (emit_jump done_ip (emit_load_imm cr_reg (bool false) (emit_jump_if true_ip g)))

-- `self.label_refs.push((idx, label))`, where the next instruction will stand at `idx`.
abbrev pub refer : List ℕ → Codegen → Codegen
refer label g = record g { label_refs = g.label_refs ++ (current_ip g, label) ∷ [] }

unfoldable pub emit_bool_test_and_jump : List ℕ → Bool → Codegen → Codegen
emit_bool_test_and_jump label negate g =
    emit_jump_if 0
      (refer label (emit_cmp (if negate then Opcode.neq else Opcode.eq) cr_reg true_reg g))

-- The load of a signal into the register of its variable.
abbrev pub emit_load_signal : List ℕ → ℕ → Codegen → Codegen
emit_load_signal var r = emit Opcode.load (register r ∷ signal_name var ∷ [])

unfoldable pub compare_opcode : CompareOp → Opcode
compare_opcode CompareOp.equal = Opcode.eq
compare_opcode CompareOp.not_equal = Opcode.neq
compare_opcode CompareOp.greater = Opcode.gt
compare_opcode CompareOp.greater_equal = Opcode.gte
compare_opcode CompareOp.less = Opcode.lt
compare_opcode CompareOp.less_equal = Opcode.lte

-- `let r = self.get_var_reg(var)`, and what is emitted with it.
unfoldable pub with_var : Codegen → List ℕ → (ℕ → Codegen → Codegen) → Outcome Codegen
with_var g var k = get_var_reg g var >>= λ p. ok (k p.0 p.1)

-- An operator on the accumulator and the variable's register.
abbrev pub accumulate : Opcode → ℕ → Codegen → Codegen
accumulate opcode r = emit_arith opcode cr_reg r cr_reg

-- The same operator on the negated register.
abbrev pub accumulate_not : Opcode → ℕ → Codegen → Codegen
accumulate_not opcode r g =
    accumulate opcode temp1_reg (emit_not temp1_reg temp1_reg (emit_load_reg temp1_reg r g))

abbrev pub run_block : Opcode → ℕ → Codegen → Codegen
run_block opcode r = emit opcode (register r ∷ [])

-- The body of the loop over the statements.
unfoldable pub compile_statement : IlStatement → Codegen → Outcome Codegen
unfolding with_var get_var_reg
compile_statement (label_name name) g =
    ok (record g { labels = map_insert name (current_ip g) g.labels })
compile_statement (load var) g =
    with_var g var λ r g. emit_load_reg cr_reg r (emit_load_signal var r g)
compile_statement (load_not var) g =
    with_var g var λ r g. emit_not cr_reg cr_reg (emit_load_reg cr_reg r (emit_load_signal var r g))
compile_statement (store var) g = ok (emit Opcode.store (signal_name var ∷ register cr_reg ∷ []) g)
compile_statement (and_var var) g =
    with_var g var λ r g. accumulate Opcode.and r (emit_load_signal var r g)
compile_statement (and_not var) g =
    with_var g var λ r g. accumulate_not Opcode.and r (emit_load_signal var r g)
compile_statement (or_var var) g = with_var g var (accumulate Opcode.or)
compile_statement (or_not var) g = with_var g var (accumulate_not Opcode.or)
compile_statement (xor_var var) g = with_var g var (accumulate Opcode.xor)
compile_statement (add_var var) g = with_var g var (accumulate Opcode.add)
compile_statement (sub_var var) g = with_var g var (accumulate Opcode.sub)
compile_statement (mul_var var) g = with_var g var (accumulate Opcode.mul)
compile_statement (div_var var) g = with_var g var (accumulate Opcode.div)
compile_statement (mod_var var) g = with_var g var (accumulate Opcode.modulo)
compile_statement (cmp op var) g =
    with_var g var λ r g. materialize_cr_from_flags (emit_cmp (compare_opcode op) cr_reg r g)
compile_statement (IlStatement.jump label) g = ok (emit_jump 0 (refer label g))
compile_statement (IlStatement.jump_if label) g = ok (emit_bool_test_and_jump label false g)
compile_statement (jump_if_not label) g = ok (emit_bool_test_and_jump label true g)
compile_statement (IlStatement.call fb) g = ok (push (call 0) (refer fb g))
compile_statement return g = ok (push (ret none) g)
compile_statement (set_var var) g = with_var g var λ r. emit_load_imm r (bool true)
compile_statement (reset_var var) g = with_var g var λ r. emit_load_imm r (bool false)
compile_statement invert g = ok (emit_not cr_reg cr_reg g)
compile_statement (ton_var var) g = with_var g var (run_block Opcode.timer_run)
compile_statement (tof_var var) g = with_var g var (run_block Opcode.timer_run)
compile_statement (tp_var var) g = with_var g var (run_block Opcode.timer_run)
compile_statement (ctu_var var) g = with_var g var (run_block Opcode.counter_run)
compile_statement (ctd_var var) g = with_var g var (run_block Opcode.counter_run)
compile_statement (r_trig_var var) g = with_var g var (run_block Opcode.edge_run)
compile_statement (f_trig_var var) g = with_var g var (run_block Opcode.edge_run)
compile_statement (sr_var var) g = with_var g var (run_block Opcode.sr_run)
compile_statement (rs_var var) g = with_var g var (run_block Opcode.sr_run)

unfoldable pub compile_statements : List IlStatement → Codegen → Outcome Codegen
compile_statements [] g = ok g
compile_statements (s ∷ stmts) g = compile_statement s g >>= compile_statements stmts

abbrev pub has_operand : List Operand → Bool
has_operand [] = false
has_operand (_ ∷ _) = true

-- An instruction with its target put in: `Instruction::jump`, `jump_if` or `call` of the target, by
-- its opcode.
unfoldable pub patched : Instruction → ℕ → Instruction
patched i target =
    if has_operand i.operands && is_jump i.opcode
    then instruction i.opcode (immediate (u32 (target % modulus w32)) ∷ [])
    else i

abbrev pub target_or : ℕ → Option ℕ → ℕ
target_or halt_ip none = halt_ip
target_or halt_ip (some target) = target

-- The loop over the references.
unfoldable pub backpatch :
    List (List ℕ × ℕ) → ℕ → List (ℕ × List ℕ) → List Instruction → Outcome (List Instruction)
backpatch labels halt_ip [] result = ok result
backpatch labels halt_ip ((idx, name) ∷ refs) result = do
  inst ← expect (get_elem? result idx)
  let target = target_or halt_ip (map_get name labels)
  backpatch labels halt_ip refs (set result idx (patched inst target))

abbrev pub finish : Codegen → Outcome (List Instruction)
finish g =
    let result = (push halt g).instructions in
    backpatch g.labels ((length result - 1) % modulus w32) g.label_refs result

unfoldable pub compile_ast : List IlStatement → Outcome (List Instruction)
compile_ast stmts =
    compile_statements stmts (emit_load_imm true_reg (bool true) new_codegen) >>= finish
