-- ===== src/Il/Halting.antt =====
-- The length of a run of a compiled program whose source has no jump, call or return.
use audesys.Base.{
  ℕ, suc, ◌+◌, ◌%◌, ◌<◌, ◌≡◌, refl, sym, subst, inl, inr, arith, All, List, [], ◌∷◌, ◌++◌, length,
  length-append, true, false, Bool-cases, Option-cases, ltb, map_get, Outcome, ok, ◌>>=◌, Post,
  Post-bind, Post-ok, returns, panics,
}
use audesys.Base.Words.{w32, modulus}
use audesys.Hal.Platform.{Platform}
use audesys.Hal.Value.{bool, u32}
use audesys.Ir.Instr.{Opcode, Operand, Instruction, instruction, immediate, register}
use audesys.Ir.Build.{halt}
use audesys.Ir.Program.{HalProgram}
use audesys.Ir.Machine.{Executor, run_to_halt}
use audesys.Ir.Machine.Halting.{GoesForward, IsForward, EndsWithin, run_to_halt-EndsWithin}
use audesys.Ir.Exec.Flow.{jump_target}
use audesys.Il.Lexer.{tokenize}
use audesys.Il.Parser.{
  CompareOp, IlStatement, load, load_not, store, and_var, and_not, or_var, or_not, xor_var, add_var,
  sub_var, mul_var, div_var, mod_var, cmp, jump_if_not, return, set_var, reset_var, invert, ton_var,
  tof_var, tp_var, ctu_var, ctd_var, r_trig_var, f_trig_var, sr_var, rs_var, label_name, parse,
}
use audesys.Il.Codegen.{
  Codegen, new_codegen, emit, compile_statement, compile_statements, compile_ast, finish, backpatch,
  emit_load_imm, accumulate_not, materialize_cr_from_flags, with_var, get_var_reg, user_reg_max,
  cr_reg, true_reg, compare_opcode, allocate,
}
use audesys.Il.Compile.{il_compile}

-- A statement that is compiled without a reference to a label.
abbrev pub HasNoJump : IlStatement → Type 0
HasNoJump (IlStatement.jump l) = ⊥
HasNoJump (IlStatement.jump_if l) = ⊥
HasNoJump (jump_if_not l) = ⊥
HasNoJump (IlStatement.call l) = ⊥
HasNoJump return = ⊥
HasNoJump _ = Unit

-- The jumps of the code go forward, where the addresses of the code and of a comparison behind it fit in 32 bits.
record Ahead (g : Codegen) : Type 0 where
  refers : g.label_refs ≡ []
  forward : length g.instructions + 4 < modulus w32 → IsForward 0 g.instructions

IsForward-append :
    (i : ℕ) (xs : List Instruction) (x : Instruction)
    → IsForward i xs
    → GoesForward (i + length xs) x.opcode x.operands
    → IsForward i (xs ++ x ∷ [])
IsForward-append i [] x h k = (subst (λ n. GoesForward n x.opcode x.operands) (omega arith) k, tt)
IsForward-append i (y ∷ xs) x h k = (
  h.0,
  IsForward-append (suc i) xs x h.1
      (subst (λ n. GoesForward n x.opcode x.operands) (omega arith) k),
)

-- An instruction that goes forward at the address where it is emitted.
Ahead-emit :
    {g : Codegen} (opcode : Opcode) (operands : List Operand)
    → (length g.instructions + 5 < modulus w32
        → GoesForward (length g.instructions) opcode operands)
    → Ahead g
    → Ahead (emit opcode operands g)
Ahead-emit {g} opcode operands goes k = record {
  refers = k.refers;
  forward = λ fits.
      let longer : length g.instructions + 5 < modulus w32 =
        omega (arith, fits, length-append g.instructions (instruction opcode operands ∷ [])) in
      let shorter : length g.instructions + 4 < modulus w32 = omega arith in
      IsForward-append 0 g.instructions (instruction opcode operands) (k.forward shorter)
        (subst (λ n. GoesForward n opcode operands) (omega arith) (goes longer));
}

-- An opcode that goes on at the next address.
abbrev Plain : Opcode → Type 0
Plain opcode = (n : ℕ) (operands : List Operand) → GoesForward n opcode operands

plain :
    {g : Codegen} (opcode : Opcode) (operands : List Operand)
    → Plain opcode
    → Ahead g
    → Ahead (emit opcode operands g)
plain {g} opcode operands p = Ahead-emit opcode operands λ _. p (length g.instructions) operands

loaded : {g : Codegen} (operands : List Operand) → Ahead g → Ahead (emit Opcode.load operands g)
loaded operands = plain Opcode.load operands λ n ops. tt

negated : {g : Codegen} (operands : List Operand) → Ahead g → Ahead (emit Opcode.not operands g)
negated operands = plain Opcode.not operands λ n ops. tt

inverted :
    {g : Codegen} (opcode : Opcode) (r : ℕ)
    → Plain opcode
    → Ahead g
    → Ahead (accumulate_not opcode r g)
inverted opcode r p k = plain opcode _ p (negated _ (loaded _ k))

abbrev ahead : Codegen → Instruction
ahead g =
    instruction Opcode.jump_if (immediate (u32 ((length g.instructions + 3) % modulus w32)) ∷ [])

abbrev false_load : Instruction
false_load = instruction Opcode.load (register cr_reg ∷ immediate (bool false) ∷ [])

materialized : {g : Codegen} → Ahead g → Ahead (materialize_cr_from_flags g)
unfolding materialize_cr_from_flags jump_target
materialized {g} k = loaded _ (
    Ahead-emit Opcode.jump _
      (λ fits. omega (
        arith,
        fits,
        length-append (g.instructions ++ ahead g ∷ []) (false_load ∷ []),
        length-append g.instructions (ahead g ∷ []),
      ))
      (loaded _ (Ahead-emit Opcode.jump_if _ (λ fits. omega arith) k)))

-- A register for a variable leaves the code as it is.
Ahead-with_var :
    {g : Codegen} (x : List ℕ) (k : ℕ → Codegen → Codegen)
    → Ahead g
    → ((r : ℕ) (g : Codegen) → Ahead g → Ahead (k r g))
    → Post Ahead (with_var g x k)
unfolding with_var get_var_reg
Ahead-with_var {g} x k h keeps = elim (Option-cases (map_get x g.var_map)) [
  | inr (r, found) ↦ rw found (returns (keeps r g h))
  | inl missing ↦ elim (Bool-cases (ltb user_reg_max g.next_reg)) [
    | inl full ↦ rw (missing, full) panics
    | inr room ↦
        rw (missing, room)
          (returns
            (keeps g.next_reg (allocate g x) record { refers = h.refers; forward = h.forward }))
  ]
]

compares : (op : CompareOp) → Plain (compare_opcode op)
unfolding compare_opcode
compares CompareOp.equal n ops = tt
compares CompareOp.not_equal n ops = tt
compares CompareOp.greater n ops = tt
compares CompareOp.greater_equal n ops = tt
compares CompareOp.less n ops = tt
compares CompareOp.less_equal n ops = tt

Ahead-statement :
    {g : Codegen} (s : IlStatement) → HasNoJump s → Ahead g → Post Ahead (compile_statement s g)
unfolding compile_statement
Ahead-statement (IlStatement.jump l) h k = absurd h
Ahead-statement (IlStatement.jump_if l) h k = absurd h
Ahead-statement (jump_if_not l) h k = absurd h
Ahead-statement (IlStatement.call l) h k = absurd h
Ahead-statement return h k = absurd h
Ahead-statement (label_name name) h k = returns record { refers = k.refers; forward = k.forward }
Ahead-statement (store x) h k = returns (plain Opcode.store _ (λ n ops. tt) k)
Ahead-statement invert h k = returns (negated _ k)
Ahead-statement (load x) h k = Ahead-with_var x _ k λ r g k. loaded _ (loaded _ k)
Ahead-statement (load_not x) h k = Ahead-with_var x _ k λ r g k. negated _ (loaded _ (loaded _ k))
Ahead-statement (and_var x) h k =
    Ahead-with_var x _ k λ r g k. plain Opcode.and _ (λ n ops. tt) (loaded _ k)
Ahead-statement (and_not x) h k =
    Ahead-with_var x _ k λ r g k. inverted Opcode.and r (λ n ops. tt) (loaded _ k)
Ahead-statement (or_var x) h k = Ahead-with_var x _ k λ r g. plain Opcode.or _ λ n ops. tt
Ahead-statement (or_not x) h k = Ahead-with_var x _ k λ r g. inverted Opcode.or r λ n ops. tt
Ahead-statement (xor_var x) h k = Ahead-with_var x _ k λ r g. plain Opcode.xor _ λ n ops. tt
Ahead-statement (add_var x) h k = Ahead-with_var x _ k λ r g. plain Opcode.add _ λ n ops. tt
Ahead-statement (sub_var x) h k = Ahead-with_var x _ k λ r g. plain Opcode.sub _ λ n ops. tt
Ahead-statement (mul_var x) h k = Ahead-with_var x _ k λ r g. plain Opcode.mul _ λ n ops. tt
Ahead-statement (div_var x) h k = Ahead-with_var x _ k λ r g. plain Opcode.div _ λ n ops. tt
Ahead-statement (mod_var x) h k = Ahead-with_var x _ k λ r g. plain Opcode.modulo _ λ n ops. tt
Ahead-statement (cmp op x) h k =
    Ahead-with_var x _ k λ r g k. materialized (plain (compare_opcode op) _ (compares op) k)
Ahead-statement (set_var x) h k = Ahead-with_var x _ k λ r g. loaded _
Ahead-statement (reset_var x) h k = Ahead-with_var x _ k λ r g. loaded _
Ahead-statement (ton_var x) h k = Ahead-with_var x _ k λ r g. plain Opcode.timer_run _ λ n ops. tt
Ahead-statement (tof_var x) h k = Ahead-with_var x _ k λ r g. plain Opcode.timer_run _ λ n ops. tt
Ahead-statement (tp_var x) h k = Ahead-with_var x _ k λ r g. plain Opcode.timer_run _ λ n ops. tt
Ahead-statement (ctu_var x) h k = Ahead-with_var x _ k λ r g. plain Opcode.counter_run _ λ n ops. tt
Ahead-statement (ctd_var x) h k = Ahead-with_var x _ k λ r g. plain Opcode.counter_run _ λ n ops. tt
Ahead-statement (r_trig_var x) h k = Ahead-with_var x _ k λ r g. plain Opcode.edge_run _ λ n ops. tt
Ahead-statement (f_trig_var x) h k = Ahead-with_var x _ k λ r g. plain Opcode.edge_run _ λ n ops. tt
Ahead-statement (sr_var x) h k = Ahead-with_var x _ k λ r g. plain Opcode.sr_run _ λ n ops. tt
Ahead-statement (rs_var x) h k = Ahead-with_var x _ k λ r g. plain Opcode.sr_run _ λ n ops. tt

Ahead-statements :
    (stmts : List IlStatement) {g : Codegen}
    → All HasNoJump stmts
    → Ahead g
    → Post Ahead (compile_statements stmts g)
unfolding compile_statements
Ahead-statements [] h k = returns k
Ahead-statements (s ∷ stmts) h k =
    Post-bind (Ahead-statement s h.0 k) λ g k. Ahead-statements stmts h.1 k

-- Code whose jumps go forward.
abbrev GoesAhead : List Instruction → Type 0
GoesAhead code = length code + 3 < modulus w32 → IsForward 0 code

finish-GoesAhead : (g : Codegen) → Ahead g → Post GoesAhead (finish g)
unfolding backpatch
finish-GoesAhead g k = rw k.refers (
    returns λ fits.
      let small : length g.instructions + 4 < modulus w32 =
        omega (arith, fits, length-append g.instructions (halt ∷ [])) in
      IsForward-append 0 g.instructions halt (k.forward small) tt)

started : Ahead (emit_load_imm true_reg (bool true) new_codegen)
started =
    plain {g = new_codegen} Opcode.load (register true_reg ∷ immediate (bool true) ∷ [])
      (λ n ops. tt) record { refers = refl; forward = λ fits. tt }

compile_ast-GoesAhead :
    (stmts : List IlStatement) → All HasNoJump stmts → Post GoesAhead (compile_ast stmts)
unfolding compile_ast
compile_ast-GoesAhead stmts h = Post-bind (Ahead-statements stmts h started) finish-GoesAhead

il_compile-GoesAhead :
    (source : List ℕ)
    → All HasNoJump (parse (tokenize source))
    → Post (λ (p : HalProgram). GoesAhead p.instructions) (il_compile source)
unfolding il_compile
il_compile-GoesAhead source h =
    go _ (compile_ast-GoesAhead (parse (tokenize source)) h) (λ code. refl)
  where
    go :
        {m : Outcome (List Instruction)} (k : List Instruction → HalProgram)
        → Post GoesAhead m
        → ((code : List Instruction) → (k code).instructions ≡ code)
        → Post (λ (p : HalProgram). GoesAhead p.instructions) (m >>= λ code. ok (k code))
    go k (returns h) same = returns (subst GoesAhead (sym (same _)) h)
    go k panics same = panics

-- A program that is compiled from a source without JMP, JMPC, JMPCN, CAL and RET, of at most 2 ^
-- 32 - 4 instructions, ends in the normal mode from any machine, before a fuel of more steps than
-- it has instructions does, and after no more steps than it has instructions, unless it panics.
pub il_compile-EndsWithin :
    (pl : Platform) (source : List ℕ) {p : HalProgram} (fuel : ℕ) (e : Executor)
    → All HasNoJump (parse (tokenize source))
    → il_compile source ≡ ok p
    → length p.instructions + 3 < modulus w32
    → e.program ≡ p
    → e.debug_state.debug_mode ≡ false
    → length p.instructions < fuel
    → Post (EndsWithin (length p.instructions)) (run_to_halt pl fuel e 0)
il_compile-EndsWithin pl source {p} fuel e straight compiled fits runs quiet enough =
    subst (λ (q : HalProgram). Post (EndsWithin (length q.instructions)) (run_to_halt pl fuel e 0))
      runs
      (run_to_halt-EndsWithin pl fuel e
        (rw runs (Post-ok (il_compile-GoesAhead source straight) compiled fits)) quiet
        (rw runs enough))
