-- ===== src/Il/Limits/Programs.antt =====
-- crates/audesys-il-compiler/src/codegen.rs and lib.rs: compiled programs, and the sources that do
-- not compile.
use audesys.Base.{
  ℕ, suc, ◌<◌, ◌≤◌, ◌%◌, ◌≡◌, ◌↔◌, refl, sym, ◌∙◌, ap, true, false, ◌||◌, ◌&&◌, some-injective,
  List, [], ◌∷◌, ◌++◌, Option, none, some, length, length-set, get_elem?, get_elem?-some, set,
  map_get, Bool, Outcome, ok, panic, ◌>>=◌, arith, All, All-get, All-set, Total, total, Post,
  returns, panics, if◌then◌else◌,
}
use audesys.Base.Words.{w32, modulus}
use audesys.Hal.Value.{bool, u32}
use audesys.Ir.Instr.{Opcode, Instruction, IsInstruction, instruction, immediate}
use audesys.Ir.Build.{halt}
use audesys.Ir.Program.{HalProgram, IsProgram, is_well_formed, is_halt, any_halt}
use audesys.Ir.Machine.{is_jump}
use audesys.Il.Lexer.{tokenize}
use audesys.Il.Parser.{IlStatement, parse}
use audesys.Il.Codegen.{
  Codegen, new_codegen, emit_load_imm, true_reg, compile_statements, compile_ast, finish, backpatch,
  has_operand, patched, target_or,
}
use audesys.Il.Compile.{il_compile}
use audesys.Il.Limits.{operand, declare, variables, Kept, Kept-emit, Limited, within, beyond}
use audesys.Il.Limits.Statements.{Limited-statement}

declare_grows : (o : Option (List ℕ)) (seen : List (List ℕ)) → length seen ≤ length (declare o seen)
declare_grows none seen = omega arith
declare_grows (some x) seen = longer _ seen
  where
    longer : (b : Bool) (seen : List (List ℕ)) → length seen ≤ length (if b then seen else x ∷ seen)
    longer true seen = omega arith
    longer false seen = omega arith

variables_grow :
    (stmts : List IlStatement) (seen : List (List ℕ)) → length seen ≤ length (variables stmts seen)
unfolding variables
variables_grow [] seen = omega arith
variables_grow (s ∷ stmts) seen =
    omega (arith, declare_grows (operand s) seen, variables_grow stmts (declare (operand s) seen))

Limited-bind :
    {seen seen' : List (List ℕ)} {m : Outcome Codegen} {f : Codegen → Outcome Codegen}
    → length seen ≤ length seen'
    → Limited seen m
    → ((g : Codegen) → Kept seen g → Limited seen' (f g))
    → Limited seen' (m >>= f)
Limited-bind h (within k) f = f _ k
Limited-bind h (beyond over) f = beyond (omega arith)

Limited-statements :
    (stmts : List IlStatement) {seen : List (List ℕ)} {g : Codegen}
    → Kept seen g
    → Limited (variables stmts seen) (compile_statements stmts g)
unfolding variables compile_statements
Limited-statements [] k = within k
Limited-statements (s ∷ stmts) {seen = seen} k =
    Limited-bind (variables_grow stmts (declare (operand s) seen)) (Limited-statement s k)
      (λ g k. Limited-statements stmts k)

new_codegen-Kept : Kept [] new_codegen
unfolding map_get
new_codegen-Kept = record {
  counted = refl;
  named = λ x. refl;
  used = λ x h. absurd (cc);
  limit = omega arith;
  referred = tt;
  valid = tt;
}

started : Kept [] (emit_load_imm true_reg (bool true) new_codegen)
started = Kept-emit Opcode.load _ (omega arith, (tt, tt)) new_codegen-Kept

-- Patching keeps an instruction valid, and a Halt a Halt.
patched-IsInstruction : (i : Instruction) (t : ℕ) → IsInstruction i → IsInstruction (patched i t)
unfolding patched
patched-IsInstruction i t h = cases (has_operand i.operands && is_jump i.opcode)
  where
    cases :
        (b : Bool)
        → IsInstruction
            (if b then instruction i.opcode (immediate (u32 (t % modulus w32)) ∷ []) else i)
    cases true = (omega arith, tt)
    cases false = h

is_halt-patched : (i : Instruction) (t : ℕ) → is_halt (patched i t).opcode ≡ is_halt i.opcode
unfolding patched
is_halt-patched i t = cases (has_operand i.operands && is_jump i.opcode)
  where
    cases :
        (b : Bool)
        → is_halt
            (if b then instruction i.opcode (immediate (u32 (t % modulus w32)) ∷ []) else i).opcode
          ≡ is_halt i.opcode
    cases true = refl
    cases false = refl

any_halt-set :
    (xs : List Instruction) (n : ℕ) (t : ℕ) {i : Instruction}
    → get_elem? xs n ≡ some i
    → any_halt (set xs n (patched i t)) ≡ any_halt xs
any_halt-set [] n t h = cc
any_halt-set (x ∷ xs) ℕ.zero t {i} h =
    ap (λ b. b || any_halt xs)
      (is_halt-patched i t ∙ ap (λ i. is_halt i.opcode) (sym (some-injective h)))
any_halt-set (x ∷ xs) (suc n) t h = ap (◌||◌ (is_halt x.opcode)) (any_halt-set xs n t h)

any_halt-snoc : (xs : List Instruction) → any_halt (xs ++ halt ∷ []) ≡ true
any_halt-snoc [] = refl
any_halt-snoc (x ∷ xs) = either (is_halt x.opcode) (any_halt-snoc xs)
  where
    either : (b : Bool) {c : Bool} → c ≡ true → (b || c) ≡ true
    either true h = refl
    either false h = h

-- Valid code with a Halt.
pub record IsCode (code : List Instruction) : Type 0 where
  pub valid : All IsInstruction code
  pub halts : any_halt code ≡ true

backpatch-IsCode :
    (labels : List (List ℕ × ℕ)) (halt_ip : ℕ) (refs : List (ℕ × List ℕ)) (code : List Instruction)
    → All (λ (e : ℕ × List ℕ). e.0 < length code) refs
    → IsCode code
    → Total IsCode (backpatch labels halt_ip refs code)
unfolding backpatch
backpatch-IsCode labels halt_ip [] code h c = total c
backpatch-IsCode labels halt_ip ((n, name) ∷ refs) code (inside, h) c =
    let (i, at) = get_elem?-some code n inside in
    let t = target_or halt_ip (map_get name labels) in
    rw at (
      backpatch-IsCode labels halt_ip refs (set code n (patched i t)) (kept refs (patched i t) h)
        record {
          valid =
              All-set IsInstruction code n (patched i t) c.valid
                (patched-IsInstruction i t (All-get IsInstruction code n c.valid at));
          halts = any_halt-set code n t at ∙ c.halts;
        })
  where
    kept :
        (refs : List (ℕ × List ℕ)) (i : Instruction)
        → All (λ (e : ℕ × List ℕ). e.0 < length code) refs
        → All (λ (e : ℕ × List ℕ). e.0 < length (set code n i)) refs
    kept [] i h = tt
    kept (e ∷ refs) i h = (omega (arith, h.0, length-set code n i), kept refs i h.1)

-- The result of the whole compilation.
pub data Compiled (seen : List (List ℕ)) : Outcome (List Instruction) → Type 0 where
  compiles : {code : List Instruction} → length seen ≤ 10 → IsCode code → Compiled seen (ok code)
  exceeds : 10 < length seen → Compiled seen panic

finish-Total : {seen : List (List ℕ)} (g : Codegen) → Kept seen g → Total IsCode (finish g)
finish-Total g k =
    let ended = Kept-emit Opcode.halt [] tt k in
    backpatch-IsCode g.labels _ g.label_refs (g.instructions ++ halt ∷ []) ended.referred
      record { valid = ended.valid; halts = any_halt-snoc g.instructions }

compile_ast-Compiled :
    (stmts : List IlStatement) → Compiled (variables stmts []) (compile_ast stmts)
unfolding compile_ast
compile_ast-Compiled stmts = finished (Limited-statements stmts started)
  where
    coded :
        {seen : List (List ℕ)} {m : Outcome (List Instruction)}
        → length seen ≤ 10
        → Total IsCode m
        → Compiled seen m
    coded h (total c) = compiles h c

    finished :
        {seen : List (List ℕ)} {m : Outcome Codegen} → Limited seen m → Compiled seen (m >>= finish)
    finished (within {g = g} k) = coded k.limit (finish-Total g k)
    finished (beyond h) = exceeds h

-- The compiler panics exactly where a source has more than ten different variables in the
-- statements that take a register, and compiles every other source.
pub il_compile_panics :
    (source : List ℕ)
    → (il_compile source ≡ panic) ↔ (10 < length (variables (parse (tokenize source)) []))
unfolding il_compile
il_compile_panics source = go _ (compile_ast-Compiled (parse (tokenize source)))
  where
    go :
        {seen : List (List ℕ)} {m : Outcome (List Instruction)} (k : List Instruction → HalProgram)
        → Compiled seen m
        → ((m >>= λ code. ok (k code)) ≡ panic) ↔ (10 < length seen)
    go k (compiles h c) = ((λ e. absurd (cc)), (λ over. absurd (omega arith)))
    go k (exceeds over) = ((λ e. over), (λ h. refl))

-- The program of a source that compiles is well formed, and each of its immediates is in range.
pub il_compile-IsProgram :
    (source : List ℕ) → Post (λ p. IsProgram p × (is_well_formed p ≡ true)) (il_compile source)
unfolding il_compile is_well_formed
il_compile-IsProgram source =
    go _ (compile_ast-Compiled (parse (tokenize source))) (λ code c. (c.valid, c.halts))
  where
    go :
        {seen : List (List ℕ)} {m : Outcome (List Instruction)} (k : List Instruction → HalProgram)
        → Compiled seen m
        → ((code : List Instruction)
            → IsCode code
            → IsProgram (k code) × (any_halt (k code).instructions ≡ true))
        → Post (λ p. IsProgram p × (any_halt p.instructions ≡ true)) (m >>= λ code. ok (k code))
    go k (compiles h c) f = returns (f _ c)
    go k (exceeds over) f = panics
