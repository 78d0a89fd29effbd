-- ===== src/Il/Running.antt =====
-- crates/audesys-il-compiler/src/lib.rs: a compiled straight-line source on the machine.
use audesys.Base.{
  ℕ, map, codes, suc, ◌+◌, ◌<◌, ◌≡◌, refl, ◌∙◌, ap, ap₂, bind-ok, subst, true, List, [], ◌∷◌, ◌++◌,
  some, length, length-append, get_elem?, get_elem?-append_length, lt→ltb, replicate, ok, Post,
  returns, Post-bind, Post-ok, arith, All, map_get,
}
use audesys.Base.Words.{pos}
use audesys.Hal.Platform.{Platform}
use audesys.Hal.Value.{bool, s32}
use audesys.Ir.Instr.{Instruction, Opcode, instruction}
use audesys.Ir.Program.{HalProgram, new_program}
use audesys.Ir.Vm.State.{Vm, new_vm, advance_ip, read_register}
use audesys.Ir.Exec.{execute_opcode}
use audesys.Ir.Machine.{
  Executor, new_executor, step, run_instruction, run_to_halt, record_trace, settle_ip,
}
use audesys.Il.Lexer.{tokenize}
use audesys.Il.Parser.{IlStatement, parse}
use audesys.Il.Codegen.{
  Codegen, new_codegen, emit_load_imm, true_reg, cr_reg, compile_statements, compile_ast, backpatch,
}
use audesys.Il.Codegen.Registers.{new_codegen-IsAllocated}
use audesys.Il.Codegen.Running.{with_vm}
use audesys.Il.Codegen.Effects.{put, load_immediate}
use audesys.Il.Codegen.Tracking.{Tracks, put-spare}
use audesys.Il.Codegen.Emission.{Tracked, Tracks-emit}
use audesys.Il.Codegen.Straight.{Tracked-statement}
use audesys.Il.Compile.{bind_signal, bind_names, il_compile}
use audesys.Il.Scan.{Scan, start, is_straight, run_statement, run_statements}

-- A program that only loads, stores and combines.
abbrev pub IsStraight : List IlStatement → Type 0
IsStraight = All (λ s. is_straight s ≡ true)

module _ {pl : Platform} where
  new_codegen-Tracks : Tracks pl new_codegen new_vm start
  unfolding new_vm map_get
  new_codegen-Tracks = record {
    allocated = new_codegen-IsAllocated;
    no_refs = refl;
    ran = record {
      at_end = refl;
      runs = λ p rest fuel steps e.
          ap₂ (λ n m. run_to_halt pl n (new_executor p) m) (left_zero fuel) (right_zero steps);
    };
    registers = record {
      sixteen = refl;
      current = refl;
      same_signals = refl;
      held = λ x h. absurd (cc);
      unset = λ x h. refl;
      free = λ r h k. all_zero 16 r (omega arith);
    };
  }
    where
      left_zero : (n : ℕ) → 0 + n ≡ n
      left_zero n = omega arith

      right_zero : (n : ℕ) → n ≡ n + 0
      right_zero n = omega arith

      all_zero : (n r : ℕ) → r < n → get_elem? (replicate n (s32 (pos 0))) r ≡ some (s32 (pos 0))
      all_zero ℕ.zero r h = elim h [ ]
      all_zero (suc n) ℕ.zero h = refl
      all_zero (suc n) (suc r) h = all_zero n r (omega arith)

  started : Tracked pl (emit_load_imm true_reg (bool true) new_codegen) start
  started = (
    _,
    Tracks-emit (put true_reg (bool true) new_vm) Opcode.load _ new_codegen-Tracks
        (load_immediate new_vm pl true_reg (bool true) (omega arith)) refl refl
        (put-spare true_reg (bool true) (omega arith) (λ e. absurd (omega arith))
          new_codegen-IsAllocated new_codegen-Tracks.registers),
  )

  Tracked-statements :
      (stmts : List IlStatement) {g : Codegen} {σ σ' : Scan}
      → IsStraight stmts
      → Tracked pl g σ
      → run_statements pl stmts σ ≡ ok σ'
      → Post (λ g'. Tracked pl g' σ') (compile_statements stmts g)
  unfolding compile_statements run_statements
  Tracked-statements [] {σ = σ} h t e =
      returns (subst (Tracked pl _) (Post-ok {P = λ s. σ ≡ s} (returns refl) e) t)
  Tracked-statements (s ∷ stmts) {σ = σ} (straight, h) (vm, t) e =
      let (τ, first, rest) = bind-ok (run_statement pl s σ) e in
      Post-bind (Tracked-statement s straight t first) λ g' t'. Tracked-statements stmts h t' rest

-- The last step, at the Halt.
halting :
    (pl : Platform) (p : HalProgram) (vm : Vm) (fuel steps : ℕ)
    → vm.ip < length p.instructions
    → get_elem? p.instructions vm.ip ≡ some (instruction Opcode.halt [])
    → run_to_halt pl (suc fuel) (with_vm p vm) steps
      ≡ ok (some (with_vm p (advance_ip vm), steps + 1))
unfolding run_to_halt step run_instruction execute_opcode record_trace settle_ip
halting pl p vm fuel steps inside at = rw (lt→ltb vm.ip (length p.instructions) inside, at)

-- The machine ends after as many steps as the program has instructions, with the signals and the
-- accumulator of the scan.
pub record EndsAs (pl : Platform) (p : HalProgram) (σ : Scan) : Type 0 where
  pub last : Executor
  pub ends :
      (fuel : ℕ)
      → run_to_halt pl (length p.instructions + fuel) (new_executor p) 0
        ≡ ok (some (last, length p.instructions))
  pub same_signals : last.vm.signals ≡ σ.signals
  pub same_result : read_register last.vm cr_reg ≡ ok σ.accumulator

finished :
    {pl : Platform} {g : Codegen} {σ : Scan} (p : HalProgram)
    → Tracked pl g σ
    → p.instructions ≡ g.instructions ++ instruction Opcode.halt [] ∷ []
    → EndsAs pl p σ
unfolding read_register
finished {pl = pl} {g = g} p (vm, t) e = record {
  last = with_vm p (advance_ip vm);
  ends = λ fuel.
      ap (λ n. run_to_halt pl n (new_executor p) 0) (shift fuel)
      ∙ t.ran.runs p _ (suc fuel) 0 e
      ∙ halting pl p vm fuel (0 + length g.instructions) (omega (arith, t.ran.at_end, size)) at
      ∙ ap (λ n. ok (some (with_vm p (advance_ip vm), n))) (omega (arith, size));
  same_signals = t.registers.same_signals;
  same_result = rw (t.registers.current) refl;
}
  where
    size : length p.instructions ≡ length g.instructions + 1
    size = rw e (length-append g.instructions (instruction Opcode.halt [] ∷ []))

    shift : (fuel : ℕ) → length p.instructions + fuel ≡ length g.instructions + suc fuel
    shift fuel = omega (arith, size)

    at : get_elem? p.instructions vm.ip ≡ some (instruction Opcode.halt [])
    at =
        rw (e, t.ran.at_end)
          (get_elem?-append_length g.instructions (instruction Opcode.halt []) [])

compile_ast-EndsAs :
    {pl : Platform} {σ : Scan} (stmts : List IlStatement)
    → IsStraight stmts
    → run_statements pl stmts start ≡ ok σ
    → Post (λ code. (p : HalProgram) → p.instructions ≡ code → EndsAs pl p σ) (compile_ast stmts)
unfolding compile_ast backpatch
compile_ast-EndsAs {pl = pl} {σ = σ} stmts h e =
    Post-bind (Tracked-statements stmts h started e)
      λ g (vm, t). rw (t.no_refs) (returns (λ p same. finished p (vm, t) same))

-- Where a source that neither compares nor jumps compiles, and its statements mean a scan that
-- does not panic, the program runs to its Halt in as many steps as it has instructions, whatever
-- fuel is left, and leaves the signals and the accumulator of the scan.
pub il_compile-EndsAs :
    (pl : Platform) (source : List ℕ) {σ : Scan} {p : HalProgram}
    → IsStraight (parse (tokenize source))
    → run_statements pl (parse (tokenize source)) start ≡ ok σ
    → il_compile source ≡ ok p
    → EndsAs pl p σ
unfolding il_compile
il_compile-EndsAs pl source {σ = σ} h e = Post-ok {P = λ p. EndsAs pl p σ} (
    Post-bind (compile_ast-EndsAs (parse (tokenize source)) h e)
      (λ code ends. returns (ends (bound code) refl)))
  where
    bound : List Instruction → HalProgram
    bound code = record (new_program (codes "il_program") code) {
      signals = map bind_signal (bind_names [] code);
    }
