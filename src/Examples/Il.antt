-- ===== src/Examples/Il.antt =====
-- Instruction List: examples.
use audesys.Base.{
  ℕ, ◌+◌, ◌<◌, ◌≡◌, ◌↔◌, refl, arith, true, List, [], ◌∷◌, ◌++◌, length, codes, map_get, map_insert,
  panic, Post,
}
use audesys.Base.Words.{pos}
use audesys.Hal.Value.{bool, s32}
use audesys.Ir.Instr.{register, signal_name, Opcode, instruction}
use audesys.Ir.Build.{halt, load_imm}
use audesys.Ir.Program.{HalProgram, IsProgram, is_well_formed, new_program}
use audesys.Ir.Vm.State.{new_vm}
use audesys.Ir.Machine.{new_executor, run_to_halt}
use audesys.Ir.Machine.Halting.{EndsWithin}
use audesys.Il.Lexer.{
  tokenize, lines_tokens, lines_from, line_tokens, trim_start, trim_end, blank,
  remove_inline_comments, split_from, parts_tokens, strip_colon, parse_mnemonic, to_uppercase,
  upper, is_whitespace,
}
use audesys.Il.Lexer.Words.{plain}
use audesys.Il.Parser.RoundTrip.{tokens_of}
use audesys.Hal.Value.Arith.{hal_not}
use audesys.Il.Parser.{
  CompareOp, IlStatement, load, cmp, label_name, jump, parse, parse_from, start_of,
}
use audesys.Il.Codegen.{
  new_codegen, emit_cmp, cr_reg, compare_opcode, materialize_cr_from_flags, compile_ast,
  compile_statements, compile_statement, with_var, get_var_reg, backpatch, patched,
}
use audesys.Il.Codegen.Running.{with_vm}
use audesys.Il.Halting.{il_compile-EndsWithin}
use audesys.Il.Compile.{il_compile, bind_signal, bind_names, seen_before}
use audesys.Il.Compile.Signals.{IsDistinct, bound_names, stores, il_compile-bound_names}
use audesys.Il.Compare.{compares, compared, steps_of, materialize_cr_from_flags-compared}
use audesys.Il.Running.{EndsAs, il_compile-EndsAs}
use audesys.Il.Scan.{Scan, start, accumulate, fetch, run_statement, run_statements}
use audesys.Il.Limits.{variables}
use audesys.Il.Limits.Programs.{il_compile_panics, il_compile-IsProgram}
use audesys.Il.Source.{source_of, is_named, parse-tokenize-source_of}
use audesys.Examples.{debug_build}

-- The negation of an input is put out.
abbrev inverter : List ℕ
inverter = codes "LDN X1\nST Y1"

abbrev inverter_program : HalProgram
inverter_program =
    record (new_program (codes "il_program") (
      load_imm 15 (bool true)
      ∷ instruction Opcode.load (register 0 ∷ signal_name (codes "X1") ∷ [])
      ∷ instruction Opcode.load (register 14 ∷ register 0 ∷ [])
      ∷ instruction Opcode.not (register 14 ∷ register 14 ∷ [])
      ∷ instruction Opcode.store (signal_name (codes "Y1") ∷ register 14 ∷ [])
      ∷ halt
      ∷ [])) { signals = bind_signal (codes "Y1") ∷ [] }

abbrev inverted : Scan
inverted = record (accumulate (bool true) (fetch (codes "X1") start)) {
  signals = (codes "Y1", bool true) ∷ [];
}

il_compile-EndsAs_example : EndsAs debug_build inverter_program inverted
unfolding tokenize lines_tokens lines_from line_tokens trim_start trim_end blank
    remove_inline_comments split_from parts_tokens strip_colon parse_mnemonic to_uppercase upper
    is_whitespace map_get parse_from start_of il_compile compile_ast compile_statements
    compile_statement with_var get_var_reg map_insert backpatch patched bind_names run_statements
    run_statement hal_not
il_compile-EndsAs_example = il_compile-EndsAs debug_build inverter (refl, (refl, tt)) refl refl

-- A comparison of two zeros, and the Halt behind it.
abbrev comparing : HalProgram
comparing = new_program [] (
    (materialize_cr_from_flags (emit_cmp Opcode.gt cr_reg 0 new_codegen)).instructions ++ halt ∷ [])

materialize_cr_from_flags-compared_example :
    run_to_halt debug_build
      (steps_of (compares CompareOp.greater (s32 (pos 0)) (s32 (pos 0))) + 7)
      (with_vm comparing new_vm)
      0
    ≡ run_to_halt debug_build 7
        (with_vm comparing (
          compared
            (materialize_cr_from_flags
              (emit_cmp (compare_opcode CompareOp.greater) cr_reg 0 new_codegen))
            (compares CompareOp.greater (s32 (pos 0)) (s32 (pos 0)))
            new_vm))
        (0 + steps_of (compares CompareOp.greater (s32 (pos 0)) (s32 (pos 0))))
unfolding new_vm compare_opcode
materialize_cr_from_flags-compared_example =
    materialize_cr_from_flags-compared debug_build CompareOp.greater 0 new_codegen comparing
      (halt ∷ []) new_vm (omega arith) refl refl (omega arith, refl) (omega arith, refl) 7 0

-- Eleven inputs.
abbrev crowded : List ℕ
crowded = codes "LD A\nLD B\nLD C\nLD D\nLD E\nLD F\nLD G\nLD H\nLD I\nLD J\nLD K"

il_compile_panics_example :
    (il_compile crowded ≡ panic) ↔ (10 < length (variables (parse (tokenize crowded)) []))
il_compile_panics_example = il_compile_panics crowded

il_compile-IsProgram_example :
    Post (λ p. IsProgram p × (is_well_formed p ≡ true)) (il_compile inverter)
il_compile-IsProgram_example = il_compile-IsProgram inverter

il_compile-EndsWithin_example :
    Post (EndsWithin 6) (run_to_halt debug_build 7 (new_executor inverter_program) 0)
unfolding tokenize lines_tokens lines_from line_tokens trim_start trim_end blank
    remove_inline_comments split_from parts_tokens strip_colon parse_mnemonic to_uppercase upper
    is_whitespace map_get parse_from start_of il_compile compile_ast compile_statements
    compile_statement with_var get_var_reg map_insert backpatch patched bind_names
il_compile-EndsWithin_example =
    il_compile-EndsWithin debug_build inverter 7 (new_executor inverter_program) (tt, (tt, tt)) refl
      (omega arith) refl refl (omega arith)

-- A loop on a comparison.
abbrev loop : List IlStatement
loop =
    label_name (codes "again")
    ∷ load (codes "X1")
    ∷ cmp CompareOp.greater (codes "X2")
    ∷ jump (codes "again")
    ∷ []

parse-tokenize-source_of_example : parse (tokenize (source_of loop)) ≡ loop
unfolding tokens_of is_named plain is_whitespace
parse-tokenize-source_of_example =
    parse-tokenize-source_of loop
      ((refl, tt), ((refl, (refl, tt)), ((refl, (refl, tt)), ((refl, (refl, tt)), tt))))

il_compile-bound_names_example :
    Post
      (λ p.
        IsDistinct (bound_names p)
        × ((x : List ℕ) → seen_before x (bound_names p) ≡ stores x p.instructions))
      (il_compile inverter)
il_compile-bound_names_example = il_compile-bound_names inverter
