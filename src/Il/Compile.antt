-- ===== src/Il/Compile.antt =====
-- crates/audesys-il-compiler/src/lib.rs: from a source to a program.
pub mod Signals
use audesys.Base.{
  ℕ, Bool, false, List, [], ◌∷◌, map, ◌||◌, Option, none, some, if◌then◌else◌, Outcome, ok, ◌>>=◌,
  bytes_eq, codes,
}
use audesys.Hal.PinType.{HalPinType}
use audesys.Ir.Instr.{Operand, signal_name, Opcode, Instruction}
use audesys.Ir.Program.{Direction, SignalBinding, HalProgram, new_program}
use audesys.Il.Lexer.{tokenize}
use audesys.Il.Parser.{parse}
use audesys.Il.Codegen.{compile_ast}

-- The signal that a store names in its first operand.
abbrev pub stored : Opcode → List Operand → Option (List ℕ)
stored Opcode.store (signal_name name ∷ _) = some name
stored _ _ = none

-- Whether `seen` has the name.
abbrev pub seen_before : List ℕ → List (List ℕ) → Bool
seen_before name [] = false
seen_before name (n ∷ seen) = bytes_eq n name || seen_before name seen

abbrev pub bind_signal : List ℕ → SignalBinding
bind_signal name = record {
  hal_signal_name = name;
  program_var = name;
  direction = Direction.write;
  hal_pin_type = HalPinType.s32;
}

-- The name that a store is the first to use.
abbrev pub new_name : Option (List ℕ) → List (List ℕ) → Option (List ℕ)
new_name none seen = none
new_name (some name) seen = if seen_before name seen then none else some name

-- The names that the loop over the instructions binds, with those it has seen.
unfoldable pub bind_names : List (List ℕ) → List Instruction → List (List ℕ)
bind_names seen [] = []
bind_names seen (i ∷ is) = elim (new_name (stored i.opcode i.operands) seen) [
  | none ↦ bind_names seen is
  | some name ↦ name ∷ bind_names (name ∷ seen) is
]

unfoldable pub il_compile : List ℕ → Outcome HalProgram
il_compile source = compile_ast (parse (tokenize source)) >>= λ instructions.
    ok (record (new_program (codes "il_program") instructions) {
      signals = map bind_signal (bind_names [] instructions);
    })
