-- ===== src/Il/Scan.antt =====
-- What a statement of a straight-line program means, for the code that
-- crates/audesys-il-compiler/src/codegen.rs makes of it: the accumulator, the signals, and for each
-- variable the value that was fetched or set last.
use audesys.Base.{ℕ, Bool, true, false, List, [], ◌∷◌, Outcome, ok, ◌>>=◌, bytes_eq, if◌then◌else◌}
use audesys.Base.Words.{pos}
use audesys.Hal.Platform.{Platform}
use audesys.Hal.Value.{HalValue, bool, s32}
use audesys.Hal.Value.Arith.{
  hal_binop, add_op, sub_op, mul_op, hal_bitop, and_op, or_op, xor_op, hal_not,
}
use audesys.Base.{map_get, map_insert}
use audesys.Ir.Exec.Data.{div_or_zero, rem_or_zero, or_false}
use audesys.Il.Parser.{
  IlStatement, load, load_not, store, and_var, and_not, or_var, or_not, xor_var, add_var, sub_var,
  mul_var, div_var, mod_var, set_var, reset_var, invert, cmp, jump, jump_if, jump_if_not, call,
  return,
}

pub record Scan : Type 0 where
  pub accumulator : HalValue
  pub variables : List ℕ → HalValue
  pub signals : List (List ℕ × HalValue)

abbrev pub start : Scan
start = record { accumulator = s32 (pos 0); variables = λ _. s32 (pos 0); signals = [] }

-- The variable gets a value.
abbrev pub hold : List ℕ → HalValue → Scan → Scan
hold x v σ = record σ { variables = λ y. if bytes_eq x y then v else σ.variables y }

abbrev pub signal : Scan → List ℕ → HalValue
signal σ x = or_false (map_get x σ.signals)

-- The variable gets the value of the signal.
abbrev pub fetch : List ℕ → Scan → Scan
fetch x σ = hold x (signal σ x) σ

abbrev pub accumulate : HalValue → Scan → Scan
accumulate v σ = record σ { accumulator = v }

-- The accumulator is combined with a value.
abbrev pub combine : (HalValue → HalValue → Outcome HalValue) → HalValue → Scan → Outcome Scan
combine f v σ = f σ.accumulator v >>= λ w. ok (accumulate w σ)

abbrev pub and_values : HalValue → HalValue → Outcome HalValue
and_values a b = ok (hal_bitop and_op a b)

abbrev pub or_values : HalValue → HalValue → Outcome HalValue
or_values a b = ok (hal_bitop or_op a b)

abbrev pub xor_values : HalValue → HalValue → Outcome HalValue
xor_values a b = ok (hal_bitop xor_op a b)

-- Whether the statement neither jumps nor compares.
abbrev pub is_straight : IlStatement → Bool
is_straight (cmp op x) = false
is_straight (jump l) = false
is_straight (jump_if l) = false
is_straight (jump_if_not l) = false
is_straight (call l) = false
is_straight return = false
is_straight _ = true

unfoldable pub run_statement : Platform → IlStatement → Scan → Outcome Scan
run_statement pl (load x) σ = ok (accumulate (signal σ x) (fetch x σ))
run_statement pl (load_not x) σ = ok (accumulate (hal_not (signal σ x)) (fetch x σ))
run_statement pl (store x) σ = ok (record σ { signals = map_insert x σ.accumulator σ.signals })
run_statement pl (and_var x) σ = combine and_values (signal σ x) (fetch x σ)
run_statement pl (and_not x) σ = combine and_values (hal_not (signal σ x)) (fetch x σ)
run_statement pl (or_var x) σ = combine or_values (σ.variables x) σ
run_statement pl (or_not x) σ = combine or_values (hal_not (σ.variables x)) σ
run_statement pl (xor_var x) σ = combine xor_values (σ.variables x) σ
run_statement pl (add_var x) σ = combine (hal_binop (add_op pl)) (σ.variables x) σ
run_statement pl (sub_var x) σ = combine (hal_binop (sub_op pl)) (σ.variables x) σ
run_statement pl (mul_var x) σ = combine (hal_binop (mul_op pl)) (σ.variables x) σ
run_statement pl (div_var x) σ = combine (div_or_zero pl) (σ.variables x) σ
run_statement pl (mod_var x) σ = combine (rem_or_zero pl) (σ.variables x) σ
run_statement pl (set_var x) σ = ok (hold x (bool true) σ)
run_statement pl (reset_var x) σ = ok (hold x (bool false) σ)
run_statement pl invert σ = ok (accumulate (hal_not σ.accumulator) σ)
run_statement pl _ σ = ok σ

unfoldable pub run_statements : Platform → List IlStatement → Scan → Outcome Scan
run_statements pl [] σ = ok σ
run_statements pl (s ∷ stmts) σ = run_statement pl s σ >>= run_statements pl stmts
