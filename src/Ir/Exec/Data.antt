-- ===== src/Ir/Exec/Data.antt =====
-- crates/audesys-hal-ir/src/executor.rs: loads, stores, arithmetic, comparison and array access.
pub mod Frame
pub mod Division
use audesys.Base.{
  ℕ, Bool, false, ◌||◌, List, ◌∷◌, Option, none, some, if◌then◌else◌, Outcome, ok, ◌>>=◌,
}
use audesys.Base.Words.{pos, w64, to_bits}
use audesys.Hal.Platform.{Platform}
use audesys.Hal.Value.{HalValue, bool, s8, u8, s16, u16, s32, u32, s64, u64, f32, f64}
use audesys.Hal.Value.Arith.{hal_binop, div_op, rem_op}
use audesys.Hal.Value.Order.{hal_eq}
use audesys.Hal.Value.Elements.{index, set_index}
use audesys.Ir.Instr.{Operand, register, immediate, signal_name}
use audesys.Ir.Vm.State.{Vm, read_register, set_flags_zero, write_signal, read_signal}
use audesys.Ir.Exec.Common.{
  Exec, continue_with, on_register, read_reg, dest_reg, write_and_continue,
}

abbrev pub or_false : Option HalValue → HalValue
or_false (some v) = v
or_false none = bool false

unfoldable pub load_source : Vm → Operand → Outcome HalValue
load_source vm (immediate v) = ok v
load_source vm (register r) = read_register vm r
load_source vm (signal_name name) = ok (or_false (read_signal vm name))

unfoldable pub exec_load : List Operand → Vm → Exec
exec_load (dest ∷ source ∷ _) vm =
    on_register dest (continue_with vm)
      λ r. do value ← load_source vm source; write_and_continue vm r value
exec_load _ vm = continue_with vm

-- `*n as usize`: a negative number is sign-extended to 64 bits.
unfoldable pub value_as_usize : HalValue → ℕ
value_as_usize (s32 n) = to_bits w64 n
value_as_usize (s16 n) = to_bits w64 n
value_as_usize (s8 n) = to_bits w64 n
value_as_usize (u32 n) = n
value_as_usize (u16 n) = n
value_as_usize (u8 n) = n
value_as_usize (s64 n) = to_bits w64 n
value_as_usize (u64 n) = n
value_as_usize _ = 0

unfoldable pub exec_binop : (HalValue → HalValue → Outcome HalValue) → List Operand → Vm → Exec
exec_binop f (a ∷ b ∷ out ∷ _) vm = do
  x ← read_reg vm a
  y ← read_reg vm b
  z ← f x y
  write_and_continue vm (dest_reg out) z
exec_binop f _ vm = continue_with vm

unfoldable pub exec_unary : (HalValue → Outcome HalValue) → List Operand → Vm → Exec
exec_unary f (a ∷ out ∷ _) vm = do
  x ← read_reg vm a
  z ← f x
  write_and_continue vm (dest_reg out) z
exec_unary f _ vm = continue_with vm

unfoldable pub exec_compare : (HalValue → HalValue → Bool) → List Operand → Vm → Exec
exec_compare f (a ∷ b ∷ _) vm = do
  x ← read_reg vm a
  y ← read_reg vm b
  continue_with (set_flags_zero vm (f x y))
exec_compare f _ vm = continue_with vm

unfoldable pub exec_load_index : Platform → List Operand → Vm → Exec
exec_load_index pl (dest ∷ array ∷ idx ∷ _) vm = on_register dest (continue_with vm) λ d.
    on_register array (continue_with vm) λ a. on_register idx (continue_with vm) λ i. do
      v ← read_register vm a
      n ← read_register vm i
      elem ← index pl v (value_as_usize n)
      write_and_continue vm d elem
exec_load_index pl _ vm = continue_with vm

unfoldable pub exec_store_index : Platform → List Operand → Vm → Exec
exec_store_index pl (array ∷ idx ∷ value ∷ _) vm = on_register array (continue_with vm) λ a.
    on_register idx (continue_with vm) λ i. on_register value (continue_with vm) λ r. do
      v ← read_register vm a
      n ← read_register vm i
      x ← read_register vm r
      updated ← set_index pl v (value_as_usize n) x
      write_and_continue vm a updated
exec_store_index pl _ vm = continue_with vm

unfoldable pub exec_store : List Operand → Vm → Exec
exec_store (signal_name name ∷ source ∷ _) vm = do
  value ← read_reg vm source
  continue_with (write_signal vm name value)
exec_store _ vm = continue_with vm

-- The guard of `Div` and `Mod`: of the integers it tests `S32` alone.
unfoldable pub is_zero_divisor : HalValue → Bool
is_zero_divisor b = hal_eq b (s32 (pos 0)) || hal_eq b (f32 0) || hal_eq b (f64 0)

unfoldable pub div_or_zero : Platform → HalValue → HalValue → Outcome HalValue
unfolding is_zero_divisor
div_or_zero pl a b = if is_zero_divisor b then ok (s32 (pos 0)) else hal_binop (div_op pl) a b

unfoldable pub rem_or_zero : Platform → HalValue → HalValue → Outcome HalValue
unfolding is_zero_divisor
rem_or_zero pl a b = if is_zero_divisor b then ok (s32 (pos 0)) else hal_binop (rem_op pl) a b
