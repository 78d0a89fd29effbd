-- ===== src/Il/Codegen/Effects.antt =====
-- What the instructions that crates/audesys-il-compiler/src/codegen.rs emits for straight-line
-- statements do to the machine.
use audesys.Base.{
  ℕ, ◌<◌, ◌≡◌, lt→ltb, List, [], ◌∷◌, some, get_elem?, set, Outcome, ok, map_get, map_insert,
}
use audesys.Hal.Platform.{Platform}
use audesys.Hal.Value.{HalValue}
use audesys.Hal.Value.Arith.{hal_not}
use audesys.Ir.Instr.{register, immediate, signal_name, Opcode}
use audesys.Ir.Vm.State.{
  Vm, read_register, write_register, read_signal, write_signal, register_count,
}
use audesys.Ir.Exec.Common.{continue_with, read_reg}
use audesys.Ir.Exec.Data.{exec_load, exec_binop, exec_unary, exec_store, load_source, or_false}
use audesys.Ir.Exec.{execute_opcode}

abbrev pub put : ℕ → HalValue → Vm → Vm
put r v vm = record vm { registers = set vm.registers r v }

-- The machine has the value in the register.
abbrev pub InRegister : Vm → ℕ → HalValue → Type 0
InRegister vm r v = (r < register_count) × (get_elem? vm.registers r ≡ some v)

module _ (vm : Vm) where
  pub load_register :
      (pl : Platform) (dest src : ℕ) {v : HalValue}
      → dest < register_count
      → InRegister vm src v
      → execute_opcode pl Opcode.load (register dest ∷ register src ∷ []) vm
        ≡ continue_with (put dest v vm)
  unfolding execute_opcode exec_load load_source read_register write_register
  load_register pl dest src fits (inside, at) =
      rw (lt→ltb src register_count inside, at, lt→ltb dest register_count fits)

  pub load_immediate :
      (pl : Platform) (dest : ℕ) (v : HalValue)
      → dest < register_count
      → execute_opcode pl Opcode.load (register dest ∷ immediate v ∷ []) vm
        ≡ continue_with (put dest v vm)
  unfolding execute_opcode exec_load load_source write_register
  load_immediate pl dest v fits = rw (lt→ltb dest register_count fits)

  pub load_signal :
      (pl : Platform) (dest : ℕ) (name : List ℕ)
      → dest < register_count
      → execute_opcode pl Opcode.load (register dest ∷ signal_name name ∷ []) vm
        ≡ continue_with (put dest (or_false (map_get name vm.signals)) vm)
  unfolding execute_opcode exec_load load_source write_register read_signal
  load_signal pl dest name fits = rw (lt→ltb dest register_count fits)

  pub exec_binop_lem :
      (f : HalValue → HalValue → Outcome HalValue) (a b out : ℕ) {x y z : HalValue}
      → InRegister vm a x
      → InRegister vm b y
      → out < register_count
      → f x y ≡ ok z
      → exec_binop f (register a ∷ register b ∷ register out ∷ []) vm ≡ continue_with (put out z vm)
  unfolding exec_binop read_reg read_register write_register
  exec_binop_lem f a b out (inside, at) (inside', at') fits does = rw (
    lt→ltb a register_count inside,
    at,
    lt→ltb b register_count inside',
    at',
    does,
    lt→ltb out register_count fits,
  )

  pub invert_register :
      (pl : Platform) (a out : ℕ) {x : HalValue}
      → InRegister vm a x
      → out < register_count
      → execute_opcode pl Opcode.not (register a ∷ register out ∷ []) vm
        ≡ continue_with (put out (hal_not x) vm)
  unfolding execute_opcode exec_unary read_reg read_register write_register
  invert_register pl a out (inside, at) fits =
      rw (lt→ltb a register_count inside, at, lt→ltb out register_count fits)

  pub store_signal :
      (pl : Platform) (name : List ℕ) (r : ℕ) {v : HalValue}
      → InRegister vm r v
      → execute_opcode pl Opcode.store (signal_name name ∷ register r ∷ []) vm
        ≡ continue_with (record vm { signals = map_insert name v vm.signals })
  unfolding execute_opcode exec_store read_reg read_register write_signal
  store_signal pl name r (inside, at) = rw (lt→ltb r register_count inside, at)
