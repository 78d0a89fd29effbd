-- ===== src/Ir/Exec/Data/Frame.antt =====
-- The instruction pointer under the instructions on values.
use audesys.Base.{refl, List, ◌∷◌, Outcome, returns, Bool}
use audesys.Hal.Platform.{Platform}
use audesys.Hal.Value.{HalValue}
use audesys.Hal.Value.Elements.{index, set_index}
use audesys.Ir.Instr.{Operand, signal_name}
use audesys.Ir.Vm.State.{Vm, read_register, write_signal}
use audesys.Ir.Exec.Common.{read_reg, dest_reg}
use audesys.Ir.Exec.Data.{
  exec_load, exec_load_index, exec_store_index, exec_binop, exec_unary, exec_compare, exec_store,
  load_source, value_as_usize,
}
use audesys.Ir.Exec.Common.Frame.{Stays, here, on_register-Stays, after_any, write-Stays}

pub exec_load-Stays : (ops : List Operand) (vm : Vm) → Stays vm.ip vm.call_stack (exec_load ops vm)
unfolding exec_load
exec_load-Stays (dest ∷ source ∷ _) vm =
    on_register-Stays dest _ _ (here vm)
      λ r. after_any (load_source vm source) λ v. write-Stays vm r v
exec_load-Stays _ vm = here vm

pub exec_load_index-Stays :
    (pl : Platform) (ops : List Operand) (vm : Vm)
    → Stays vm.ip vm.call_stack (exec_load_index pl ops vm)
unfolding exec_load_index
exec_load_index-Stays pl (dest ∷ array ∷ idx ∷ _) vm = on_register-Stays dest _ _ (here vm) λ d.
    on_register-Stays array _ _ (here vm) λ a. on_register-Stays idx _ _ (here vm) λ i.
      after_any (read_register vm a) λ v.
        after_any (read_register vm i)
          λ n. after_any (index pl v (value_as_usize n)) λ e. write-Stays vm d e
exec_load_index-Stays pl _ vm = here vm

pub exec_store_index-Stays :
    (pl : Platform) (ops : List Operand) (vm : Vm)
    → Stays vm.ip vm.call_stack (exec_store_index pl ops vm)
unfolding exec_store_index
exec_store_index-Stays pl (array ∷ idx ∷ value ∷ _) vm = on_register-Stays array _ _ (here vm) λ a.
    on_register-Stays idx _ _ (here vm) λ i. on_register-Stays value _ _ (here vm) λ r.
      after_any (read_register vm a) λ v. after_any (read_register vm i) λ n.
        after_any (read_register vm r)
          λ x. after_any (set_index pl v (value_as_usize n) x) λ u. write-Stays vm a u
exec_store_index-Stays pl _ vm = here vm

pub exec_binop-Stays :
    (f : HalValue → HalValue → Outcome HalValue) (ops : List Operand) (vm : Vm)
    → Stays vm.ip vm.call_stack (exec_binop f ops vm)
unfolding exec_binop
exec_binop-Stays f (a ∷ b ∷ out ∷ _) vm =
    after_any (read_reg vm a)
      λ x. after_any (read_reg vm b) λ y. after_any (f x y) λ z. write-Stays vm (dest_reg out) z
exec_binop-Stays f _ vm = here vm

pub exec_unary-Stays :
    (f : HalValue → Outcome HalValue) (ops : List Operand) (vm : Vm)
    → Stays vm.ip vm.call_stack (exec_unary f ops vm)
unfolding exec_unary
exec_unary-Stays f (a ∷ out ∷ _) vm =
    after_any (read_reg vm a) λ x. after_any (f x) λ z. write-Stays vm (dest_reg out) z
exec_unary-Stays f _ vm = here vm

pub exec_compare-Stays :
    (f : HalValue → HalValue → Bool) (ops : List Operand) (vm : Vm)
    → Stays vm.ip vm.call_stack (exec_compare f ops vm)
unfolding exec_compare
exec_compare-Stays f (a ∷ b ∷ _) vm =
    after_any (read_reg vm a) λ x. after_any (read_reg vm b) λ y. returns (refl, refl, refl)
exec_compare-Stays f _ vm = here vm

pub exec_store-Stays :
    (ops : List Operand) (vm : Vm) → Stays vm.ip vm.call_stack (exec_store ops vm)
unfolding exec_store write_signal
exec_store-Stays (signal_name name ∷ source ∷ _) vm =
    after_any (read_reg vm source) λ v. returns (refl, refl, refl)
exec_store-Stays _ vm = here vm
