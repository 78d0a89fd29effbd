-- ===== src/Ir/Exec/Blocks/Frame.antt =====
-- The instruction pointer under the instructions on function blocks.
use audesys.Base.{refl, List, ◌∷◌, inl, inr, returns, expect, get_elem?, Option-cases}
use audesys.Hal.Platform.{Platform}
use audesys.Ir.Instr.{Operand}
use audesys.Ir.Vm.Timer.{TimerKind}
use audesys.Ir.Vm.Counter.{CounterKind, run_counter}
use audesys.Ir.Vm.Latch.{SrKind}
use audesys.Ir.Vm.State.{Vm, read_register, grow_timers, grow_counters, grow_srs, grow_edges}
use audesys.Ir.Exec.Common.{bool_input, u32_or_zero}
use audesys.Ir.Exec.Blocks.{
  exec_timer_run, exec_read_timer, exec_counter_run, exec_read_counter, exec_sr_run, exec_read_sr,
  exec_edge_run, exec_read_edge, step_timer, step_counter, timer_kind_operand, preset_operand,
  sr_kind,
}
use audesys.Ir.Exec.Common.Frame.{
  Stays, here, on_register-Stays, on_u32-Stays, after_any, write-Stays, write_both-Stays,
}

pub exec_timer_run-Stays :
    (ops : List Operand) (vm : Vm) → Stays vm.ip vm.call_stack (exec_timer_run ops vm)
unfolding exec_timer_run step_timer
exec_timer_run-Stays (idx_op ∷ in_op ∷ pt_op ∷ rest) vm = on_u32-Stays idx_op _ _ (here vm) λ idx.
    let grown = grow_timers vm idx (timer_kind_operand rest) in
    on_register-Stays in_op _ _ (here grown) λ r. elim (Option-cases (preset_operand pt_op)) [
      | inl e ↦ rw e (here grown)
      | inr (pt, e) ↦ rw e (
          after_any (read_register grown r)
            λ v. after_any (expect (get_elem? grown.timers idx)) λ t. returns (refl, refl, refl))
    ]
exec_timer_run-Stays _ vm = here vm

pub exec_read_timer-Stays :
    (ops : List Operand) (vm : Vm) → Stays vm.ip vm.call_stack (exec_read_timer ops vm)
unfolding exec_read_timer
exec_read_timer-Stays (idx_op ∷ q_op ∷ et_op ∷ _) vm = on_u32-Stays idx_op _ _ (here vm) λ idx.
    let grown = grow_timers vm idx TimerKind.ton in
    on_register-Stays q_op _ _ (here grown) λ q.
      on_register-Stays et_op _ _ (here grown)
        λ et. after_any (expect (get_elem? grown.timers idx)) λ t. write_both-Stays grown q et _ _
exec_read_timer-Stays _ vm = here vm

pub exec_counter_run-Stays :
    (pl : Platform) (ops : List Operand) (vm : Vm)
    → Stays vm.ip vm.call_stack (exec_counter_run pl ops vm)
unfolding exec_counter_run step_counter
exec_counter_run-Stays pl (idx_op ∷ cu_op ∷ cd_op ∷ pv_op ∷ kind_op ∷ _) vm =
    on_u32-Stays idx_op _ _ (here vm) λ idx.
      let grown = grow_counters vm idx CounterKind.ctu in
      on_register-Stays cu_op _ _ (here grown) λ cu_reg.
        on_register-Stays cd_op _ _ (here grown) λ cd_reg. on_u32-Stays pv_op _ _ (here grown) λ pv.
          after_any (read_register grown cu_reg) λ cu. after_any (read_register grown cd_reg) λ cd.
            after_any (expect (get_elem? grown.counters idx))
              λ c. after_any (run_counter pl _ pv _ _ c) λ c'. returns (refl, refl, refl)
exec_counter_run-Stays pl _ vm = here vm

pub exec_read_counter-Stays :
    (ops : List Operand) (vm : Vm) → Stays vm.ip vm.call_stack (exec_read_counter ops vm)
unfolding exec_read_counter
exec_read_counter-Stays (idx_op ∷ q_op ∷ cv_op ∷ _) vm = on_u32-Stays idx_op _ _ (here vm) λ idx.
    let grown = grow_counters vm idx CounterKind.ctu in
    on_register-Stays q_op _ _ (here grown) λ q.
      on_register-Stays cv_op _ _ (here grown)
        λ cv. after_any (expect (get_elem? grown.counters idx)) λ c. write_both-Stays grown q cv _ _
exec_read_counter-Stays _ vm = here vm

pub exec_sr_run-Stays :
    (ops : List Operand) (vm : Vm) → Stays vm.ip vm.call_stack (exec_sr_run ops vm)
unfolding exec_sr_run
exec_sr_run-Stays (idx_op ∷ s1_op ∷ r_op ∷ kind_op ∷ _) vm =
    on_u32-Stays idx_op _ _ (here vm) λ idx. after_any (bool_input vm s1_op) λ s1.
      after_any (bool_input vm r_op) λ r.
        after_any (expect (get_elem? (grow_srs vm idx (sr_kind (u32_or_zero kind_op))).srs idx))
          λ s. returns (refl, refl, refl)
exec_sr_run-Stays _ vm = here vm

pub exec_read_sr-Stays :
    (ops : List Operand) (vm : Vm) → Stays vm.ip vm.call_stack (exec_read_sr ops vm)
unfolding exec_read_sr
exec_read_sr-Stays (idx_op ∷ q1_op ∷ q2_op ∷ _) vm = on_u32-Stays idx_op _ _ (here vm) λ idx.
    let grown = grow_srs vm idx SrKind.sr in
    on_register-Stays q1_op _ _ (here grown) λ q1.
      on_register-Stays q2_op _ _ (here grown)
        λ q2. after_any (expect (get_elem? grown.srs idx)) λ s. write_both-Stays grown q1 q2 _ _
exec_read_sr-Stays _ vm = here vm

pub exec_edge_run-Stays :
    (ops : List Operand) (vm : Vm) → Stays vm.ip vm.call_stack (exec_edge_run ops vm)
unfolding exec_edge_run
exec_edge_run-Stays (idx_op ∷ clk_op ∷ kind_op ∷ _) vm = on_u32-Stays idx_op _ _ (here vm) λ idx.
    after_any (bool_input vm clk_op) λ clk.
      after_any (expect (get_elem? (grow_edges vm idx).edges idx)) λ s. returns (refl, refl, refl)
exec_edge_run-Stays _ vm = here vm

pub exec_read_edge-Stays :
    (ops : List Operand) (vm : Vm) → Stays vm.ip vm.call_stack (exec_read_edge ops vm)
unfolding exec_read_edge
exec_read_edge-Stays (idx_op ∷ q_op ∷ _) vm = on_u32-Stays idx_op _ _ (here vm) λ idx.
    let grown = grow_edges vm idx in
    on_register-Stays q_op _ _ (here grown)
      λ q. after_any (expect (get_elem? grown.edges idx)) λ s. write-Stays grown q _
exec_read_edge-Stays _ vm = here vm
