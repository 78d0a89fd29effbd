-- ===== src/Ir/Exec/Blocks.antt =====
-- crates/audesys-hal-ir/src/executor.rs: the instructions of timers, counters, flip-flops and edge
-- detectors.
pub mod Frame
use audesys.Base.{
  ℕ, ◌%◌, Bool, true, List, ◌∷◌, Option, none, some, set, get_elem?, ◌==◌, if◌then◌else◌, ◌>>=◌,
  expect,
}
use audesys.Base.Words.{w8, w32, w64, modulus, to_bits}
use audesys.Hal.Platform.{Platform}
use audesys.Hal.Value.{HalValue, bool, s32, u32}
use audesys.Hal.Value.Order.{hal_eq}
use audesys.Ir.Instr.{Operand, immediate}
use audesys.Ir.Vm.Timer.{TimerKind, run_timer}
use audesys.Ir.Vm.Counter.{CounterKind, run_counter}
use audesys.Ir.Vm.Latch.{SrKind, run_sr, run_edge}
use audesys.Ir.Vm.State.{
  Vm, read_register, write_register, grow_timers, grow_counters, grow_srs, grow_edges,
}
use audesys.Ir.Exec.Common.{
  Exec, continue_with, on_register, on_u32, write_and_continue, u32_or_zero, as_bool, bool_input,
}

unfoldable pub timer_kind : ℕ → TimerKind
timer_kind k = if k == 1 then TimerKind.tof else if k == 2 then TimerKind.tp else TimerKind.ton

-- The kind is the fourth operand, if there is one.
unfoldable pub timer_kind_operand : List Operand → TimerKind
unfolding timer_kind
timer_kind_operand (immediate (u32 k) ∷ _) = timer_kind k
timer_kind_operand _ = TimerKind.ton

-- The preset operand: a negative `S32` is sign-extended to 64 bits.
unfoldable pub preset_operand : Operand → Option ℕ
preset_operand (immediate (u32 p)) = some p
preset_operand (immediate (s32 p)) = some (to_bits w64 p)
preset_operand _ = none

unfoldable pub step_timer : TimerKind → ℕ → ℕ → HalValue → Vm → Exec
step_timer kind idx pt in_val vm = do
  timer ← expect (get_elem? vm.timers idx)
  let timer' = run_timer kind pt (hal_eq in_val (bool true)) vm.cycle_time_ms timer
  continue_with (record vm { timers = set vm.timers idx timer' })

unfoldable pub exec_timer_run : List Operand → Vm → Exec
exec_timer_run (idx_op ∷ in_op ∷ pt_op ∷ rest) vm = on_u32 idx_op (continue_with vm) λ idx.
    let kind = timer_kind_operand rest in
    let grown = grow_timers vm idx kind in
    on_register in_op (continue_with grown) λ r. elim (preset_operand pt_op) [
      | none ↦ continue_with grown
      | some pt ↦ (read_register grown r >>= λ in_val. step_timer kind idx pt in_val grown)
    ]
exec_timer_run _ vm = continue_with vm

unfoldable pub exec_read_timer : List Operand → Vm → Exec
exec_read_timer (idx_op ∷ q_op ∷ et_op ∷ _) vm = on_u32 idx_op (continue_with vm) λ idx.
    let grown = grow_timers vm idx TimerKind.ton in
    on_register q_op (continue_with grown) λ q_dest.
      on_register et_op (continue_with grown) λ et_dest. do
        timer ← expect (get_elem? grown.timers idx)
        vm' ← write_register grown q_dest (bool timer.q)
        write_and_continue vm' et_dest (u32 (timer.elapsed_ms % modulus w32))
exec_read_timer _ vm = continue_with vm

unfoldable pub counter_kind : ℕ → CounterKind
counter_kind k =
    if k == 0 then CounterKind.ctu else if k == 1 then CounterKind.ctd else CounterKind.ctud

unfoldable pub step_counter : Platform → CounterKind → ℕ → ℕ → Bool → Bool → Vm → Exec
step_counter pl kind idx pv cu cd vm = do
  counter ← expect (get_elem? vm.counters idx)
  counter' ← run_counter pl kind pv cu cd counter
  continue_with (record vm { counters = set vm.counters idx counter' })

unfoldable pub exec_counter_run : Platform → List Operand → Vm → Exec
exec_counter_run pl (idx_op ∷ cu_op ∷ cd_op ∷ pv_op ∷ kind_op ∷ _) vm =
    on_u32 idx_op (continue_with vm) λ idx.
      let grown = grow_counters vm idx CounterKind.ctu in
      on_register cu_op (continue_with grown) λ cu_reg.
        on_register cd_op (continue_with grown) λ cd_reg. on_u32 pv_op (continue_with grown) λ pv.
          do
            cu ← read_register grown cu_reg
            cd ← read_register grown cd_reg
            step_counter pl (counter_kind (u32_or_zero kind_op)) idx pv (as_bool cu) (as_bool cd)
                grown
exec_counter_run pl _ vm = continue_with vm

unfoldable pub exec_read_counter : List Operand → Vm → Exec
exec_read_counter (idx_op ∷ q_op ∷ cv_op ∷ _) vm = on_u32 idx_op (continue_with vm) λ idx.
    let grown = grow_counters vm idx CounterKind.ctu in
    on_register q_op (continue_with grown) λ q_dest.
      on_register cv_op (continue_with grown) λ cv_dest. do
        counter ← expect (get_elem? grown.counters idx)
        vm' ← write_register grown q_dest (bool counter.q)
        write_and_continue vm' cv_dest (u32 counter.cv)
exec_read_counter _ vm = continue_with vm

unfoldable pub sr_kind : ℕ → SrKind
sr_kind k = if k == 1 then SrKind.rs else SrKind.sr

unfoldable pub exec_sr_run : List Operand → Vm → Exec
exec_sr_run (idx_op ∷ s1_op ∷ r_op ∷ kind_op ∷ _) vm = on_u32 idx_op (continue_with vm) λ idx. do
  s1 ← bool_input vm s1_op
  r ← bool_input vm r_op
  let kind = sr_kind (u32_or_zero kind_op)
  let grown = grow_srs vm idx kind
  state ← expect (get_elem? grown.srs idx)
  continue_with (record grown { srs = set grown.srs idx (run_sr kind s1 r state) })
exec_sr_run _ vm = continue_with vm

unfoldable pub exec_read_sr : List Operand → Vm → Exec
exec_read_sr (idx_op ∷ q1_op ∷ q2_op ∷ _) vm = on_u32 idx_op (continue_with vm) λ idx.
    let grown = grow_srs vm idx SrKind.sr in
    on_register q1_op (continue_with grown) λ q1_dest.
      on_register q2_op (continue_with grown) λ q2_dest. do
        state ← expect (get_elem? grown.srs idx)
        vm' ← write_register grown q1_dest (bool state.q1)
        write_and_continue vm' q2_dest (bool state.q2)
exec_read_sr _ vm = continue_with vm

unfoldable pub exec_edge_run : List Operand → Vm → Exec
exec_edge_run (idx_op ∷ clk_op ∷ kind_op ∷ _) vm = on_u32 idx_op (continue_with vm) λ idx. do
  clk ← bool_input vm clk_op
  let grown = grow_edges vm idx
  state ← expect (get_elem? grown.edges idx)
  let state' = run_edge (u32_or_zero kind_op % modulus w8) clk state
  continue_with (record grown { edges = set grown.edges idx state' })
exec_edge_run _ vm = continue_with vm

unfoldable pub exec_read_edge : List Operand → Vm → Exec
exec_read_edge (idx_op ∷ q_op ∷ _) vm = on_u32 idx_op (continue_with vm) λ idx.
    let grown = grow_edges vm idx in
    on_register q_op (continue_with grown) λ q_dest. do
      state ← expect (get_elem? grown.edges idx)
      write_and_continue grown q_dest (bool state.q)
exec_read_edge _ vm = continue_with vm
