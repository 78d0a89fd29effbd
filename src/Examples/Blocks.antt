-- ===== src/Examples/Blocks.antt =====
-- Timers, counters, flip-flops and edge detectors: examples.
use audesys.Base.{◌≡◌, ◌≢◌, refl, true, false, List, [], ◌∷◌, ◌++◌, leb, arith, ok, ◌≤◌, ◌+◌}
use audesys.Examples.{debug_build}
use audesys.Ir.Vm.Timer.{TimerKind}
use audesys.Ir.Vm.Timer.Delay
use audesys.Ir.Vm.Timer.Delay.{on_time, is_on, ton_delay, tof_delay, tp_pulse}
use audesys.Ir.Vm.Counter.{CounterKind, CounterState}
use audesys.Ir.Vm.Counter.Edges
use audesys.Ir.Vm.Counter.Edges.{ctu_counts, ctd_stuck, ctud_counts, up_edges, up_down_value}
use audesys.Ir.Vm.Latch.{SrKind}
use audesys.Ir.Vm.Latch.Outputs.{Inputs, after_sr, sr_remembers, pulses, edges_alternate}

-- The input rises, stays for two cycles of 30 and 40 milliseconds, and falls.
abbrev rise : List Delay.Cycle
rise = (true, 40) ∷ (true, 30) ∷ (false, 10) ∷ []

abbrev fall : List Delay.Cycle
fall = (false, 20) ∷ rise

ton_delay_example :
    ((Delay.after TimerKind.ton 60 rise).q ≡ true)
    × ((Delay.after TimerKind.ton 60 rise).elapsed_ms ≡ 60)
ton_delay_example = ton_delay 60 rise (omega arith)

tof_delay_example :
    ((Delay.after TimerKind.tof 60 fall).q ≡ true)
    × ((Delay.after TimerKind.tof 60 fall).elapsed_ms ≡ 20)
tof_delay_example = tof_delay 60 fall (omega arith)

tp_pulse_example :
    ((Delay.after TimerKind.tp 60 rise).q ≡ false)
    × (true ≡ true → (Delay.after TimerKind.tp 60 rise).elapsed_ms ≡ 60)
tp_pulse_example = tp_pulse 60 rise (omega arith)

-- Two edges of CU and one of CD.
abbrev edges : List Edges.Cycle
edges = (true, true) ∷ (false, false) ∷ (true, false) ∷ []

ctu_counts_example :
    (c : CounterState) × (Edges.after debug_build CounterKind.ctu 5 edges ≡ ok c)
    × (c.cu_val ≡ true)
    × (c.cv ≡ 2)
    × (edges ≢ [] → c.q ≡ false)
ctu_counts_example = ctu_counts debug_build 5 edges (omega arith)

ctd_stuck_example :
    (c : CounterState) × (Edges.after debug_build CounterKind.ctd 5 edges ≡ ok c)
    × (c.cv ≡ 0)
    × (edges ≢ [] → c.q ≡ true)
ctd_stuck_example = ctd_stuck debug_build 5 edges

ctud_counts_example :
    (c : CounterState) × (Edges.after debug_build CounterKind.ctud 5 edges ≡ ok c)
    × ((c.cu_val ≡ true) × (c.cd_val ≡ true))
    × ((c.cv ≡ 1) × (c.cv ≤ 5))
    × (edges ≢ [] → (c.q ≡ leb 5 c.cv) × (c.qu ≡ leb 5 c.cv) × (c.qd ≡ leb c.cv 0))
ctud_counts_example = ctud_counts debug_build 5 edges (omega arith)

-- Both inputs are true, and then two quiet cycles.
abbrev quiet : List Inputs
quiet = (false, false) ∷ (false, false) ∷ []

sr_remembers_example :
    ((after_sr SrKind.rs (quiet ++ (true, true) ∷ [])).q1 ≡ false)
    × ((after_sr SrKind.rs (quiet ++ (true, true) ∷ [])).q2 ≡ true)
sr_remembers_example = sr_remembers SrKind.rs quiet [] (true, true) (refl, (refl, tt)) refl

edges_alternate_example :
    pulses 0 (true ∷ false ∷ true ∷ []) ≡ pulses 1 (true ∷ false ∷ true ∷ []) + 1
edges_alternate_example = edges_alternate (true ∷ false ∷ true ∷ [])
