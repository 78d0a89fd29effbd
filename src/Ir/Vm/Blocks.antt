-- ===== src/Ir/Vm/Blocks.antt =====
-- crates/audesys-hal-ir/src/vm.rs: the methods of `Vm` that allocate function blocks and look at the
-- machine.
use audesys.Base.{ℕ, List, [], ◌∷◌, ◌++◌, map, length, get_elem?, Outcome, expect}
use audesys.Ir.Vm.Timer.{TimerKind, TimerState, new_timer}
use audesys.Ir.Vm.Counter.{CounterKind, CounterState, new_counter}
use audesys.Ir.Vm.Latch.{SrKind, SrState, EdgeState, new_sr, new_edge}
use audesys.Ir.Vm.State.{Vm}

-- The index of the new block with the machine.
unfoldable pub add_timer : TimerKind → ℕ → Vm → Vm × ℕ
add_timer kind preset_ms vm =
    (record vm { timers = vm.timers ++ new_timer kind preset_ms ∷ [] }, length vm.timers)

unfoldable pub add_counter : CounterKind → ℕ → Vm → Vm × ℕ
add_counter kind pv vm =
    (record vm { counters = vm.counters ++ new_counter kind pv ∷ [] }, length vm.counters)

unfoldable pub add_sr : SrKind → Vm → Vm × ℕ
add_sr kind vm = (record vm { srs = vm.srs ++ new_sr kind ∷ [] }, length vm.srs)

unfoldable pub add_edge : Vm → Vm × ℕ
add_edge vm = (record vm { edges = vm.edges ++ new_edge ∷ [] }, length vm.edges)

abbrev pub timer : Vm → ℕ → Outcome TimerState
timer vm idx = expect (get_elem? vm.timers idx)

abbrev pub counter : Vm → ℕ → Outcome CounterState
counter vm idx = expect (get_elem? vm.counters idx)

abbrev pub sr : Vm → ℕ → Outcome SrState
sr vm idx = expect (get_elem? vm.srs idx)

abbrev pub edge : Vm → ℕ → Outcome EdgeState
edge vm idx = expect (get_elem? vm.edges idx)

abbrev reset_ip : Vm → Vm
reset_ip vm = record vm { ip = 0 }

abbrev call_depth : Vm → ℕ
call_depth vm = length vm.call_stack

-- The order of the names is the hash map's; here it is that of the first writes.
abbrev signal_names : Vm → List (List ℕ)
signal_names vm = map (λ e. e.0) vm.signals

abbrev set_cycle_time : Vm → ℕ → Vm
set_cycle_time vm ms = record vm { cycle_time_ms = ms }
