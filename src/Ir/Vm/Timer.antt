-- ===== src/Ir/Vm/Timer.antt =====
-- The timers of crates/audesys-hal-ir: their state (vm.rs) and the state machines that
-- `exec_timer_run` (executor.rs) steps once a scan cycle.
pub mod Delay
use audesys.Base.{ℕ, ◌+◌, ◌<◌, min, Bool, true, false, not, ◌&&◌, leb, if◌then◌else◌}
use audesys.Base.Words.{w64, IsUnsigned}

pub data TimerKind : Type 0 where
  ton tof tp : TimerKind

pub record TimerState : Type 0 where
  pub kind : TimerKind
  pub in_val : Bool
  pub elapsed_ms : ℕ
  pub q : Bool
  pub preset_ms : ℕ

abbrev pub new_timer : TimerKind → ℕ → TimerState
new_timer kind preset_ms = record {
  kind = kind;
  in_val = false;
  elapsed_ms = 0;
  q = false;
  preset_ms = preset_ms;
}

abbrev pub u64_max : ℕ
u64_max = 0xffff_ffff_ffff_ffff

abbrev pub saturating_add : ℕ → ℕ → ℕ
saturating_add a b = min (a + b) u64_max

-- On-delay.
unfoldable pub tick_ton : Bool → ℕ → TimerState → TimerState
tick_ton in_bool cycle t =
    if not in_bool
    then record t { q = false; elapsed_ms = 0 }
    else if leb t.preset_ms t.elapsed_ms
    then record t { q = true }
    else (let elapsed = saturating_add t.elapsed_ms cycle in
        if leb t.preset_ms elapsed
        then record t { q = true; elapsed_ms = t.preset_ms }
        else record t { elapsed_ms = elapsed })

-- Off-delay.
unfoldable pub tick_tof : Bool → ℕ → TimerState → TimerState
tick_tof in_bool cycle t =
    if in_bool
    then record t { q = true; elapsed_ms = 0 }
    else if t.q
    then (let elapsed = saturating_add t.elapsed_ms cycle in
        if leb t.preset_ms elapsed
        then record t { q = false; elapsed_ms = t.preset_ms }
        else record t { elapsed_ms = elapsed })
    else t

-- The start of a pulse on a rising edge.
abbrev pub start_pulse : Bool → Bool → TimerState → TimerState
start_pulse in_bool prev_in t =
    if in_bool && not prev_in then record t { q = true; elapsed_ms = 0 } else t

-- One cycle of a running pulse, which also ends where the input has fallen.
abbrev pub run_pulse : Bool → ℕ → TimerState → TimerState
run_pulse in_bool cycle t =
    let elapsed = saturating_add t.elapsed_ms cycle in
    let u : TimerState =
      if leb t.preset_ms elapsed
      then record t { q = false; elapsed_ms = t.preset_ms }
      else record t { elapsed_ms = elapsed } in
    if not in_bool then record u { q = false } else u

unfoldable pub tick_tp : Bool → Bool → ℕ → TimerState → TimerState
tick_tp in_bool prev_in cycle t =
    let s = start_pulse in_bool prev_in t in if s.q then run_pulse in_bool cycle s else s

-- The timer's part of `exec_timer_run`: the new preset and kind, the state machine, the new input.
unfoldable pub tick_kind : TimerKind → Bool → ℕ → TimerState → TimerState
tick_kind TimerKind.ton in_bool cycle t = tick_ton in_bool cycle t
tick_kind TimerKind.tof in_bool cycle t = tick_tof in_bool cycle t
tick_kind TimerKind.tp in_bool cycle t = tick_tp in_bool t.in_val cycle t

unfoldable pub run_timer : TimerKind → ℕ → Bool → ℕ → TimerState → TimerState
run_timer kind pt in_bool cycle t =
    let u = tick_kind kind in_bool cycle (record t { preset_ms = pt; kind = kind }) in
    record u { in_val = in_bool }
