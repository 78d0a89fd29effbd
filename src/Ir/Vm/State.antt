-- ===== src/Ir/Vm/State.antt =====
-- crates/audesys-hal-ir/src/vm.rs: `Vm` and its methods.
pub mod Laws
use audesys.Base.{
  map_get, map_insert, ℕ, suc, ◌+◌, ◌-◌, ◌≡◌, Bool, true, false, List, [], ◌∷◌, ◌++◌, Option, none,
  some, length, get_elem?, set, replicate, All, bytes_eq, ltb, if◌then◌else◌, Outcome, ok, panic,
  ◌>>=◌, ◌>>◌, assert, expect,
}
use audesys.Base.Words.{pos}
use audesys.Hal.Value.{HalValue, IsValue, s32}
use audesys.Ir.Vm.Timer.{TimerKind, TimerState, new_timer}
use audesys.Ir.Vm.Counter.{CounterKind, CounterState, new_counter}
use audesys.Ir.Vm.Latch.{SrKind, SrState, EdgeState, new_sr, new_edge}

abbrev pub register_count : ℕ
register_count = 16

pub record Vm : Type 0 where
  pub registers : List HalValue
  pub flags_zero : Bool
  pub ip : ℕ
  pub signals : List (List ℕ × HalValue)
  pub call_stack : List ℕ  -- last pushed first
  pub timers : List TimerState
  pub counters : List CounterState
  pub srs : List SrState
  pub edges : List EdgeState
  pub cycle_time_ms : ℕ

unfoldable pub new_vm : Vm
new_vm = record {
  registers = replicate register_count (s32 (pos 0));
  flags_zero = false;
  ip = 0;
  signals = [];
  call_stack = [];
  timers = [];
  counters = [];
  srs = [];
  edges = [];
  cycle_time_ms = 0;
}

unfoldable pub read_register : Vm → ℕ → Outcome HalValue
read_register vm idx = assert (ltb idx register_count) >> expect (get_elem? vm.registers idx)

unfoldable pub write_register : Vm → ℕ → HalValue → Outcome Vm
write_register vm idx val =
    assert (ltb idx register_count) >> ok (record vm { registers = set vm.registers idx val })

abbrev pub set_flags_zero : Vm → Bool → Vm
set_flags_zero vm val = record vm { flags_zero = val }

abbrev pub set_ip : Vm → ℕ → Vm
set_ip vm val = record vm { ip = val }

abbrev pub advance_ip : Vm → Vm
advance_ip vm = record vm { ip = vm.ip + 1 }

-- The timers, counters and latches keep their states.
unfoldable pub reset_vm : Vm → Vm
reset_vm vm = record vm {
  registers = replicate register_count (s32 (pos 0));
  flags_zero = false;
  ip = 0;
  signals = [];
  call_stack = [];
}

abbrev pub push_call_ip : Vm → ℕ → Vm
push_call_ip vm return_ip = record vm { call_stack = return_ip ∷ vm.call_stack }

-- The popped address with the machine that is left.
unfoldable pub pop_from : List ℕ → Vm → Option (ℕ × Vm)
pop_from [] vm = none
pop_from (a ∷ rest) vm = some (a, record vm { call_stack = rest })

unfoldable pub pop_call_ip : Vm → Option (ℕ × Vm)
pop_call_ip vm = pop_from vm.call_stack vm

-- The signal table is a `HashMap`.
unfoldable pub write_signal : Vm → List ℕ → HalValue → Vm
write_signal vm name value = record vm { signals = map_insert name value vm.signals }

unfoldable pub read_signal : Vm → List ℕ → Option HalValue
read_signal vm name = map_get name vm.signals

-- `while count <= idx { push }`: one push a round, `idx + 1 - count` rounds.
abbrev pub push_rounds {ℓ} : {A : Type ℓ} → ℕ → A → List A → List A
push_rounds ℕ.zero a xs = xs
push_rounds (suc n) a xs = push_rounds n a (xs ++ a ∷ [])

abbrev pub grow {ℓ} : {A : Type ℓ} → ℕ → A → List A → List A
grow idx a xs = push_rounds (suc idx - length xs) a xs

abbrev pub grow_timers : Vm → ℕ → TimerKind → Vm
grow_timers vm idx kind = record vm { timers = grow idx (new_timer kind 0) vm.timers }

abbrev pub grow_counters : Vm → ℕ → CounterKind → Vm
grow_counters vm idx kind = record vm { counters = grow idx (new_counter kind 0) vm.counters }

abbrev pub grow_srs : Vm → ℕ → SrKind → Vm
grow_srs vm idx kind = record vm { srs = grow idx (new_sr kind) vm.srs }

abbrev pub grow_edges : Vm → ℕ → Vm
grow_edges vm idx = record vm { edges = grow idx new_edge vm.edges }
