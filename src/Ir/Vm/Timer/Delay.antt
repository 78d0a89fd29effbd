-- ===== src/Ir/Vm/Timer/Delay.antt =====
-- The timers over any history of scan cycles, against a specification by elapsed time.
use audesys.Base.{
  ℕ, ◌+◌, ◌≤◌, ◌≡◌, refl, min, Bool, true, false, ◌&&◌, ◌||◌, List, [], ◌∷◌, arith, leb, ltb,
  if◌then◌else◌,
}
use audesys.Ir.Vm.Timer.{
  TimerKind, TimerState, new_timer, u64_max, tick_ton, tick_tof, tick_tp, tick_kind, run_timer,
}

-- A scan cycle: the input and the cycle time. A history has its newest cycle first.
abbrev pub Cycle : Type 0
Cycle = Bool × ℕ

-- A new timer that has been run through a history with one kind and one preset.
pub after : TimerKind → ℕ → List Cycle → TimerState
after kind pt [] = new_timer kind 0
after kind pt ((in_bool, cycle) ∷ history) = run_timer kind pt in_bool cycle (after kind pt history)

-- The newest input.
abbrev pub is_on : List Cycle → Bool
is_on [] = false
is_on ((in_bool, _) ∷ _) = in_bool

-- The time for which the input has been true without a break, up to now, and that for which it has
-- been false.
abbrev pub on_time : List Cycle → ℕ
on_time [] = 0
on_time ((true, cycle) ∷ history) = on_time history + cycle
on_time ((false, cycle) ∷ history) = 0

abbrev pub off_time : List Cycle → ℕ
off_time [] = 0
off_time ((true, cycle) ∷ history) = 0
off_time ((false, cycle) ∷ history) = off_time history + cycle

abbrev pub ever_on : List Cycle → Bool
ever_on [] = false
ever_on ((in_bool, _) ∷ history) = in_bool || ever_on history

-- Over any history of scan cycles, with a preset that fits a u64, the output of an on-delay timer
-- is true exactly when the input is and has been without a break for the preset time, and its
-- elapsed time is that time up to the preset.
pub ton_delay :
    (pt : ℕ) (history : List Cycle)
    → pt ≤ u64_max
    → let t = after TimerKind.ton pt history in
      (t.q ≡ (is_on history && leb pt (on_time history)))
      × (t.elapsed_ms ≡ min (on_time history) pt)
unfolding after run_timer tick_kind tick_ton
ton_delay pt [] h = (refl, omega arith)
ton_delay pt ((false, cycle) ∷ history) h = (refl, omega arith)
ton_delay pt ((true, cycle) ∷ history) h = ground (arith, ton_delay pt history h)

-- Over any history of scan cycles, with a preset that fits a u64, the output of an off-delay timer
-- is true while the input is and then until the input has been false for the preset time, and its
-- elapsed time is the time since then up to the preset; it is false and 0 where the input was
-- never true.
pub tof_delay :
    (pt : ℕ) (history : List Cycle)
    → pt ≤ u64_max
    → let t = after TimerKind.tof pt history in
      (t.q ≡ (is_on history || (ever_on history && ltb (off_time history) pt)))
      × (t.elapsed_ms ≡ (if ever_on history then min (off_time history) pt else 0))
unfolding after run_timer tick_kind tick_tof
tof_delay pt [] h = (refl, refl)
tof_delay pt ((false, cycle) ∷ history) h = ground (arith, tof_delay pt history h)
tof_delay pt ((true, cycle) ∷ history) h = (refl, omega arith)

after-in_val :
    (kind : TimerKind) (pt : ℕ) (history : List Cycle)
    → (after kind pt history).in_val ≡ is_on history
unfolding after run_timer
after-in_val kind pt [] = refl
after-in_val kind pt ((in_bool, cycle) ∷ history) = refl

-- Over any history of scan cycles, with a preset that fits a u64, the output of a pulse timer is
-- true exactly when the input is and has been without a break for less than the preset time, and
-- while the input is true the elapsed time is that time up to the preset.
pub tp_pulse :
    (pt : ℕ) (history : List Cycle)
    → pt ≤ u64_max
    → let t = after TimerKind.tp pt history in
      (t.q ≡ (is_on history && ltb (on_time history) pt))
      × (is_on history ≡ true → t.elapsed_ms ≡ min (on_time history) pt)
unfolding after run_timer tick_kind tick_tp
tp_pulse pt [] h = (refl, λ e. cc)
tp_pulse pt ((false, cycle) ∷ history) h =
    ground (arith, tp_pulse pt history h, after-in_val TimerKind.tp pt history)
tp_pulse pt ((true, cycle) ∷ history) h =
    ground (arith, tp_pulse pt history h, after-in_val TimerKind.tp pt history)
