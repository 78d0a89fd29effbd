-- ===== src/Ir/Vm/Counter.antt =====
-- The counters of crates/audesys-hal-ir: their state (vm.rs) and the state machines that
-- `exec_counter_run` (executor.rs) steps once a scan cycle.
pub mod Edges
use audesys.Base.{
  ℕ, ◌+◌, ◌-◌, ◌≤◌, min, Bool, true, false, not, ◌&&◌, leb, if◌then◌else◌, Outcome, ok, panic,
  ◌>>=◌,
}
use audesys.Base.Words.{w32, IsUnsigned}
use audesys.Hal.Platform.{Platform, fit_unsigned}

pub data CounterKind : Type 0 where
  ctu ctd ctud : CounterKind

pub record CounterState : Type 0 where
  pub kind : CounterKind
  pub cu_val : Bool
  pub cd_val : Bool
  pub cv : ℕ
  pub pv : ℕ
  pub q : Bool
  pub qu : Bool
  pub qd : Bool

abbrev pub new_counter : CounterKind → ℕ → CounterState
new_counter kind pv = record {
  kind = kind;
  cu_val = false;
  cd_val = false;
  cv = 0;
  pv = pv;
  q = false;
  qu = false;
  qd = false;
}

-- `(cv + 1).min(pv)` on a rising edge.
unfoldable pub count_up : Platform → Bool → Bool → ℕ → ℕ → Outcome ℕ
count_up pl cu_bool prev_cu cv pv =
    if cu_bool && not prev_cu then (fit_unsigned pl w32 (cv + 1) >>= λ n. ok (min n pv)) else ok cv

-- `cv.saturating_sub(1)` on a rising edge.
unfoldable pub count_down : Bool → Bool → ℕ → ℕ
count_down cd_bool prev_cd cv = if cd_bool && not prev_cd then cv - 1 else cv

-- The `match kind`, with the edges found from the previous inputs.
unfoldable pub tick_counter :
    Platform → CounterKind → Bool → Bool → CounterState → Outcome CounterState
tick_counter pl CounterKind.ctu prev_cu prev_cd c = do
  cv ← count_up pl c.cu_val prev_cu c.cv c.pv
  ok (record c { cv = cv; q = leb c.pv cv })
tick_counter pl CounterKind.ctd prev_cu prev_cd c =
    let cv = count_down c.cd_val prev_cd c.cv in ok (record c { cv = cv; q = leb cv 0 })
tick_counter pl CounterKind.ctud prev_cu prev_cd c = do
  up ← count_up pl c.cu_val prev_cu c.cv c.pv
  let cv = count_down c.cd_val prev_cd up
  ok (record c { cv = cv; qu = leb c.pv cv; qd = leb cv 0; q = leb c.pv cv })

-- The counter's part of `exec_counter_run`.
unfoldable pub run_counter :
    Platform → CounterKind → ℕ → Bool → Bool → CounterState → Outcome CounterState
run_counter pl kind pv cu_bool cd_bool c =
    tick_counter pl kind c.cu_val c.cd_val
      (record c { pv = pv; kind = kind; cu_val = cu_bool; cd_val = cd_bool })
