-- ===== src/Ir/Vm/Latch.antt =====
-- The SR and RS flip-flops and the edge detectors of crates/audesys-hal-ir: their state (vm.rs) and
-- the steps of `exec_sr_run` and `exec_edge_run` (executor.rs).
pub mod Outputs
use audesys.Base.{ℕ, Bool, true, false, not, ◌&&◌, ◌==◌, if◌then◌else◌}

pub data SrKind : Type 0 where
  sr rs : SrKind

pub record SrState : Type 0 where
  pub kind : SrKind
  pub s1 : Bool
  pub r : Bool
  pub q1 : Bool
  pub q2 : Bool

abbrev pub new_sr : SrKind → SrState
new_sr kind = record { kind = kind; s1 = false; r = false; q1 = false; q2 = false }

abbrev pub set_output : SrState → SrState
set_output s = record s { q1 = true; q2 = false }

abbrev pub reset_output : SrState → SrState
reset_output s = record s { q1 = false; q2 = true }

unfoldable pub tick_sr : SrKind → Bool → Bool → SrState → SrState
tick_sr SrKind.sr s1 r s = if s1 then set_output s else if r then reset_output s else s
tick_sr SrKind.rs s1 r s = if r then reset_output s else if s1 then set_output s else s

unfoldable pub run_sr : SrKind → Bool → Bool → SrState → SrState
run_sr kind s1 r s = record (tick_sr kind s1 r (record s { kind = kind })) { s1 = s1; r = r }

-- The kind of an edge detector is a `u8`: 0 for rising, 1 for falling edges.
pub record EdgeState : Type 0 where
  pub kind : ℕ
  pub last_clk : Bool
  pub q : Bool

abbrev pub new_edge : EdgeState
new_edge = record { kind = 0; last_clk = false; q = false }

unfoldable pub run_edge : ℕ → Bool → EdgeState → EdgeState
run_edge kind clk s = record s {
  kind = kind;
  q =
      (if kind == 0
        then clk && not s.last_clk
        else if kind == 1
        then not clk && s.last_clk
        else false);
  last_clk = clk;
}
