-- ===== src/Ir/Vm/Latch/Outputs.antt =====
-- The flip-flops and edge detectors over any history of scan cycles.
use audesys.Base.{
  ℕ, suc, ◌+◌, ◌≡◌, ◌∙◌, refl, Bool, true, false, not, ◌||◌, List, [], ◌∷◌, ◌++◌, arith,
  if◌then◌else◌, All,
}
use audesys.Ir.Vm.Latch.{SrKind, SrState, new_sr, tick_sr, run_sr, EdgeState, new_edge, run_edge}

-- The inputs S1 and R of a scan cycle. A history has its newest cycle first.
abbrev pub Inputs : Type 0
Inputs = Bool × Bool

pub after_sr : SrKind → List Inputs → SrState
after_sr kind [] = new_sr kind
after_sr kind ((s1, r) ∷ history) = run_sr kind s1 r (after_sr kind history)

-- A cycle in which neither input is true.
abbrev pub IsQuiet : Inputs → Type 0
IsQuiet i = (i.0 || i.1) ≡ false

-- What a cycle with a true input sets the output to: the dominant input wins.
abbrev pub dominant : SrKind → Inputs → Bool
dominant SrKind.sr (s1, r) = s1
dominant SrKind.rs (s1, r) = not r

decided :
    (kind : SrKind) (s1 r : Bool) (s : SrState)
    → (s1 || r) ≡ true
    → ((run_sr kind s1 r s).q1 ≡ dominant kind (s1, r))
      × ((run_sr kind s1 r s).q2 ≡ not (dominant kind (s1, r)))
unfolding run_sr tick_sr
decided SrKind.sr s1 r s h = ground arith
decided SrKind.rs s1 r s h = ground arith

undecided :
    (kind : SrKind) (s1 r : Bool) (s : SrState)
    → (s1 || r) ≡ false
    → ((run_sr kind s1 r s).q1 ≡ s.q1) × ((run_sr kind s1 r s).q2 ≡ s.q2)
unfolding run_sr tick_sr
undecided SrKind.sr s1 r s h = ground arith
undecided SrKind.rs s1 r s h = ground arith

-- After a cycle in which an input of an SR or RS flip-flop is true, and any number of cycles in
-- which none is, Q1 is what the dominant input of that cycle set and Q2 is its negation.
pub sr_remembers :
    (kind : SrKind) (quiet older : List Inputs) (i : Inputs)
    → All IsQuiet quiet
    → (i.0 || i.1) ≡ true
    → ((after_sr kind (quiet ++ i ∷ older)).q1 ≡ dominant kind i)
      × ((after_sr kind (quiet ++ i ∷ older)).q2 ≡ not (dominant kind i))
unfolding after_sr
sr_remembers kind [] older (s1, r) q h = decided kind s1 r (after_sr kind older) h
sr_remembers kind ((a, b) ∷ quiet) older i q h =
    let (e1, e2) = sr_remembers kind quiet older i q.1 h in
    let (u1, u2) = undecided kind a b (after_sr kind (quiet ++ i ∷ older)) q.0 in (u1 ∙ e1, u2 ∙ e2)

-- An edge detector of one kind, run through the clock's history.
pub after_edge : ℕ → List Bool → EdgeState
after_edge kind [] = new_edge
after_edge kind (clk ∷ history) = run_edge kind clk (after_edge kind history)

-- The number of cycles in which the output was true.
pub pulses : ℕ → List Bool → ℕ
pulses kind [] = 0
pulses kind (clk ∷ history) =
    if (after_edge kind (clk ∷ history)).q then suc (pulses kind history) else pulses kind history

abbrev pub clock : List Bool → Bool
clock [] = false
clock (clk ∷ _) = clk

abbrev pub bit : Bool → ℕ
bit true = 1
bit false = 0

after_edge-last_clk :
    (kind : ℕ) (history : List Bool) → (after_edge kind history).last_clk ≡ clock history
unfolding after_edge run_edge
after_edge-last_clk kind [] = refl
after_edge-last_clk kind (clk ∷ history) = refl

-- Over any clock the rising-edge detector pulses as often as the falling-edge detector, and once
-- more where the clock is true now.
pub edges_alternate :
    (history : List Bool) → pulses 0 history ≡ pulses 1 history + bit (clock history)
unfolding pulses after_edge run_edge
edges_alternate [] = refl
edges_alternate (clk ∷ history) =
    ground
      (arith, edges_alternate history, after_edge-last_clk 0 history, after_edge-last_clk 1 history)
