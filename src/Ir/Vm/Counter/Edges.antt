-- ===== src/Ir/Vm/Counter/Edges.antt =====
-- The counters over any history of scan cycles, against the number of edges.
use audesys.Base.{
  ap, ◌∙◌, ℕ, suc, ◌+◌, ◌-◌, ◌≤◌, ◌<◌, ◌≡◌, ◌≢◌, refl, min, Bool, true, false, not, ◌&&◌, List, [],
  ◌∷◌, arith, leb, if◌then◌else◌, Outcome, ok, panic, ◌>>=◌,
}
use audesys.Hal.Platform.{Platform, fit_unsigned}
use audesys.Ir.Vm.Counter.{
  CounterKind, CounterState, new_counter, count_up, count_down, tick_counter, run_counter,
}

-- A scan cycle: the inputs CU and CD. A history has its newest cycle first.
abbrev pub Cycle : Type 0
Cycle = Bool × Bool

abbrev pub up_now : List Cycle → Bool
up_now [] = false
up_now ((cu, _) ∷ _) = cu

abbrev pub down_now : List Cycle → Bool
down_now [] = false
down_now ((_, cd) ∷ _) = cd

-- The number of cycles in which CU rose.
abbrev pub up_edges : List Cycle → ℕ
up_edges [] = 0
up_edges ((cu, _) ∷ history) =
    if cu && not (up_now history) then suc (up_edges history) else up_edges history

module _ (pl : Platform) (kind : CounterKind) (pv : ℕ) where
  -- A new counter that has been run through a history with one kind and one preset.
  pub after : List Cycle → Outcome CounterState
  after [] = ok (new_counter CounterKind.ctu 0)
  after ((cu, cd) ∷ history) = after history >>= run_counter pl kind pv cu cd

-- The largest preset whose counting cannot overflow a `u32` is one below the largest `u32`.
abbrev pub u32_max : ℕ
u32_max = 0xffff_ffff

count_up_below :
    (pl : Platform) (cu prev : Bool) (cv pv : ℕ)
    → cv < u32_max
    → count_up pl cu prev cv pv ≡ ok (if cu && not prev then min (cv + 1) pv else cv)
unfolding count_up fit_unsigned
count_up_below pl cu prev cv pv h = ground arith

-- The value of an up-counter in one more cycle, that does or does not bring an edge.
abbrev counted : Bool → ℕ → ℕ → ℕ
counted edge cv pv = if edge then min (cv + 1) pv else cv

counted-min :
    (edge : Bool) (cv n pv : ℕ)
    → cv ≡ min n pv
    → counted edge cv pv ≡ min (if edge then suc n else n) pv
counted-min true cv n pv h = omega arith
counted-min false cv n pv h = h

leb-min : (n pv : ℕ) → leb pv (min n pv) ≡ leb pv n
leb-min n pv = ground arith

-- Over any history of scan cycles, with a preset below the largest u32, an up-counter never
-- panics, its value is the number of rising edges of CU up to the preset, and after the first
-- cycle its output says whether that number reaches the preset.
pub ctu_counts :
    (pl : Platform) (pv : ℕ) (history : List Cycle)
    → pv < u32_max
    → (c : CounterState) × (after pl CounterKind.ctu pv history ≡ ok c)
      × (c.cu_val ≡ up_now history)
      × (c.cv ≡ min (up_edges history) pv)
      × (history ≢ [] → c.q ≡ leb pv (up_edges history))
unfolding after run_counter tick_counter
ctu_counts pl pv [] h =
    (new_counter CounterKind.ctu 0, refl, refl, omega arith, λ n. absurd (n refl))
ctu_counts pl pv ((cu, cd) ∷ history) h =
    let (c, e, newest, value, output) = ctu_counts pl pv history h in
    let cv : ℕ = counted (cu && not c.cu_val) c.cv pv in
    let edges : ℕ = up_edges ((cu, cd) ∷ history) in
    let v : cv ≡ min edges pv =
      rw newest (counted-min (cu && not (up_now history)) c.cv (up_edges history) pv value) in
    (
      record c {
        kind = CounterKind.ctu;
        cu_val = cu;
        cd_val = cd;
        pv = pv;
        cv = cv;
        q = leb pv cv;
      },
      rw e (rw (count_up_below pl cu c.cu_val c.cv pv (omega (arith, value)))),
      refl,
      v,
      λ _. ap (leb pv) v ∙ leb-min edges pv,
    )

-- Over any history of scan cycles a down-counter that starts new never panics and stays at 0
-- whatever its preset, and its output is true from the first cycle on.
pub ctd_stuck :
    (pl : Platform) (pv : ℕ) (history : List Cycle)
    → (c : CounterState) × (after pl CounterKind.ctd pv history ≡ ok c)
      × (c.cv ≡ 0)
      × (history ≢ [] → c.q ≡ true)
unfolding after run_counter tick_counter count_down
ctd_stuck pl pv [] = (new_counter CounterKind.ctu 0, refl, refl, λ n. absurd (n refl))
ctd_stuck pl pv ((cu, cd) ∷ history) =
    let (c, e, value, output) = ctd_stuck pl pv history in
    (
      record c {
        kind = CounterKind.ctd;
        cu_val = cu;
        cd_val = cd;
        pv = pv;
        cv = if cd && not c.cd_val then c.cv - 1 else c.cv;
        q = leb (if cd && not c.cd_val then c.cv - 1 else c.cv) 0;
      },
      rw e,
      ground arith,
      λ _. ground arith,
    )

-- The value of an up-down counter, by the edges.
abbrev pub up_down_value : ℕ → List Cycle → ℕ
up_down_value pv [] = 0
up_down_value pv ((cu, cd) ∷ history) =
    let below = up_down_value pv history in
    let up = if cu && not (up_now history) then min (below + 1) pv else below in
    if cd && not (down_now history) then up - 1 else up

-- Over any history of scan cycles, with a preset below the largest u32, an up-down counter never
-- panics, its value follows the rising edges of CU and CD and stays at most the preset, and after
-- the first cycle Q and QU say whether it is at the preset and QD whether it is 0.
pub ctud_counts :
    (pl : Platform) (pv : ℕ) (history : List Cycle)
    → pv < u32_max
    → (c : CounterState) × (after pl CounterKind.ctud pv history ≡ ok c)
      × ((c.cu_val ≡ up_now history) × (c.cd_val ≡ down_now history))
      × ((c.cv ≡ up_down_value pv history) × (c.cv ≤ pv))
      × (history ≢ [] → (c.q ≡ leb pv c.cv) × (c.qu ≡ leb pv c.cv) × (c.qd ≡ leb c.cv 0))
unfolding after run_counter tick_counter count_down
ctud_counts pl pv [] h =
    (new_counter CounterKind.ctu 0, refl, (refl, refl), (refl, omega arith), λ n. absurd (n refl))
ctud_counts pl pv ((cu, cd) ∷ history) h =
    let (c, e, newest, value, output) = ctud_counts pl pv history h in
    let up : ℕ = if cu && not c.cu_val then min (c.cv + 1) pv else c.cv in
    let cv : ℕ = if cd && not c.cd_val then up - 1 else up in
    (
      record c {
        kind = CounterKind.ctud;
        cu_val = cu;
        cd_val = cd;
        pv = pv;
        cv = cv;
        q = leb pv cv;
        qu = leb pv cv;
        qd = leb cv 0;
      },
      rw e (rw (count_up_below pl cu c.cu_val c.cv pv (omega arith))),
      (refl, refl),
      ground arith,
      λ _. (refl, refl, refl),
    )

-- At the largest `u32` a rising edge of CU overflows: it panics where overflow is checked, and
-- otherwise the value falls back to 0.
pub count_up_overflow :
    (pl : Platform)
    → count_up pl true false u32_max u32_max ≡ (if pl.overflow_checks then panic else ok 0)
unfolding count_up fit_unsigned
count_up_overflow pl = ground arith
