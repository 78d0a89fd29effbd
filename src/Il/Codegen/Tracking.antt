-- ===== src/Il/Codegen/Tracking.antt =====
-- The registers of the machine and the state of a scan, along the code that
-- crates/audesys-il-compiler/src/codegen.rs emits.
use audesys.Base.{
  ℕ, subst, some-injective, bytes_eq_refl, ◌<◌, ◌≤◌, ◌≡◌, ◌≢◌, sym, ◌∙◌, inl, inr, true, false,
  Bool-cases, List, [], none, some, length, length-set, get_elem?, set, get_elem?-set_self,
  get_elem?-set_ne, map_get, bytes_eq, bytes_eq_sound, arith,
}
use audesys.Base.Words.{pos}
use audesys.Hal.Platform.{Platform}
use audesys.Hal.Value.{HalValue, s32}
use audesys.Ir.Vm.State.{Vm, register_count}
use audesys.Il.Codegen.{Codegen, cr_reg}
use audesys.Il.Codegen.Registers.{IsAllocated}
use audesys.Il.Codegen.Running.{Ran}
use audesys.Il.Codegen.Effects.{put}
use audesys.Il.Scan.{Scan, hold, accumulate}

-- The registers hold the accumulator and the variables of the scan, and those that no variable has
-- yet are as they were at first.
pub record Registers (g : Codegen) (vm : Vm) (σ : Scan) : Type 0 where
  pub sixteen : length vm.registers ≡ register_count
  pub current : get_elem? vm.registers cr_reg ≡ some σ.accumulator
  pub same_signals : vm.signals ≡ σ.signals
  pub held :
      (x : List ℕ) {r : ℕ}
      → map_get x g.var_map ≡ some r
      → get_elem? vm.registers r ≡ some (σ.variables x)
  pub unset : (x : List ℕ) → map_get x g.var_map ≡ none → σ.variables x ≡ s32 (pos 0)
  pub free : (r : ℕ) → g.next_reg ≤ r → r < 10 → get_elem? vm.registers r ≡ some (s32 (pos 0))

pub record Tracks (pl : Platform) (g : Codegen) (vm : Vm) (σ : Scan) : Type 0 where
  pub allocated : IsAllocated g
  pub no_refs : g.label_refs ≡ []
  pub ran : Ran pl g vm
  pub registers : Registers g vm σ

-- A write to a register that no variable has, and that is not the accumulator's.
pub put-spare :
    {g : Codegen} {vm : Vm} {σ : Scan} (r : ℕ) (v : HalValue)
    → 10 ≤ r
    → r ≢ cr_reg
    → IsAllocated g
    → Registers g vm σ
    → Registers g (put r v vm) σ
put-spare {g = g} {vm = vm} r v h ne a s = record {
  sixteen = length-set vm.registers r v ∙ s.sixteen;
  current = get_elem?-set_ne vm.registers r cr_reg v ne ∙ s.current;
  same_signals = s.same_signals;
  held = λ x {r = q} k.
      get_elem?-set_ne vm.registers r q v (λ e. absurd (omega (arith, a.used x k, a.bounded)))
      ∙ s.held x k;
  unset = s.unset;
  free = λ q k l. get_elem?-set_ne vm.registers r q v (λ e. absurd (omega arith)) ∙ s.free q k l;
}

pub put-cr :
    {g : Codegen} {vm : Vm} {σ : Scan} (v : HalValue)
    → IsAllocated g
    → Registers g vm σ
    → Registers g (put cr_reg v vm) (accumulate v σ)
put-cr {g = g} {vm = vm} v a s = record {
  sixteen = length-set vm.registers cr_reg v ∙ s.sixteen;
  current = get_elem?-set_self vm.registers cr_reg v (omega (arith, s.sixteen));
  same_signals = s.same_signals;
  held = λ x {r} h.
      get_elem?-set_ne vm.registers cr_reg r v (λ e. absurd (omega (arith, a.used x h, a.bounded)))
      ∙ s.held x h;
  unset = s.unset;
  free =
      λ r h k. get_elem?-set_ne vm.registers cr_reg r v (λ e. absurd (omega arith)) ∙ s.free r h k;
}

pub put-hold :
    {g : Codegen} {vm : Vm} {σ : Scan} (x : List ℕ) {r : ℕ} (v : HalValue)
    → IsAllocated g
    → map_get x g.var_map ≡ some r
    → Registers g vm σ
    → Registers g (put r v vm) (hold x v σ)
put-hold {g = g} {vm = vm} {σ = σ} x {r} v a found s = record {
  sixteen = length-set vm.registers r v ∙ s.sixteen;
  current =
      get_elem?-set_ne vm.registers r cr_reg v
        (λ e. absurd (omega (arith, a.used x found, a.bounded)))
      ∙ s.current;
  same_signals = s.same_signals;
  held = λ y {r = q} h. elim (Bool-cases (bytes_eq x y)) [
    | inl same ↦ rw same (written y (bytes_eq_sound x y same) h)
    | inr other ↦ rw other (get_elem?-set_ne vm.registers r q v (elsewhere y other h) ∙ s.held y h)
  ];
  unset = λ y missing. elim (Bool-cases (bytes_eq x y)) [
    | inl same ↦ absurd (has_register y (bytes_eq_sound x y same) missing)
    | inr other ↦ rw other (s.unset y missing)
  ];
  free = λ q h k.
      get_elem?-set_ne vm.registers r q v (λ e. absurd (omega (arith, a.used x found)))
      ∙ s.free q h k;
}
  where
    written :
        (y : List ℕ) {q : ℕ}
        → x ≡ y
        → map_get y g.var_map ≡ some q
        → get_elem? (set vm.registers r v) q ≡ some v
    written y e h =
        subst (λ q. get_elem? (set vm.registers r v) q ≡ some v)
          (some-injective (sym (subst (λ z. map_get z g.var_map ≡ some r) e found) ∙ h))
          (get_elem?-set_self vm.registers r v
            (omega (arith, a.used x found, a.bounded, s.sixteen)))

    elsewhere : (y : List ℕ) {q : ℕ} → bytes_eq x y ≡ false → map_get y g.var_map ≡ some q → r ≢ q
    elsewhere y other h e =
        let clash : true ≡ false =
          sym (bytes_eq_refl x)
          ∙ subst (λ z. bytes_eq x z ≡ false)
              (sym (a.apart x y (subst (λ q. map_get x g.var_map ≡ some q) e found) h)) other in
        cc

    has_register : (y : List ℕ) → x ≡ y → map_get y g.var_map ≡ none → ⊥
    has_register y e missing =
        let clash : some r ≡ none =
          sym (subst (λ z. map_get z g.var_map ≡ some r) e found) ∙ missing in
        cc
