-- ===== src/Il/Codegen/Emission.antt =====
-- The emitting functions of crates/audesys-il-compiler/src/codegen.rs along a scan.
use audesys.Base.{
  ℕ, length, ◌<◌, ◌≡◌, ◌≢◌, refl, sym, ap, map_get-map_insert_self, ◌∙◌, subst, some-injective,
  false, List, [], ◌∷◌, some, none, inl, inr, get_elem?, get_elem?-set_self, map_get, map_insert,
  Outcome, ok, Post, returns, Post-bind, arith,
}
use audesys.Hal.Platform.{Platform}
use audesys.Hal.Value.{HalValue}
use audesys.Hal.Value.Arith.{hal_not}
use audesys.Ir.Instr.{Operand, register, signal_name, Opcode}
use audesys.Ir.Vm.State.{Vm, register_count, advance_ip}
use audesys.Ir.Exec.Common.{continue_with}
use audesys.Ir.Exec.Data.{exec_binop, or_false}
use audesys.Ir.Exec.{execute_opcode}
use audesys.Ir.Machine.{is_jump}
use audesys.Il.Codegen.{
  Codegen, emit, cr_reg, temp1_reg, with_var, allocate, emit_load_reg, emit_load_imm, emit_not,
  emit_load_signal, emit_arith,
}
use audesys.Il.Codegen.Registers.{
  Got, known, fresh, get_var_reg-Got, Got-IsAllocated, map_get-allocate,
}
use audesys.Il.Codegen.Running.{Ran-emit}
use audesys.Il.Codegen.Effects.{
  put, InRegister, load_register, load_immediate, load_signal, invert_register, exec_binop_lem,
  store_signal,
}
use audesys.Il.Codegen.Tracking.{Registers, Tracks, put-spare, put-cr, put-hold}
use audesys.Il.Scan.{Scan, hold, accumulate, signal, fetch}

-- Some machine is at the end of the emitted code and agrees with the scan.
abbrev pub Tracked : Platform → Codegen → Scan → Type 0
Tracked pl g σ = (vm : Vm) × Tracks pl g vm σ

module _ {pl : Platform} {g : Codegen} {vm : Vm} {σ : Scan} where
  pub Tracks-emit :
      {σ' : Scan} (vm' : Vm) (opcode : Opcode) (operands : List Operand)
      → Tracks pl g vm σ
      → execute_opcode pl opcode operands vm ≡ continue_with vm'
      → vm'.ip ≡ vm.ip
      → is_jump opcode ≡ false
      → Registers g vm' σ'
      → Tracks pl (emit opcode operands g) (advance_ip vm') σ'
  Tracks-emit vm' opcode operands t does same straight s = record {
    allocated = record {
      bounded = t.allocated.bounded;
      used = t.allocated.used;
      apart = t.allocated.apart;
    };
    no_refs = t.no_refs;
    ran = Ran-emit vm' opcode operands t.ran does same straight;
    registers = record {
      sixteen = s.sixteen;
      current = s.current;
      same_signals = s.same_signals;
      held = s.held;
      unset = s.unset;
      free = s.free;
    };
  }

  pub in_cr : Tracks pl g vm σ → InRegister vm cr_reg σ.accumulator
  in_cr t = (omega arith, t.registers.current)

  pub below_ten :
      (x : List ℕ) {r : ℕ} → Tracks pl g vm σ → map_get x g.var_map ≡ some r → r < register_count
  below_ten x t found = omega (arith, t.allocated.used x found, t.allocated.bounded)

  pub in_variable :
      (x : List ℕ) {r : ℕ}
      → Tracks pl g vm σ
      → map_get x g.var_map ≡ some r
      → InRegister vm r (σ.variables x)
  in_variable x t found = (below_ten x t found, t.registers.held x found)

  -- A load of a register into the accumulator.
  pub Tracked-load_cr :
      (r : ℕ) {v : HalValue}
      → Tracks pl g vm σ
      → InRegister vm r v
      → Tracked pl (emit_load_reg cr_reg r g) (accumulate v σ)
  Tracked-load_cr r {v} t h = (
    _,
    Tracks-emit (put cr_reg v vm) Opcode.load _ t (load_register vm pl cr_reg r (omega arith) h)
        refl refl (put-cr v t.allocated t.registers),
  )

  pub Tracked-invert :
      Tracks pl g vm σ
      → Tracked pl (emit_not cr_reg cr_reg g) (accumulate (hal_not σ.accumulator) σ)
  Tracked-invert t = (
    _,
    Tracks-emit (put cr_reg (hal_not σ.accumulator) vm) Opcode.not _ t
        (invert_register vm pl cr_reg cr_reg (in_cr t) (omega arith)) refl refl
        (put-cr _ t.allocated t.registers),
  )

  pub Tracked-load_imm :
      (x : List ℕ) {r : ℕ} (v : HalValue)
      → Tracks pl g vm σ
      → map_get x g.var_map ≡ some r
      → Tracked pl (emit_load_imm r v g) (hold x v σ)
  Tracked-load_imm x {r} v t found = (
    _,
    Tracks-emit (put r v vm) Opcode.load _ t (load_immediate vm pl r v (below_ten x t found)) refl
        refl (put-hold x v t.allocated found t.registers),
  )

  pub Tracked-load_signal :
      (x : List ℕ) {r : ℕ}
      → Tracks pl g vm σ
      → map_get x g.var_map ≡ some r
      → Tracked pl (emit_load_signal x r g) (fetch x σ)
  Tracked-load_signal x {r} t found = (
    _,
    Tracks-emit (put r (signal σ x) vm) Opcode.load _ t
        (subst
          (λ s.
            execute_opcode pl Opcode.load (register r ∷ signal_name x ∷ []) vm
            ≡ continue_with (put r (or_false (map_get x s)) vm))
          t.registers.same_signals (load_signal vm pl r x (below_ten x t found)))
        refl refl (put-hold x _ t.allocated found t.registers),
  )

  -- An operator on the accumulator and a register.
  pub Tracked-binop :
      (opcode : Opcode) (f : HalValue → HalValue → Outcome HalValue) (r : ℕ) {v w : HalValue}
      → ((ops : List Operand) (vm : Vm) → execute_opcode pl opcode ops vm ≡ exec_binop f ops vm)
      → is_jump opcode ≡ false
      → Tracks pl g vm σ
      → InRegister vm r v
      → f σ.accumulator v ≡ ok w
      → Tracked pl (emit_arith opcode cr_reg r cr_reg g) (accumulate w σ)
  Tracked-binop opcode f r {v} {w} means straight t h does = (
    _,
    Tracks-emit (put cr_reg w vm) opcode _ t
        (means _ vm ∙ exec_binop_lem vm f cr_reg r cr_reg (in_cr t) h (omega arith) does) refl
        straight (put-cr w t.allocated t.registers),
  )

  pub Tracked-store :
      (x : List ℕ)
      → Tracks pl g vm σ
      → Tracked pl
          (emit Opcode.store (signal_name x ∷ register cr_reg ∷ []) g)
          (record σ { signals = map_insert x σ.accumulator σ.signals })
  Tracked-store x t = (
    _,
    Tracks-emit (record vm { signals = map_insert x σ.accumulator vm.signals }) Opcode.store _ t
        (store_signal vm pl x cr_reg (in_cr t)) refl refl
        (record {
          sixteen = t.registers.sixteen;
          current = t.registers.current;
          same_signals = ap (map_insert x σ.accumulator) t.registers.same_signals;
          held = t.registers.held;
          unset = t.registers.unset;
          free = t.registers.free;
        }),
  )

  -- An instruction that changes nothing.
  pub Tracked-idle :
      (opcode : Opcode) (operands : List Operand)
      → Tracks pl g vm σ
      → execute_opcode pl opcode operands vm ≡ continue_with vm
      → is_jump opcode ≡ false
      → Tracked pl (emit opcode operands g) σ
  Tracked-idle opcode operands t does straight =
      (_, Tracks-emit vm opcode operands t does refl straight t.registers)

module _ {pl : Platform} {g : Codegen} {vm : Vm} {σ : Scan} where
  -- A register, inverted, in the temporary one.
  pub Tracked-load_temp :
      (r : ℕ) {v : HalValue}
      → Tracks pl g vm σ
      → InRegister vm r v
      → (vm' : Vm) × Tracks pl (emit_not temp1_reg temp1_reg (emit_load_reg temp1_reg r g)) vm' σ
        × InRegister vm' temp1_reg (hal_not v)
  Tracked-load_temp r {v} t h =
      let copied =
        Tracks-emit (put temp1_reg v vm) Opcode.load _ t
          (load_register vm pl temp1_reg r (omega arith) h) refl refl
          (put-spare temp1_reg v (omega arith) other_reg t.allocated t.registers) in
      let copy : InRegister (advance_ip (put temp1_reg v vm)) temp1_reg v =
        (omega arith, written vm v t.registers.sixteen) in
      let done = advance_ip (put temp1_reg v vm) in
      (
        _,
        Tracks-emit (put temp1_reg (hal_not v) done) Opcode.not _ copied
            (invert_register done pl temp1_reg temp1_reg copy (omega arith)) refl refl
            (put-spare temp1_reg (hal_not v) (omega arith) other_reg copied.allocated
              copied.registers),
        (omega arith, written done (hal_not v) copied.registers.sixteen),
      )
    where
      other_reg : temp1_reg ≢ cr_reg
      other_reg e = omega arith

      written :
          (vm : Vm) (v : HalValue)
          → length vm.registers ≡ register_count
          → get_elem? (put temp1_reg v vm).registers temp1_reg ≡ some v
      written vm v h = get_elem?-set_self vm.registers temp1_reg v (omega arith)

-- The code that is emitted with the register of a variable.
pub Tracked-with_var :
    {pl : Platform} {g : Codegen} {vm : Vm} {σ σ' : Scan} (x : List ℕ) (k : ℕ → Codegen → Codegen)
    → Tracks pl g vm σ
    → ((g' : Codegen) (r : ℕ)
        → Tracks pl g' vm σ
        → map_get x g'.var_map ≡ some r
        → Tracked pl (k r g') σ')
    → Post (λ g'. Tracked pl g' σ') (with_var g x k)
unfolding with_var
Tracked-with_var {pl = pl} {g = g} {vm = vm} {σ = σ} {σ' = σ'} x k t emitted =
    Post-bind (get_var_reg-Got g x) (λ p got. returns (after got))
  where
    Tracks-allocate : map_get x g.var_map ≡ none → g.next_reg < 10 → Tracks pl (allocate g x) vm σ
    Tracks-allocate missing room = record {
      allocated = Got-IsAllocated t.allocated (fresh missing room);
      no_refs = t.no_refs;
      ran = record { at_end = t.ran.at_end; runs = t.ran.runs };
      registers = record {
        sixteen = t.registers.sixteen;
        current = t.registers.current;
        same_signals = t.registers.same_signals;
        held = λ y h. elim (map_get-allocate g x y) [
          | inl (same, at) ↦ first y same (some-injective (sym at ∙ h))
          | inr (ne, at) ↦ t.registers.held y (sym at ∙ h)
        ];
        unset = λ y h. elim (map_get-allocate g x y) [
          | inl (same, at) ↦ let clash : some g.next_reg ≡ none = sym at ∙ h in cc
          | inr (ne, at) ↦ t.registers.unset y (sym at ∙ h)
        ];
        free = λ r h. t.registers.free r (omega arith);
      };
    }
      where
        first :
            (y : List ℕ) {r : ℕ}
            → x ≡ y
            → g.next_reg ≡ r
            → get_elem? vm.registers r ≡ some (σ.variables y)
        first y same e =
            subst (λ q. get_elem? vm.registers q ≡ some (σ.variables y)) e
              (t.registers.free g.next_reg (omega arith) room
                ∙ ap some (
                    sym
                      (t.registers.unset y (subst (λ z. map_get z g.var_map ≡ none) same missing))))

    after : {p : ℕ × Codegen} → Got g x p → Tracked pl (k p.0 p.1) σ'
    after (known {r = r} found) = emitted g r t found
    after (fresh missing room) =
        emitted (allocate g x) g.next_reg (Tracks-allocate missing room)
          (map_get-map_insert_self x g.next_reg g.var_map)
