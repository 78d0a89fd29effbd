-- ===== src/Il/Codegen/Straight.antt =====
-- The code that crates/audesys-il-compiler/src/codegen.rs makes of straight-line statements, and the
-- scan that they mean.
use audesys.Base.{
  ℕ, ◌≡◌, refl, subst, true, false, List, [], ◌∷◌, map_insert, some, length, map_get, bytes_eq_refl,
  Outcome, ok, bind-ok, Post, returns, Post-ok,
}
use audesys.Hal.Platform.{Platform}
use audesys.Hal.Value.{HalValue, bool}
use audesys.Hal.Value.Arith.{hal_not, hal_binop, add_op, sub_op, mul_op}
use audesys.Ir.Instr.{Operand, register, Opcode}
use audesys.Ir.Vm.State.{Vm}
use audesys.Ir.Exec.Common.{continue_with}
use audesys.Ir.Exec.Data.{exec_binop, div_or_zero, rem_or_zero}
use audesys.Ir.Exec.Blocks.{exec_timer_run, exec_counter_run, exec_sr_run, exec_edge_run}
use audesys.Ir.Exec.{execute_opcode}
use audesys.Ir.Machine.{is_jump}
use audesys.Il.Parser.{
  IlStatement, load, load_not, store, and_var, and_not, or_var, or_not, xor_var, add_var, sub_var,
  mul_var, div_var, mod_var, cmp, jump, jump_if, jump_if_not, call, return, set_var, reset_var,
  invert, ton_var, tof_var, tp_var, ctu_var, ctd_var, r_trig_var, f_trig_var, sr_var, rs_var,
  label_name,
}
use audesys.Il.Codegen.{
  Codegen, cr_reg, temp1_reg, compile_statement, accumulate_not, run_block, emit_arith,
}
use audesys.Il.Codegen.Effects.{InRegister}
use audesys.Il.Codegen.Tracking.{Tracks}
use audesys.Il.Codegen.Emission.{
  Tracked, in_variable, Tracked-load_cr, Tracked-invert, Tracked-load_imm, Tracked-load_signal,
  Tracked-binop, Tracked-store, Tracked-idle, Tracked-load_temp, Tracked-with_var,
}
use audesys.Il.Scan.{
  Scan, hold, accumulate, signal, fetch, combine, and_values, or_values, xor_values, is_straight,
  run_statement,
}

-- What a scan holds of a variable that has just got a value.
held_now : (x : List ℕ) (v : HalValue) (σ : Scan) → (hold x v σ).variables x ≡ v
held_now x v σ = rw (bytes_eq_refl x) refl

-- The result of a combination.
combined :
    (f : HalValue → HalValue → Outcome HalValue) (v : HalValue) (σ : Scan) {σ' : Scan}
    → combine f v σ ≡ ok σ'
    → (w : HalValue) × (f σ.accumulator v ≡ ok w) × (accumulate w σ ≡ σ')
combined f v σ h =
    let (w, e, same) = bind-ok (f σ.accumulator v) h in
    (w, e, Post-ok {P = λ s. accumulate w σ ≡ s} (returns refl) same)

module _ {pl : Platform} where
  -- The code of an operator on a register that holds `v`.
  Tracked-combine :
      (opcode : Opcode) (f : HalValue → HalValue → Outcome HalValue) (r : ℕ) {v : HalValue}
      {g : Codegen} {vm : Vm} {σ σ' : Scan}
      → ((ops : List Operand) (vm : Vm) → execute_opcode pl opcode ops vm ≡ exec_binop f ops vm)
      → is_jump opcode ≡ false
      → Tracks pl g vm σ
      → InRegister vm r v
      → combine f v σ ≡ ok σ'
      → Tracked pl (emit_arith opcode cr_reg r cr_reg g) σ'
  Tracked-combine opcode f r {v} {σ = σ} means straight t h does =
      let (w, e, same) = combined f v σ does in
      subst (Tracked pl _) same (Tracked-binop opcode f r means straight t h e)

  -- The same for the negation of the register.
  Tracked-combine_not :
      (opcode : Opcode) (f : HalValue → HalValue → Outcome HalValue) (r : ℕ) {v : HalValue}
      {g : Codegen} {vm : Vm} {σ σ' : Scan}
      → ((ops : List Operand) (vm : Vm) → execute_opcode pl opcode ops vm ≡ exec_binop f ops vm)
      → is_jump opcode ≡ false
      → Tracks pl g vm σ
      → InRegister vm r v
      → combine f (hal_not v) σ ≡ ok σ'
      → Tracked pl (accumulate_not opcode r g) σ'
  Tracked-combine_not opcode f r means straight t h does =
      let (vm', t', h') = Tracked-load_temp r t h in
      Tracked-combine opcode f temp1_reg means straight t' h' does

  -- The variable's register once the signal is in it.
  fetched :
      (x : List ℕ) {r : ℕ} {g : Codegen} {vm : Vm} (σ : Scan)
      → Tracks pl g vm (fetch x σ)
      → map_get x g.var_map ≡ some r
      → InRegister vm r (signal σ x)
  fetched x {r = r} {vm = vm} σ t found =
      subst (InRegister vm r) (held_now x (signal σ x) σ) (in_variable x t found)

  settle : {g : Codegen} {σ σ' : Scan} → ok σ ≡ ok σ' → Tracked pl g σ → Tracked pl g σ'
  settle {g = g} {σ = σ} e t = subst (Tracked pl g) (Post-ok {P = λ s. σ ≡ s} (returns refl) e) t

  -- A call of a function block with one operand.
  Tracked-run_block :
      (opcode : Opcode) (r : ℕ) {g : Codegen} {vm : Vm} {σ σ' : Scan}
      → execute_opcode pl opcode (register r ∷ []) vm ≡ continue_with vm
      → is_jump opcode ≡ false
      → Tracks pl g vm σ
      → ok σ ≡ ok σ'
      → Tracked pl (run_block opcode r g) σ'
  Tracked-run_block opcode r idle straight t e =
      settle e (Tracked-idle opcode (register r ∷ []) t idle straight)

  Tracked-label :
      (name : List ℕ) {g : Codegen} {vm : Vm} {σ : Scan}
      → Tracks pl g vm σ
      → Tracked pl (record g { labels = map_insert name (length g.instructions) g.labels }) σ
  Tracked-label name {vm = vm} t = (
    vm,
    record {
      allocated = record {
        bounded = t.allocated.bounded;
        used = t.allocated.used;
        apart = t.allocated.apart;
      };
      no_refs = t.no_refs;
      ran = record { at_end = t.ran.at_end; runs = t.ran.runs };
      registers = record {
        sixteen = t.registers.sixteen;
        current = t.registers.current;
        same_signals = t.registers.same_signals;
        held = t.registers.held;
        unset = t.registers.unset;
        free = t.registers.free;
      };
    },
  )

  pub Tracked-statement :
      {g : Codegen} {vm : Vm} {σ σ' : Scan} (s : IlStatement)
      → is_straight s ≡ true
      → Tracks pl g vm σ
      → run_statement pl s σ ≡ ok σ'
      → Post (λ g'. Tracked pl g' σ') (compile_statement s g)
  unfolding compile_statement run_statement execute_opcode exec_timer_run exec_counter_run
      exec_sr_run exec_edge_run
  Tracked-statement {σ = σ} (load x) e t h = Tracked-with_var x _ t λ g r t found.
      let (vm', t') = Tracked-load_signal x t found in
      settle h (Tracked-load_cr r t' (fetched x σ t' found))
  Tracked-statement {σ = σ} (load_not x) e t h = Tracked-with_var x _ t λ g r t found.
      let (vm', t') = Tracked-load_signal x t found in
      let (vm'', t'') = Tracked-load_cr r t' (fetched x σ t' found) in settle h (Tracked-invert t'')
  Tracked-statement {g = g} {σ = σ} (store x) e t h = returns (settle h (Tracked-store x t))
  Tracked-statement {σ = σ} (and_var x) e t h = Tracked-with_var x _ t λ g r t found.
      let (vm', t') = Tracked-load_signal x t found in
      Tracked-combine Opcode.and and_values r (λ ops vm. refl) refl t' (fetched x σ t' found) h
  Tracked-statement {σ = σ} (and_not x) e t h = Tracked-with_var x _ t λ g r t found.
      let (vm', t') = Tracked-load_signal x t found in
      Tracked-combine_not Opcode.and and_values r (λ ops vm. refl) refl t' (fetched x σ t' found) h
  Tracked-statement (or_var x) e t h = Tracked-with_var x _ t λ g r t found.
      Tracked-combine Opcode.or or_values r (λ ops vm. refl) refl t (in_variable x t found) h
  Tracked-statement (or_not x) e t h = Tracked-with_var x _ t λ g r t found.
      Tracked-combine_not Opcode.or or_values r (λ ops vm. refl) refl t (in_variable x t found) h
  Tracked-statement (xor_var x) e t h = Tracked-with_var x _ t λ g r t found.
      Tracked-combine Opcode.xor xor_values r (λ ops vm. refl) refl t (in_variable x t found) h
  Tracked-statement (add_var x) e t h = Tracked-with_var x _ t λ g r t found.
      Tracked-combine Opcode.add (hal_binop (add_op pl)) r (λ ops vm. refl) refl t
        (in_variable x t found) h
  Tracked-statement (sub_var x) e t h = Tracked-with_var x _ t λ g r t found.
      Tracked-combine Opcode.sub (hal_binop (sub_op pl)) r (λ ops vm. refl) refl t
        (in_variable x t found) h
  Tracked-statement (mul_var x) e t h = Tracked-with_var x _ t λ g r t found.
      Tracked-combine Opcode.mul (hal_binop (mul_op pl)) r (λ ops vm. refl) refl t
        (in_variable x t found) h
  Tracked-statement (div_var x) e t h = Tracked-with_var x _ t λ g r t found.
      Tracked-combine Opcode.div (div_or_zero pl) r (λ ops vm. refl) refl t (in_variable x t found)
        h
  Tracked-statement (mod_var x) e t h = Tracked-with_var x _ t λ g r t found.
      Tracked-combine Opcode.modulo (rem_or_zero pl) r (λ ops vm. refl) refl t
        (in_variable x t found) h
  Tracked-statement (set_var x) e t h =
      Tracked-with_var x _ t λ g r t found. settle h (Tracked-load_imm x (bool true) t found)
  Tracked-statement (reset_var x) e t h =
      Tracked-with_var x _ t λ g r t found. settle h (Tracked-load_imm x (bool false) t found)
  Tracked-statement invert e t h = returns (settle h (Tracked-invert t))
  Tracked-statement (ton_var x) e t h =
      Tracked-with_var x _ t λ g r t found. Tracked-run_block Opcode.timer_run r refl refl t h
  Tracked-statement (tof_var x) e t h =
      Tracked-with_var x _ t λ g r t found. Tracked-run_block Opcode.timer_run r refl refl t h
  Tracked-statement (tp_var x) e t h =
      Tracked-with_var x _ t λ g r t found. Tracked-run_block Opcode.timer_run r refl refl t h
  Tracked-statement (ctu_var x) e t h =
      Tracked-with_var x _ t λ g r t found. Tracked-run_block Opcode.counter_run r refl refl t h
  Tracked-statement (ctd_var x) e t h =
      Tracked-with_var x _ t λ g r t found. Tracked-run_block Opcode.counter_run r refl refl t h
  Tracked-statement (r_trig_var x) e t h =
      Tracked-with_var x _ t λ g r t found. Tracked-run_block Opcode.edge_run r refl refl t h
  Tracked-statement (f_trig_var x) e t h =
      Tracked-with_var x _ t λ g r t found. Tracked-run_block Opcode.edge_run r refl refl t h
  Tracked-statement (sr_var x) e t h =
      Tracked-with_var x _ t λ g r t found. Tracked-run_block Opcode.sr_run r refl refl t h
  Tracked-statement (rs_var x) e t h =
      Tracked-with_var x _ t λ g r t found. Tracked-run_block Opcode.sr_run r refl refl t h
  Tracked-statement (label_name name) e t h = returns (settle h (Tracked-label name t))
  Tracked-statement (cmp op x) e t h = absurd (cc)
  Tracked-statement (jump l) e t h = absurd (cc)
  Tracked-statement (jump_if l) e t h = absurd (cc)
  Tracked-statement (jump_if_not l) e t h = absurd (cc)
  Tracked-statement (call l) e t h = absurd (cc)
  Tracked-statement return e t h = absurd (cc)
