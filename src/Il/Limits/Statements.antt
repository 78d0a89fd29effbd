-- ===== src/Il/Limits/Statements.antt =====
-- crates/audesys-il-compiler/src/codegen.rs: the code of each statement keeps the state of the loop.
use audesys.Base.{ℕ, ◌<◌, ◌%◌, Bool, true, false, List, [], ◌∷◌, length, arith, map_insert}
use audesys.Base.Words.{w32, modulus}
use audesys.Hal.Value.{bool, u32}
use audesys.Ir.Instr.{register, immediate, signal_name, Opcode}
use audesys.Il.Parser.{
  IlStatement, load, load_not, store, and_var, and_not, or_var, or_not, xor_var, add_var, sub_var,
  mul_var, div_var, mod_var, cmp, jump_if_not, return, set_var, reset_var, invert, ton_var, tof_var,
  tp_var, ctu_var, ctd_var, r_trig_var, f_trig_var, sr_var, rs_var, label_name,
}
use audesys.Il.Codegen.{
  Codegen, emit, compile_statement, emit_load_reg, emit_load_imm, emit_not, emit_cmp,
  emit_load_signal, accumulate, accumulate_not, run_block, materialize_cr_from_flags,
  emit_bool_test_and_jump, cr_reg, temp1_reg, true_reg, compare_opcode,
}
use audesys.Il.Limits.{
  operand, declare, Kept, Kept-emit, Kept-refer, Limited, within, Limited-with_var,
}

module _ {seen : List (List ℕ)} {g : Codegen} where
  load_reg : (d s : ℕ) → d < 256 → s < 256 → Kept seen g → Kept seen (emit_load_reg d s g)
  load_reg d s h k = Kept-emit Opcode.load (register d ∷ register s ∷ []) (h, (k, tt))

  load_imm : (d : ℕ) (b : Bool) → d < 256 → Kept seen g → Kept seen (emit_load_imm d (bool b) g)
  load_imm d b h = Kept-emit Opcode.load (register d ∷ immediate (bool b) ∷ []) (h, (tt, tt))

  load_signal : (x : List ℕ) (d : ℕ) → d < 256 → Kept seen g → Kept seen (emit_load_signal x d g)
  load_signal x d h = Kept-emit Opcode.load (register d ∷ signal_name x ∷ []) (h, (tt, tt))

  not_reg : (d : ℕ) → d < 256 → Kept seen g → Kept seen (emit_not d d g)
  not_reg d h = Kept-emit Opcode.not (register d ∷ register d ∷ []) (h, (h, tt))

  operator : (opcode : Opcode) (r : ℕ) → r < 256 → Kept seen g → Kept seen (accumulate opcode r g)
  operator opcode r h =
      Kept-emit opcode (register cr_reg ∷ register r ∷ register cr_reg ∷ [])
        (omega arith, (h, (omega arith, tt)))

  comparison :
      (opcode : Opcode) (r : ℕ) → r < 256 → Kept seen g → Kept seen (emit_cmp opcode cr_reg r g)
  comparison opcode r h =
      Kept-emit opcode (register cr_reg ∷ register r ∷ []) (omega arith, (h, tt))

  block : (opcode : Opcode) (r : ℕ) → r < 256 → Kept seen g → Kept seen (run_block opcode r g)
  block opcode r h = Kept-emit opcode (register r ∷ []) (h, tt)

  target :
      (opcode : Opcode) (ip : ℕ)
      → Kept seen g
      → Kept seen (emit opcode (immediate (u32 (ip % modulus w32)) ∷ []) g)
  target opcode ip = Kept-emit opcode _ (omega arith, tt)

  labelled :
      (name : List ℕ)
      → Kept seen g
      → Kept seen (record g { labels = map_insert name (length g.instructions) g.labels })
  labelled name k = record {
    counted = k.counted;
    named = k.named;
    used = k.used;
    limit = k.limit;
    referred = k.referred;
    valid = k.valid;
  }

operator_not :
    {seen : List (List ℕ)} {g : Codegen} (opcode : Opcode) (r : ℕ)
    → r < 256
    → Kept seen g
    → Kept seen (accumulate_not opcode r g)
operator_not opcode r h k =
    operator opcode temp1_reg (omega arith)
      (not_reg temp1_reg (omega arith) (load_reg temp1_reg r (omega arith) h k))

materialized :
    {seen : List (List ℕ)} {g : Codegen} → Kept seen g → Kept seen (materialize_cr_from_flags g)
unfolding materialize_cr_from_flags
materialized k =
    load_imm cr_reg true (omega arith)
      (target Opcode.jump _ (load_imm cr_reg false (omega arith) (target Opcode.jump_if _ k)))

tested :
    {seen : List (List ℕ)} {g : Codegen} (label : List ℕ) (negate : Bool)
    → Kept seen g
    → Kept seen (emit_bool_test_and_jump label negate g)
unfolding emit_bool_test_and_jump
tested label negate k =
    Kept-refer Opcode.jump_if _ label (omega arith, tt) (comparison _ true_reg (omega arith) k)

wide : {r : ℕ} → r < 10 → r < 256
wide h = omega arith

pub Limited-statement :
    {seen : List (List ℕ)} {g : Codegen} (s : IlStatement)
    → Kept seen g
    → Limited (declare (operand s) seen) (compile_statement s g)
unfolding operand compile_statement
Limited-statement (label_name name) k = within (labelled name k)
Limited-statement (store x) k =
    within (Kept-emit Opcode.store (signal_name x ∷ register cr_reg ∷ []) (tt, (omega arith, tt)) k)
Limited-statement (IlStatement.jump l) k = within (Kept-refer Opcode.jump _ l (omega arith, tt) k)
Limited-statement (IlStatement.jump_if l) k = within (tested l false k)
Limited-statement (jump_if_not l) k = within (tested l true k)
Limited-statement (IlStatement.call l) k = within (Kept-refer Opcode.call _ l (omega arith, tt) k)
Limited-statement return k = within (Kept-emit Opcode.ret [] tt k)
Limited-statement invert k = within (not_reg cr_reg (omega arith) k)
Limited-statement (load x) k =
    Limited-with_var x _ k
      λ r g h k. load_reg cr_reg r (omega arith) (wide h) (load_signal x r (wide h) k)
Limited-statement (load_not x) k = Limited-with_var x _ k λ r g h k.
    not_reg cr_reg (omega arith)
      (load_reg cr_reg r (omega arith) (wide h) (load_signal x r (wide h) k))
Limited-statement (and_var x) k =
    Limited-with_var x _ k λ r g h k. operator Opcode.and r (wide h) (load_signal x r (wide h) k)
Limited-statement (and_not x) k =
    Limited-with_var x _ k
      λ r g h k. operator_not Opcode.and r (wide h) (load_signal x r (wide h) k)
Limited-statement (cmp op x) k =
    Limited-with_var x _ k λ r g h k. materialized (comparison (compare_opcode op) r (wide h) k)
Limited-statement (or_not x) k =
    Limited-with_var x _ k λ r g h k. operator_not Opcode.or r (wide h) k
Limited-statement (set_var x) k = Limited-with_var x _ k λ r g h k. load_imm r true (wide h) k
Limited-statement (reset_var x) k = Limited-with_var x _ k λ r g h k. load_imm r false (wide h) k
Limited-statement (or_var x) k = Limited-with_var x _ k λ r g h k. operator Opcode.or r (wide h) k
Limited-statement (xor_var x) k = Limited-with_var x _ k λ r g h k. operator Opcode.xor r (wide h) k
Limited-statement (add_var x) k = Limited-with_var x _ k λ r g h k. operator Opcode.add r (wide h) k
Limited-statement (sub_var x) k = Limited-with_var x _ k λ r g h k. operator Opcode.sub r (wide h) k
Limited-statement (mul_var x) k = Limited-with_var x _ k λ r g h k. operator Opcode.mul r (wide h) k
Limited-statement (div_var x) k = Limited-with_var x _ k λ r g h k. operator Opcode.div r (wide h) k
Limited-statement (mod_var x) k =
    Limited-with_var x _ k λ r g h k. operator Opcode.modulo r (wide h) k
Limited-statement (ton_var x) k =
    Limited-with_var x _ k λ r g h k. block Opcode.timer_run r (wide h) k
Limited-statement (tof_var x) k =
    Limited-with_var x _ k λ r g h k. block Opcode.timer_run r (wide h) k
Limited-statement (tp_var x) k =
    Limited-with_var x _ k λ r g h k. block Opcode.timer_run r (wide h) k
Limited-statement (ctu_var x) k =
    Limited-with_var x _ k λ r g h k. block Opcode.counter_run r (wide h) k
Limited-statement (ctd_var x) k =
    Limited-with_var x _ k λ r g h k. block Opcode.counter_run r (wide h) k
Limited-statement (r_trig_var x) k =
    Limited-with_var x _ k λ r g h k. block Opcode.edge_run r (wide h) k
Limited-statement (f_trig_var x) k =
    Limited-with_var x _ k λ r g h k. block Opcode.edge_run r (wide h) k
Limited-statement (sr_var x) k = Limited-with_var x _ k λ r g h k. block Opcode.sr_run r (wide h) k
Limited-statement (rs_var x) k = Limited-with_var x _ k λ r g h k. block Opcode.sr_run r (wide h) k
