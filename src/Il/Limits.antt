-- ===== src/Il/Limits.antt =====
-- crates/audesys-il-compiler/src/codegen.rs: the variables of a source and the validity of its code,
-- along the loop over the statements.
pub mod Statements
pub mod Programs
use audesys.Base.{
  ℕ, suc, ◌+◌, ◌<◌, ◌≤◌, ◌%◌, ◌≡◌, ◌≢◌, some-injective, bytes_eq_sound, refl, sym, ◌∙◌, ap, subst,
  inl, inr, Bool, true, false, Bool-cases, List, [], ◌∷◌, ◌++◌, Option, none, some, length,
  length-append, All, All-append, Option-cases, if◌then◌else◌, ltb, ltb→lt, le→ltb, lt→ltb, Outcome,
  ok, panic, ◌>>=◌, map_get, bytes_eq, arith, bytes_eq_refl,
}
use audesys.Base.Words.{w32, modulus}
use audesys.Hal.Value.{bool}
use audesys.Ir.Instr.{
  Operand, register, immediate, Opcode, Instruction, IsOperand, IsInstruction, instruction,
}
use audesys.Il.Parser.{
  IlStatement, load, load_not, store, and_var, and_not, or_var, or_not, xor_var, add_var, sub_var,
  mul_var, div_var, mod_var, cmp, jump_if_not, return, set_var, reset_var, invert, ton_var, tof_var,
  tp_var, ctu_var, ctd_var, r_trig_var, f_trig_var, sr_var, rs_var, label_name,
}
use audesys.Il.Codegen.{Codegen, emit, get_var_reg, with_var, allocate, user_reg_max, refer}
use audesys.Il.Codegen.Registers.{map_get-allocate}
use audesys.Il.Compile.{seen_before}

-- The variable that a statement takes a register for.
unfoldable pub operand : IlStatement → Option (List ℕ)
operand (store x) = none
operand (IlStatement.jump l) = none
operand (IlStatement.jump_if l) = none
operand (jump_if_not l) = none
operand (IlStatement.call l) = none
operand return = none
operand invert = none
operand (label_name l) = none
operand (load x) = some x
operand (load_not x) = some x
operand (and_var x) = some x
operand (and_not x) = some x
operand (or_var x) = some x
operand (or_not x) = some x
operand (xor_var x) = some x
operand (add_var x) = some x
operand (sub_var x) = some x
operand (mul_var x) = some x
operand (div_var x) = some x
operand (mod_var x) = some x
operand (cmp op x) = some x
operand (set_var x) = some x
operand (reset_var x) = some x
operand (ton_var x) = some x
operand (tof_var x) = some x
operand (tp_var x) = some x
operand (ctu_var x) = some x
operand (ctd_var x) = some x
operand (r_trig_var x) = some x
operand (f_trig_var x) = some x
operand (sr_var x) = some x
operand (rs_var x) = some x

abbrev pub declare : Option (List ℕ) → List (List ℕ) → List (List ℕ)
declare none seen = seen
declare (some x) seen = if seen_before x seen then seen else x ∷ seen

-- The different variables of the statements, with those seen before.
unfoldable pub variables : List IlStatement → List (List ℕ) → List (List ℕ)
variables [] seen = seen
variables (s ∷ stmts) seen = variables stmts (declare (operand s) seen)

abbrev has_value : Option ℕ → Bool
has_value none = false
has_value (some r) = true

-- The state of the loop once the variables of `seen` have their registers: the references point
-- into the code, and the code is valid.
pub record Kept (seen : List (List ℕ)) (g : Codegen) : Type 0 where
  pub counted : g.next_reg ≡ length seen
  pub named : (x : List ℕ) → has_value (map_get x g.var_map) ≡ seen_before x seen
  pub used : (x : List ℕ) {r : ℕ} → map_get x g.var_map ≡ some r → r < 10
  pub limit : length seen ≤ 10
  pub referred : All (λ (e : ℕ × List ℕ). e.0 < length g.instructions) g.label_refs
  pub valid : All IsInstruction g.instructions

grown :
    (xs ys : List Instruction) (refs : List (ℕ × List ℕ))
    → All (λ (e : ℕ × List ℕ). e.0 < length xs) refs
    → All (λ (e : ℕ × List ℕ). e.0 < length (xs ++ ys)) refs
grown xs ys [] h = tt
grown xs ys (e ∷ refs) h = (omega (arith, h.0, length-append xs ys), grown xs ys refs h.1)

module _ {seen : List (List ℕ)} {g : Codegen} where
  pub Kept-emit :
      (opcode : Opcode) (operands : List Operand)
      → All IsOperand operands
      → Kept seen g
      → Kept seen (emit opcode operands g)
  Kept-emit opcode operands h k = record {
    counted = k.counted;
    named = k.named;
    used = k.used;
    limit = k.limit;
    referred = grown g.instructions _ g.label_refs k.referred;
    valid = All-append IsInstruction g.instructions _ k.valid (h, tt);
  }

  -- A reference to the instruction that is emitted next.
  pub Kept-refer :
      (opcode : Opcode) (operands : List Operand) (label : List ℕ)
      → All IsOperand operands
      → Kept seen g
      → Kept seen (emit opcode operands (refer label g))
  Kept-refer opcode operands label h k = record {
    counted = k.counted;
    named = k.named;
    used = k.used;
    limit = k.limit;
    referred =
        All-append
          (λ (e : ℕ × List ℕ). e.0 < length (g.instructions ++ instruction opcode operands ∷ []))
          g.label_refs _ (grown g.instructions _ g.label_refs k.referred)
          (omega (arith, length-append g.instructions (instruction opcode operands ∷ [])), tt);
    valid = All-append IsInstruction g.instructions _ k.valid (h, tt);
  }

-- The result of a part of the loop: ten variables at most, or a panic.
pub data Limited (seen : List (List ℕ)) : Outcome Codegen → Type 0 where
  within : {g : Codegen} → Kept seen g → Limited seen (ok g)
  beyond : 10 < length seen → Limited seen panic

-- A new variable gets the next register.
Kept-allocate :
    {seen : List (List ℕ)} {g : Codegen} (x : List ℕ)
    → length seen < 10
    → Kept seen g
    → Kept (x ∷ seen) (allocate g x)
Kept-allocate {seen = seen} {g = g} x room k = record {
  counted = ap suc k.counted;
  named = λ y. elim (map_get-allocate g x y) [
    | inl (same, at) ↦ rw at (sym (first y same))
    | inr (ne, at) ↦ rw at (k.named y ∙ sym (other y ne))
  ];
  used = λ y h. elim (map_get-allocate g x y) [
    | inl (same, at) ↦ omega (arith, some-injective (sym at ∙ h), k.counted)
    | inr (ne, at) ↦ k.used y (sym at ∙ h)
  ];
  limit = room;
  referred = k.referred;
  valid = k.valid;
}
  where
    first : (y : List ℕ) → x ≡ y → seen_before y (x ∷ seen) ≡ true
    first y same = subst (λ z. seen_before z (x ∷ seen) ≡ true) same (rw (bytes_eq_refl x) refl)

    other : (y : List ℕ) → x ≢ y → seen_before y (x ∷ seen) ≡ seen_before y seen
    other y ne = elim (Bool-cases (bytes_eq x y)) [
      | inl same ↦ absurd (ne (bytes_eq_sound x y same))
      | inr differ ↦ rw differ refl
    ]

pub Limited-with_var :
    {seen : List (List ℕ)} {g : Codegen} (x : List ℕ) (k : ℕ → Codegen → Codegen)
    → Kept seen g
    → ((r : ℕ) (g : Codegen)
        → r < 10
        → Kept (declare (some x) seen) g
        → Kept (declare (some x) seen) (k r g))
    → Limited (declare (some x) seen) (with_var g x k)
unfolding with_var get_var_reg
Limited-with_var {seen} {g} x k kept keeps = elim (Option-cases (map_get x g.var_map)) [
  | inr (r, found) ↦ rw found (
      within (
        keeps r g (kept.used x found)
          (declared true (sym (kept.named x) ∙ ap has_value found) kept)))
  | inl missing ↦
      let new : seen_before x seen ≡ false = sym (kept.named x) ∙ ap has_value missing in
      elim (Bool-cases (ltb user_reg_max g.next_reg)) [
        | inl full ↦
            rw (missing, full)
              (rw new (beyond (omega (arith, above g.next_reg full, kept.counted))))
        | inr room ↦
            rw (missing, room)
              (within (
                keeps g.next_reg (allocate g x) (below g.next_reg room) (
                  declared false new
                    (Kept-allocate x (omega (arith, below g.next_reg room, kept.counted)) kept))))
      ]
]
  where
    declared :
        (b : Bool) {g : Codegen}
        → seen_before x seen ≡ b
        → Kept (if b then seen else x ∷ seen) g
        → Kept (declare (some x) seen) g
    declared b {g} e h = subst (λ b. Kept (if b then seen else x ∷ seen) g) (sym e) h

    above : (n : ℕ) → ltb user_reg_max n ≡ true → 9 < n
    above n h = ltb→lt user_reg_max n h

    below : (n : ℕ) → ltb user_reg_max n ≡ false → n < 10
    below n h = grind arith
