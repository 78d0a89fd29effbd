-- ===== src/Il/Codegen/Registers.antt =====
-- crates/audesys-il-compiler/src/codegen.rs, `get_var_reg`: the registers of the variables.
use audesys.Base.{
  ℕ, suc, ◌<◌, ◌≤◌, ◌≡◌, ◌≢◌, sym, ◌∙◌, subst, some-injective, inl, inr, ◌⊎◌, false, Bool-cases,
  List, Option, none, some, ltb, Post, returns, panics, map_get, map_get-map_insert_self,
  map_get-map_insert_ne, bytes_eq, bytes_eq_sound, bytes_ne, arith, Option-cases,
}
use audesys.Il.Codegen.{Codegen, new_codegen, allocate, get_var_reg, user_reg_max}

-- Each variable has a register of its own below the next free one.
pub record IsAllocated (g : Codegen) : Type 0 where
  pub bounded : g.next_reg ≤ 10
  pub used : (x : List ℕ) {r : ℕ} → map_get x g.var_map ≡ some r → r < g.next_reg
  pub apart :
      (x y : List ℕ) {r : ℕ} → map_get x g.var_map ≡ some r → map_get y g.var_map ≡ some r → x ≡ y

pub new_codegen-IsAllocated : IsAllocated new_codegen
unfolding map_get
new_codegen-IsAllocated = record {
  bounded = omega arith;
  used = λ x h. absurd (cc);
  apart = λ x y h k. absurd (cc);
}

-- What `get_var_reg` gives: the register of a known variable, or the next free one.
pub data Got (g : Codegen) (name : List ℕ) : ℕ × Codegen → Type 0 where
  known : {r : ℕ} → map_get name g.var_map ≡ some r → Got g name (r, g)
  fresh : map_get name g.var_map ≡ none → g.next_reg < 10 → Got g name (g.next_reg, allocate g name)

pub get_var_reg-Got : (g : Codegen) (name : List ℕ) → Post (Got g name) (get_var_reg g name)
unfolding get_var_reg
get_var_reg-Got g name = elim (Option-cases (map_get name g.var_map)) [
  | inr (r, found) ↦ rw found (returns (known found))
  | inl missing ↦ elim (Bool-cases (ltb user_reg_max g.next_reg)) [
    | inl full ↦ rw (missing, full) panics
    | inr room ↦ rw (missing, room) (returns (fresh missing (below g.next_reg room)))
  ]
]
  where
    below : (n : ℕ) → ltb user_reg_max n ≡ false → n < 10
    below n h = grind arith

-- A look-up of the variables once one more has a register.
pub map_get-allocate :
    (g : Codegen) (name x : List ℕ)
    → ((name ≡ x) × (map_get x (allocate g name).var_map ≡ some g.next_reg))
      ⊎ ((name ≢ x) × (map_get x (allocate g name).var_map ≡ map_get x g.var_map))
map_get-allocate g name x = elim (Bool-cases (bytes_eq name x)) [
  | inl same ↦
      let e = bytes_eq_sound name x same in
      inl (
        e,
        subst (λ y. map_get y (allocate g name).var_map ≡ some g.next_reg) e
            (map_get-map_insert_self name g.next_reg g.var_map),
      )
  | inr other ↦
      let ne = bytes_ne name x other in
      inr (ne, map_get-map_insert_ne name x g.next_reg g.var_map ne)
]

pub Got-IsAllocated :
    {g : Codegen} {name : List ℕ} {p : ℕ × Codegen} → IsAllocated g → Got g name p → IsAllocated p.1
Got-IsAllocated a (known found) = a
Got-IsAllocated {g = g} {name = name} a (fresh missing room) = record {
  bounded = room;
  used = λ x {r} h. elim (map_get-allocate g name x) [
    | inl (same, at) ↦ newest at h
    | inr (ne, at) ↦ older (a.used x (sym at ∙ h))
  ];
  apart = λ x y {r} h k. elim (map_get-allocate g name x) [
    | inl (e, at) ↦ elim (map_get-allocate g name y) [
      | inl (e', at') ↦ sym e ∙ e'
      | inr (ne', at') ↦ absurd (later (a.used y (sym at' ∙ k)) at h)
    ]
    | inr (ne, at) ↦ elim (map_get-allocate g name y) [
      | inl (e', at') ↦ absurd (later (a.used x (sym at ∙ h)) at' k)
      | inr (ne', at') ↦ a.apart x y (sym at ∙ h) (sym at' ∙ k)
    ]
  ];
}
  where
    newest : {o : Option ℕ} {r : ℕ} → o ≡ some g.next_reg → o ≡ some r → r < suc g.next_reg
    newest at h = grind (arith, some-injective (sym at ∙ h))

    older : {r : ℕ} → r < g.next_reg → r < suc g.next_reg
    older h = omega arith

    later : {o : Option ℕ} {r : ℕ} → r < g.next_reg → o ≡ some g.next_reg → o ≡ some r → ⊥
    later h at k = grind (arith, some-injective (sym at ∙ k))
