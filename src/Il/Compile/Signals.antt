-- ===== src/Il/Compile/Signals.antt =====
-- crates/audesys-il-compiler/src/lib.rs: the signals that a compiled program binds.
use audesys.Base.{
  ℕ, ◌≡◌, refl, sym, ◌∙◌, ap, inl, inr, Bool, true, false, Bool-cases, ◌||◌, not, List, [], ◌∷◌,
  map, Option, none, some, if◌then◌else◌, bytes_eq, bytes_eq_sound, bytes_eq_refl, Post, returns,
  Post-bind, Post-any,
}
use audesys.Ir.Instr.{Instruction}
use audesys.Ir.Program.{SignalBinding, HalProgram}
use audesys.Il.Lexer.{tokenize}
use audesys.Il.Parser.{parse}
use audesys.Il.Codegen.{compile_ast}
use audesys.Il.Compile.{stored, seen_before, new_name, bind_signal, bind_names, il_compile}

abbrev is_name : List ℕ → Option (List ℕ) → Bool
is_name x none = false
is_name x (some name) = bytes_eq name x

-- Whether an instruction stores to the signal.
unfoldable pub stores : List ℕ → List Instruction → Bool
stores x [] = false
stores x (i ∷ is) = is_name x (stored i.opcode i.operands) || stores x is

-- Every name stands once.
abbrev pub IsDistinct : List (List ℕ) → Type 0
IsDistinct [] = Unit
IsDistinct (name ∷ names) = (seen_before name names ≡ false) × IsDistinct names

abbrev pub bound_names : HalProgram → List (List ℕ)
bound_names p = map (λ (s : SignalBinding). s.hal_signal_name) p.signals

-- The names that the loop binds: each once, none that was seen, and of the others those stored.
data Bound (seen : List (List ℕ)) (p : List ℕ → Bool) (names : List (List ℕ)) : Type 0 where
  bound :
      IsDistinct names
      → ((x : List ℕ) → seen_before x seen ≡ true → seen_before x names ≡ false)
      → ((x : List ℕ) → seen_before x seen ≡ false → seen_before x names ≡ p x)
      → Bound seen p names

differs :
    (name x : List ℕ) (seen : List (List ℕ)) (b : Bool)
    → seen_before name seen ≡ b
    → seen_before x seen ≡ not b
    → bytes_eq name x ≡ false
differs name x seen b h k = elim (Bool-cases (bytes_eq name x)) [
  | inr other ↦ other
  | inl same ↦
      let clash : b ≡ not b =
        sym h ∙ ap (λ y. seen_before y seen) (bytes_eq_sound name x same) ∙ k in
      absurd (opposite b clash)
]
  where
    opposite : (b : Bool) → b ≡ not b → ⊥
    opposite true e = cc
    opposite false e = cc

-- A name that was seen.
Bound-again :
    (name : List ℕ) (seen : List (List ℕ)) {p : List ℕ → Bool} {names : List (List ℕ)}
    → seen_before name seen ≡ true
    → Bound seen p names
    → Bound seen (λ x. bytes_eq name x || p x) names
Bound-again name seen {p = p} again (bound d old new) =
    bound d old (λ x h. new x h ∙ ap (λ b. b || p x) (sym (differs name x seen true again h)))

-- A new name.
Bound-first :
    (name : List ℕ) (seen : List (List ℕ)) {p : List ℕ → Bool} {names : List (List ℕ)}
    → seen_before name seen ≡ false
    → Bound (name ∷ seen) p names
    → Bound seen (λ x. bytes_eq name x || p x) (name ∷ names)
Bound-first name seen {p = p} {names = names} first (bound d old new) =
    bound (old name (rw (bytes_eq_refl name) refl), d)
      (λ x h.
        rw (differs name x seen false first h) (old x (rw (differs name x seen false first h) h)))
      (λ x h. elim (Bool-cases (bytes_eq name x)) [
        | inl same ↦ rw same refl
        | inr other ↦ rw other (new x (rw other h))
      ])

bind_names-Bound :
    (is : List Instruction) (seen : List (List ℕ))
    → Bound seen (λ x. stores x is) (bind_names seen is)
unfolding bind_names stores
bind_names-Bound [] seen = bound tt (λ x h. refl) (λ x h. refl)
bind_names-Bound (i ∷ is) seen = step (stored i.opcode i.operands) (bind_names-Bound is)
  where
    branch :
        (name : List ℕ) (b : Bool)
        → seen_before name seen ≡ b
        → ((seen : List (List ℕ)) → Bound seen (λ x. stores x is) (bind_names seen is))
        → Bound seen
            (λ x. bytes_eq name x || stores x is)
            (elim (if b then none else some name) [
              | none ↦ bind_names seen is
              | some name ↦ name ∷ bind_names (name ∷ seen) is
            ])
    branch name true h rest = Bound-again name seen h (rest seen)
    branch name false h rest = Bound-first name seen h (rest (name ∷ seen))

    step :
        (o : Option (List ℕ))
        → ((seen : List (List ℕ)) → Bound seen (λ x. stores x is) (bind_names seen is))
        → Bound seen
            (λ x. is_name x o || stores x is)
            (elim (new_name o seen) [
              | none ↦ bind_names seen is
              | some name ↦ name ∷ bind_names (name ∷ seen) is
            ])
    step none rest = rest seen
    step (some name) rest = branch name (seen_before name seen) refl rest

bound_names-bind_signal :
    (names : List (List ℕ))
    → map (λ (s : SignalBinding). s.hal_signal_name) (map bind_signal names) ≡ names
bound_names-bind_signal [] = refl
bound_names-bind_signal (name ∷ names) = ap (◌∷◌ name) (bound_names-bind_signal names)

-- A compiled program binds each signal once, and binds exactly those that one of its instructions
-- stores to.
pub il_compile-bound_names :
    (source : List ℕ)
    → Post
        (λ p.
          IsDistinct (bound_names p)
          × ((x : List ℕ) → seen_before x (bound_names p) ≡ stores x p.instructions))
        (il_compile source)
unfolding il_compile
il_compile-bound_names source =
    Post-bind (Post-any (compile_ast (parse (tokenize source)))) λ code _.
      returns (rw (bound_names-bind_signal (bind_names [] code)) (named (bind_names-Bound code [])))
  where
    named :
        {names : List (List ℕ)} {p : List ℕ → Bool}
        → Bound [] p names
        → IsDistinct names × ((x : List ℕ) → seen_before x names ≡ p x)
    named (bound d old new) = (d, λ x. new x refl)
