-- ===== src/Amw/Qos/Words.antt =====
-- What `str::starts_with` and `str::contains` find.
use audesys.Base.{
  ◌≡◌, ◌↔◌, refl, sym, ap, ap₂, inl, inr, Bool, true, false, ◌&&◌, ◌||◌, Bool-cases, ℕ, List, [],
  ◌∷◌, ◌++◌, ◌==◌, ==_iff,
}
use audesys.Amw.Qos.{starts_with, has}

pub starts_with-append : (core rest : List ℕ) → starts_with core (core ++ rest) ≡ true
unfolding starts_with
starts_with-append [] rest = refl
starts_with-append (c ∷ core) rest = rw ((==_iff c c).1 refl) (starts_with-append core rest)

pub starts_with_sound :
    (core name : List ℕ) → starts_with core name ≡ true → (rest : List ℕ) × (name ≡ core ++ rest)
unfolding starts_with
starts_with_sound [] name h = (name, refl)
starts_with_sound (c ∷ core) [] h = absurd (cc)
starts_with_sound (c ∷ core) (d ∷ name) h = elim (Bool-cases (c == d)) [
  | inl same ↦
      let (rest, e) = starts_with_sound core name (later (c == d) same h) in
      (rest, ap₂ (◌∷◌) (sym ((==_iff c d).0 same)) e)
  | inr other ↦ absurd (never (c == d) _ other h)
]
  where
    later : (b : Bool) {r : Bool} → b ≡ true → (b && r) ≡ true → r ≡ true
    later true e h = h
    later false e h = absurd (cc)

    never : (b r : Bool) → b ≡ false → (b && r) ≡ true → ⊥
    never true r e h = cc
    never false r e h = cc

abbrev pub Contains : List ℕ → List ℕ → Type 0
Contains text word = (before after : List ℕ) × (text ≡ before ++ word ++ after)

or_true : (a b : Bool) → b ≡ true → (a || b) ≡ true
or_true true b h = refl
or_true false b h = h

has-append : (word before after : List ℕ) → has (before ++ word ++ after) word ≡ true
unfolding has
has-append word (b ∷ before) after =
    or_true (starts_with word (b ∷ (before ++ word ++ after))) _ (has-append word before after)
has-append word [] after = first (word ++ after) (starts_with-append word after)
  where
    first : (text : List ℕ) → starts_with word text ≡ true → has text word ≡ true
    first [] h = h
    first (b ∷ text) h = rw h refl

has_sound : (text word : List ℕ) → has text word ≡ true → Contains text word
unfolding has
has_sound [] word h = let (rest, e) = starts_with_sound word [] h in ([], rest, e)
has_sound (b ∷ text) word h = elim (Bool-cases (starts_with word (b ∷ text))) [
  | inl starts ↦ let (rest, e) = starts_with_sound word (b ∷ text) starts in ([], rest, e)
  | inr later ↦
      let (before, after, e) = has_sound text word (second (starts_with word (b ∷ text)) later h) in
      (b ∷ before, after, ap (◌∷◌ b) e)
]
  where
    second : (a : Bool) {r : Bool} → a ≡ false → (a || r) ≡ true → r ≡ true
    second true e h = absurd (cc)
    second false e h = h

pub has_iff : (text word : List ℕ) → (has text word ≡ true) ↔ Contains text word
has_iff text word = (has_sound text word, λ (before, after, e). rw e (has-append word before after))
