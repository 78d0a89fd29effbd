-- ===== src/Ir/Machine/Sets.antt =====
-- The breakpoint set as a list: its operations, and `sort`.
use audesys.Base.{
  ℕ, ◌≤◌, ◌≡◌, ◌≢◌, refl, true, false, ◌||◌, ◌==◌, leb, Bool-cases, inl, inr, List, [], ◌∷◌, arith,
}
use mathlib.Core.Logic.{◌⊎◌}
use mathlib.Core.List.{Perm}
use mathlib.Core.List.Perm
use audesys.Ir.Machine.{contains, insert_set, delete, insert_sorted, sort}

-- No element occurs twice.
abbrev pub Distinct : List ℕ → Type 0
Distinct [] = Unit
Distinct (a ∷ as') = (contains a as' ≡ false) × Distinct as'

pub contains-delete_ne : (a b : ℕ) (bs : List ℕ) → a ≢ b → contains b (delete a bs) ≡ contains b bs
unfolding contains delete
contains-delete_ne a b [] h = refl
contains-delete_ne a b (c ∷ bs) h = ground (arith, contains-delete_ne a b bs h)

pub contains-delete_self : (a : ℕ) (bs : List ℕ) → Distinct bs → contains a (delete a bs) ≡ false
unfolding contains delete
contains-delete_self a [] h = refl
contains-delete_self a (b ∷ bs) h = elim (Bool-cases (a == b)) [
  | inl e ↦ let same : a ≡ b = ground arith in rw (e, same) h.0
  | inr e ↦ rw e (rw e (contains-delete_self a bs h.1))
]

contains-delete-false :
    (a b : ℕ) (bs : List ℕ) → contains b bs ≡ false → contains b (delete a bs) ≡ false
unfolding contains delete
contains-delete-false a b [] h = refl
contains-delete-false a b (c ∷ bs) h = ground (arith, contains-delete-false a b bs)

pub delete-Distinct : (a : ℕ) (bs : List ℕ) → Distinct bs → Distinct (delete a bs)
unfolding delete
delete-Distinct a [] h = tt
delete-Distinct a (b ∷ bs) h = elim (Bool-cases (a == b)) [
  | inl e ↦ rw e h.1
  | inr e ↦ rw e (contains-delete-false a b bs h.0, delete-Distinct a bs h.1)
]

pub insert_set-Distinct : (a : ℕ) (bs : List ℕ) → Distinct bs → Distinct (insert_set a bs).0
unfolding insert_set
insert_set-Distinct a bs h = elim (Bool-cases (contains a bs)) [
  | inl e ↦ rw e h
  | inr e ↦ rw e (e, h)
]

pub contains-insert_set :
    (a b : ℕ) (bs : List ℕ) → contains b (insert_set a bs).0 ≡ ((b == a) || contains b bs)
unfolding insert_set contains
contains-insert_set a b bs = elim (Bool-cases (contains a bs)) [
  | inl e ↦ rw e (old (Bool-cases (b == a)) e)
  | inr e ↦ rw e
]
  where
    old :
        ((b == a) ≡ true) ⊎ ((b == a) ≡ false)
        → contains a bs ≡ true
        → contains b bs ≡ ((b == a) || contains b bs)
    old (inl s) e = let same : b ≡ a = ground arith in rw s (rw same e)
    old (inr s) e = rw s

abbrev pub IsSorted : List ℕ → Type 0
IsSorted [] = Unit
IsSorted (a ∷ []) = Unit
IsSorted (a ∷ b ∷ bs) = (a ≤ b) × IsSorted (b ∷ bs)

insert_sorted-IsSorted : (a : ℕ) (bs : List ℕ) → IsSorted bs → IsSorted (insert_sorted a bs)
unfolding insert_sorted
insert_sorted-IsSorted a [] h = tt
insert_sorted-IsSorted a (b ∷ []) h = ground arith
insert_sorted-IsSorted a (b ∷ c ∷ bs) h = ground (arith, insert_sorted-IsSorted a (c ∷ bs) h.1)

pub sort-IsSorted : (as' : List ℕ) → IsSorted (sort as')
unfolding sort
sort-IsSorted [] = tt
sort-IsSorted (a ∷ as') = insert_sorted-IsSorted a (sort as') (sort-IsSorted as')

insert_sorted-perm : (a : ℕ) (bs : List ℕ) → Perm (insert_sorted a bs) (a ∷ bs)
unfolding insert_sorted
insert_sorted-perm a [] = Perm.refl _
insert_sorted-perm a (b ∷ bs) = elim (Bool-cases (leb a b)) [
  | inl e ↦ rw e (Perm.refl _)
  | inr e ↦ rw e (Perm.trans (Perm.cons b (insert_sorted-perm a bs)) (Perm.swap a b bs))
]

pub sort-perm : (as' : List ℕ) → Perm (sort as') as'
unfolding sort
sort-perm [] = Perm.refl _
sort-perm (a ∷ as') = Perm.trans (insert_sorted-perm a (sort as')) (Perm.cons a (sort-perm as'))
