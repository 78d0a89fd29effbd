-- ===== src/Base/Slices.antt =====
-- `take` and `drop` of a joined list, for slices that are read after a write.
use audesys.Base.Lists.{length, take, drop}
use Prim.Native.Nat.{ℕ, zero, suc, ◌+◌, ◌≤◌}
use mathlib.Core.Path.{◌≡◌, refl, ap}
use mathlib.Core.List.{List, [], ◌∷◌, ◌++◌}
use native.Mathlib.Omega.{arith}

module _ {ℓ} {A : Type ℓ} where
  pub take-length : (xs : List A) {n : ℕ} → length xs ≡ n → take n xs ≡ xs
  take-length [] {n = zero} h = refl
  take-length [] {n = suc n} h = absurd (omega arith)
  take-length (x ∷ xs) {n = zero} h = absurd (omega arith)
  take-length (x ∷ xs) {n = suc n} h = ap (◌∷◌ x) (take-length xs (omega arith))

  pub take-append : (xs ys : List A) {n : ℕ} → length xs ≡ n → take n (xs ++ ys) ≡ xs
  take-append [] ys {n = zero} h = refl
  take-append [] ys {n = suc n} h = absurd (omega arith)
  take-append (x ∷ xs) ys {n = zero} h = absurd (omega arith)
  take-append (x ∷ xs) ys {n = suc n} h = ap (◌∷◌ x) (take-append xs ys (omega arith))

  pub drop-append : (xs ys : List A) {n : ℕ} → length xs ≡ n → drop n (xs ++ ys) ≡ ys
  drop-append [] ys {n = zero} h = refl
  drop-append [] ys {n = suc n} h = absurd (omega arith)
  drop-append (x ∷ xs) ys {n = zero} h = absurd (omega arith)
  drop-append (x ∷ xs) ys {n = suc n} h = drop-append xs ys (omega arith)

  -- A slice that ends before a write reads the old list.
  pub take-drop_before :
      (s n o : ℕ) (xs rest : List A)
      → s + n ≤ o
      → o ≤ length xs
      → take n (drop s (take o xs ++ rest)) ≡ take n (drop s xs)
  take-drop_before s zero o xs rest h k = refl
  take-drop_before s (suc n) zero xs rest h k = absurd (omega arith)
  take-drop_before s (suc n) (suc o) [] rest h k = elim k [ ]
  take-drop_before zero (suc n) (suc o) (x ∷ xs) rest h k =
      ap (◌∷◌ x) (take-drop_before zero n o xs rest (omega arith) (omega arith))
  take-drop_before (suc s) (suc n) (suc o) (x ∷ xs) rest h k =
      take-drop_before s (suc n) o xs rest (omega arith) (omega arith)

  -- A slice that starts behind a write reads the old list.
  pub drop_behind :
      (s e : ℕ) (ys xs : List A) → length ys ≡ e → e ≤ s → drop s (ys ++ drop e xs) ≡ drop s xs
  drop_behind s zero [] xs h k = refl
  drop_behind s (suc e) [] xs h k = absurd (omega arith)
  drop_behind s zero (y ∷ ys) xs h k = absurd (omega arith)
  drop_behind zero (suc e) (y ∷ ys) xs h k = elim k [ ]
  drop_behind (suc s) (suc e) (y ∷ ys) [] h k = drop_nil ys s e (omega arith) (omega arith)
    where
      drop_nil : (ys : List A) (s e : ℕ) → length ys ≡ e → e ≤ s → drop s (ys ++ []) ≡ []
      drop_nil [] zero e h k = refl
      drop_nil [] (suc s) e h k = refl
      drop_nil (y ∷ ys) zero e h k = absurd (omega arith)
      drop_nil (y ∷ ys) (suc s) zero h k = absurd (omega arith)
      drop_nil (y ∷ ys) (suc s) (suc e) h k = drop_nil ys s e (omega arith) (omega arith)
  drop_behind (suc s) (suc e) (y ∷ ys) (x ∷ xs) h k =
      drop_behind s e ys xs (omega arith) (omega arith)
