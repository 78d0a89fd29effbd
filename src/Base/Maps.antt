-- ===== src/Base/Maps.antt =====
-- A `HashMap` with string keys as an association list, in which a key stands at most once.
use audesys.Base.Tests.{if◌then◌else◌}
use audesys.Base.Lists.{bytes_eq, bytes_eq_refl, bytes_eq_sound}
use mathlib.Core.Path.{◌≡◌, ap}
use mathlib.Core.Logic.{◌≢◌, inl, inr}
use mathlib.Core.Bool.{false}
use mathlib.Core.Option.{Option, none, some}
use mathlib.Core.List.{List, [], ◌∷◌}
use Prim.Native.Nat.{ℕ}
use audesys.Base.Tests.{Bool-cases}

module _ {ℓ} {A : Type ℓ} where
  unfoldable pub map_get : List ℕ → List (List ℕ × A) → Option A
  map_get key [] = none
  map_get key ((k, v) ∷ m) = if bytes_eq k key then some v else map_get key m

  unfoldable pub map_insert : List ℕ → A → List (List ℕ × A) → List (List ℕ × A)
  map_insert key value [] = (key, value) ∷ []
  map_insert key value ((k, v) ∷ m) =
      if bytes_eq k key then (k, value) ∷ m else (k, v) ∷ map_insert key value m

  pub map_get-map_insert_self :
      (key : List ℕ) (v : A) (m : List (List ℕ × A)) → map_get key (map_insert key v m) ≡ some v
  unfolding map_get map_insert
  map_get-map_insert_self key v [] = rw (bytes_eq_refl key)
  map_get-map_insert_self key v ((k, w) ∷ m) = elim (Bool-cases (bytes_eq k key)) [
    | inl same ↦ rw same (rw same)
    | inr other ↦ rw other (rw other (map_get-map_insert_self key v m))
  ]

  map_get-map_insert_apart :
      (key other : List ℕ) (v : A) (m : List (List ℕ × A))
      → bytes_eq key other ≡ false
      → map_get other (map_insert key v m) ≡ map_get other m
  unfolding map_get map_insert
  map_get-map_insert_apart key other v [] ne = rw ne
  map_get-map_insert_apart key other v ((k, w) ∷ m) ne = elim (Bool-cases (bytes_eq k key)) [
    | inl same ↦
        let e : bytes_eq k other ≡ false = rw (bytes_eq_sound k key same) ne in rw same (rw e)
    | inr other_key ↦ rw other_key (
        ap (λ r. if bytes_eq k other then some w else r)
          (map_get-map_insert_apart key other v m ne))
  ]

  pub map_get-map_insert_ne :
      (key other : List ℕ) (v : A) (m : List (List ℕ × A))
      → key ≢ other
      → map_get other (map_insert key v m) ≡ map_get other m
  map_get-map_insert_ne key other v m ne =
      map_get-map_insert_apart key other v m (elim (Bool-cases (bytes_eq key other)) [
        | inl same ↦ absurd (ne (bytes_eq_sound key other same))
        | inr other_key ↦ other_key
      ])
