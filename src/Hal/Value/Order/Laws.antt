-- ===== src/Hal/Value/Order/Laws.antt =====
-- The laws that Rust asks of `PartialEq` and `PartialOrd`, at the values that can be ordered.
use Prim.Native.Nat.{compare, Ordering}
use audesys.Base.{ℕ, ◌≡◌, refl, Bool, true, false, arith, Option, none, some, ◌||◌}
use audesys.Base.Words.{ℤ, pos, negsuc, compare_ℤ, Width, w32, w64}
use audesys.Hal.Platform.{float_eq, float_partial_cmp}
use audesys.Hal.Value.{
  HalValue, bool, s8, u8, s16, u16, s32, u32, s64, u64, f32, f64, blob, string, array,
}
use audesys.Hal.Value.Order.{
  eq_ℤ, hal_eq, partial_cmp, is_gt, is_lt, is_eq, hal_gt, hal_lt, hal_ge, hal_le,
}

-- The values of the ten ordered types.
abbrev pub IsOrdered : HalValue → Type 0
IsOrdered (bool _) = ⊥
IsOrdered (blob _) = ⊥
IsOrdered (string _) = ⊥
IsOrdered (array _ _) = ⊥
IsOrdered _ = Unit

abbrev pub swap : Option Ordering → Option Ordering
swap (some Ordering.lt) = some Ordering.gt
swap (some Ordering.gt) = some Ordering.lt
swap o = o

swap-compare_ℤ : (a b : ℤ) → some (compare_ℤ b a) ≡ swap (some (compare_ℤ a b))
swap-compare_ℤ (pos a) (pos b) = ground arith
swap-compare_ℤ (pos a) (negsuc b) = refl
swap-compare_ℤ (negsuc a) (pos b) = refl
swap-compare_ℤ (negsuc a) (negsuc b) = ground arith

swap-compare : (a b : ℕ) → some (compare b a) ≡ swap (some (compare a b))
swap-compare a b = ground arith

swap-float : (w : Width) (a b : ℕ) → float_partial_cmp w b a ≡ swap (float_partial_cmp w a b)
unfolding float_partial_cmp
swap-float w a b = ground arith

eq_ℤ-is_eq : (a b : ℤ) → eq_ℤ a b ≡ is_eq (some (compare_ℤ a b))
eq_ℤ-is_eq (pos a) (pos b) = ground arith
eq_ℤ-is_eq (pos a) (negsuc b) = refl
eq_ℤ-is_eq (negsuc a) (pos b) = refl
eq_ℤ-is_eq (negsuc a) (negsuc b) = ground arith

float_eq-is_eq : (w : Width) (a b : ℕ) → float_eq w a b ≡ is_eq (float_partial_cmp w a b)
unfolding float_eq float_partial_cmp
float_eq-is_eq w a b = ground arith

unordered_right : (a b : HalValue) → (IsOrdered b → ⊥) → partial_cmp a b ≡ none
unfolding partial_cmp
unordered_right (s8 a) (s8 b) h = absurd (h tt)
unordered_right (u8 a) (u8 b) h = absurd (h tt)
unordered_right (s16 a) (s16 b) h = absurd (h tt)
unordered_right (u16 a) (u16 b) h = absurd (h tt)
unordered_right (s32 a) (s32 b) h = absurd (h tt)
unordered_right (u32 a) (u32 b) h = absurd (h tt)
unordered_right (s64 a) (s64 b) h = absurd (h tt)
unordered_right (u64 a) (u64 b) h = absurd (h tt)
unordered_right (f32 a) (f32 b) h = absurd (h tt)
unordered_right (f64 a) (f64 b) h = absurd (h tt)
unordered_right _ _ h = refl

-- Comparing two values the other way round swaps less and greater, NaN and mixed types included.
pub partial_cmp-swap : (a b : HalValue) → partial_cmp b a ≡ swap (partial_cmp a b)
unfolding partial_cmp
partial_cmp-swap (s8 a) (s8 b) = swap-compare_ℤ a b
partial_cmp-swap (u8 a) (u8 b) = swap-compare a b
partial_cmp-swap (s16 a) (s16 b) = swap-compare_ℤ a b
partial_cmp-swap (u16 a) (u16 b) = swap-compare a b
partial_cmp-swap (s32 a) (s32 b) = swap-compare_ℤ a b
partial_cmp-swap (u32 a) (u32 b) = swap-compare a b
partial_cmp-swap (s64 a) (s64 b) = swap-compare_ℤ a b
partial_cmp-swap (u64 a) (u64 b) = swap-compare a b
partial_cmp-swap (f32 a) (f32 b) = swap-float w32 a b
partial_cmp-swap (f64 a) (f64 b) = swap-float w64 a b
partial_cmp-swap (bool a) b = unordered_right b (bool a) (λ h. h)
partial_cmp-swap (blob a) b = unordered_right b (blob a) (λ h. h)
partial_cmp-swap (string a) b = unordered_right b (string a) (λ h. h)
partial_cmp-swap (array t a) b = unordered_right b (array t a) (λ h. h)
partial_cmp-swap _ _ = refl

-- At an ordered value `==` holds exactly where `partial_cmp` says equal.
pub hal_eq-partial_cmp : (a b : HalValue) → IsOrdered a → hal_eq a b ≡ is_eq (partial_cmp a b)
unfolding hal_eq partial_cmp
hal_eq-partial_cmp (s8 a) (s8 b) h = eq_ℤ-is_eq a b
hal_eq-partial_cmp (u8 a) (u8 b) h = refl
hal_eq-partial_cmp (s16 a) (s16 b) h = eq_ℤ-is_eq a b
hal_eq-partial_cmp (u16 a) (u16 b) h = refl
hal_eq-partial_cmp (s32 a) (s32 b) h = eq_ℤ-is_eq a b
hal_eq-partial_cmp (u32 a) (u32 b) h = refl
hal_eq-partial_cmp (s64 a) (s64 b) h = eq_ℤ-is_eq a b
hal_eq-partial_cmp (u64 a) (u64 b) h = refl
hal_eq-partial_cmp (f32 a) (f32 b) h = float_eq-is_eq w32 a b
hal_eq-partial_cmp (f64 a) (f64 b) h = float_eq-is_eq w64 a b
hal_eq-partial_cmp (bool a) b h = absurd h
hal_eq-partial_cmp (blob a) b h = absurd h
hal_eq-partial_cmp (string a) b h = absurd h
hal_eq-partial_cmp (array t a) b h = absurd h
hal_eq-partial_cmp _ _ h = refl

gt-swap : (o : Option Ordering) → is_gt o ≡ is_lt (swap o)
gt-swap none = refl
gt-swap (some Ordering.lt) = refl
gt-swap (some Ordering.eq) = refl
gt-swap (some Ordering.gt) = refl

-- For a left operand of the ten ordered types, a > b is b < a, a >= b is a > b or a == b, and a <=
-- b is a < b or a == b.
pub comparisons_agree :
    (a b : HalValue)
    → IsOrdered a
    → (hal_gt a b ≡ hal_lt b a)
      × (hal_ge a b ≡ (hal_gt a b || hal_eq a b))
      × (hal_le a b ≡ (hal_lt a b || hal_eq a b))
unfolding hal_gt hal_lt hal_ge hal_le
comparisons_agree a b h =
    rw (partial_cmp-swap a b, hal_eq-partial_cmp a b h) (gt-swap (partial_cmp a b), refl, refl)

-- A Boolean is by `<=` and `>=` related to no value, while `==` holds of it and itself.
pub bool_unordered :
    (b : Bool) (v : HalValue)
    → (hal_le (bool b) v ≡ false) × (hal_ge (bool b) v ≡ false) × (hal_eq (bool b) (bool b) ≡ true)
unfolding hal_le hal_ge partial_cmp hal_eq
bool_unordered true v = (refl, refl, refl)
bool_unordered false v = (refl, refl, refl)
