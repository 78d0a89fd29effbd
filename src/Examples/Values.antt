-- ===== src/Examples/Values.antt =====
-- Values, arrays and operators: examples.
use audesys.Base.{ℕ, ◌≡◌, ◌||◌, refl, arith, List, [], ◌∷◌, length, ok}
use audesys.Base.Words.{pos, negsuc, to_bits, le_bytes}
use audesys.Examples.{debug_build}
use audesys.Hal.PinType.{HalPinType}
use audesys.Hal.Value.{HalValue, IsValue, pin_type, s8, u8, s16, u16, s32, u32, s64, u64, array}
use audesys.Hal.Value.Elements.{to_bytes, from_bytes, byte_size, index, set_index}
use audesys.Hal.Value.Elements.RoundTrip.{
  IsInside, written, from_bytes-to_bytes, index-set_index_self, index-set_index_ne,
}
use audesys.Hal.Value.Order.{hal_eq, hal_gt, hal_lt, hal_ge, hal_le}
use audesys.Ir.Exec.Data.{div_or_zero, rem_or_zero}
use audesys.Ir.Exec.Data.Division.{Panics, division_by_zero}
use audesys.Hal.Value.Order.Laws.{comparisons_agree}

-- An array of three `s16`.
abbrev buffer : List ℕ
buffer = 1 ∷ 0 ∷ 2 ∷ 0 ∷ 3 ∷ 0 ∷ []

abbrev three : HalValue
three = array HalPinType.s16 buffer

abbrev minus_two : HalValue
minus_two = s16 (negsuc 1)

minus_two-IsValue : IsValue minus_two
minus_two-IsValue = omega arith

three-IsValue : IsValue three
three-IsValue = omega arith

second-IsInside : IsInside HalPinType.s16 buffer 1
unfolding byte_size
second-IsInside = omega arith

third-IsInside : IsInside HalPinType.s16 buffer 2
unfolding byte_size
third-IsInside = omega arith

from_bytes-to_bytes_example : from_bytes (pin_type minus_two) (to_bytes minus_two) ≡ ok minus_two
from_bytes-to_bytes_example = from_bytes-to_bytes minus_two tt minus_two-IsValue

abbrev stored : HalValue
stored = array HalPinType.s16 (1 ∷ 0 ∷ 254 ∷ 255 ∷ 3 ∷ 0 ∷ [])

index-set_index_self_example :
    (set_index debug_build three 1 minus_two ≡ ok stored)
    × (index debug_build stored 1 ≡ ok minus_two)
    × (length (written buffer 2 2 (254 ∷ 255 ∷ [])) ≡ length buffer)
unfolding to_bytes byte_size pin_type to_bits le_bytes
index-set_index_self_example =
    index-set_index_self debug_build HalPinType.s16 buffer 1 minus_two second-IsInside tt refl
      minus_two-IsValue

index-set_index_ne_example :
    (set_index debug_build three 1 minus_two ≡ ok stored)
    × (index debug_build stored 2 ≡ index debug_build three 2)
unfolding to_bytes byte_size pin_type to_bits le_bytes
index-set_index_ne_example =
    index-set_index_ne debug_build HalPinType.s16 buffer 1 minus_two second-IsInside tt refl 2
      third-IsInside (omega arith)

comparisons_agree_example :
    (hal_gt minus_two (s16 (pos 3)) ≡ hal_lt (s16 (pos 3)) minus_two)
    × (hal_ge minus_two (s16 (pos 3))
        ≡ (hal_gt minus_two (s16 (pos 3)) || hal_eq minus_two (s16 (pos 3))))
    × (hal_le minus_two (s16 (pos 3))
        ≡ (hal_lt minus_two (s16 (pos 3)) || hal_eq minus_two (s16 (pos 3))))
comparisons_agree_example = comparisons_agree minus_two (s16 (pos 3)) tt

division_by_zero_example :
    ((div_or_zero debug_build minus_two (s32 (pos 0)) ≡ ok (s32 (pos 0)))
      × (rem_or_zero debug_build minus_two (s32 (pos 0)) ≡ ok (s32 (pos 0))))
    × (Panics debug_build (s8 (pos 6)) (s8 (pos 0))
        × Panics debug_build (s16 (pos 6)) (s16 (pos 0))
        × Panics debug_build (s64 (pos 6)) (s64 (pos 0)))
    × (Panics debug_build (u8 7) (u8 0)
        × Panics debug_build (u16 7) (u16 0)
        × Panics debug_build (u32 7) (u32 0)
        × Panics debug_build (u64 7) (u64 0))
division_by_zero_example = division_by_zero debug_build minus_two (pos 6) 7
