-- ===== src/Ir/Exec/Data/Division.antt =====
-- What the guard of `Div` and `Mod` covers.
use audesys.Base.{ℕ, ◌≡◌, refl, ok, panic}
use audesys.Base.Words.{ℤ, pos}
use audesys.Hal.Platform.{Platform}
use audesys.Hal.Value.{HalValue, s8, u8, s16, u16, s32, u32, s64, u64}
use audesys.Hal.Value.Arith.{hal_binop, div_signed, rem_signed, div_unsigned, rem_unsigned}
use audesys.Hal.Value.Order.{hal_eq}
use audesys.Ir.Exec.Data.{div_or_zero, rem_or_zero, is_zero_divisor}

-- Both operators at one pair of values panic.
abbrev pub Panics : Platform → HalValue → HalValue → Type 0
Panics pl a b = (div_or_zero pl a b ≡ panic) × (rem_or_zero pl a b ≡ panic)

-- Div and Mod by the zero of the 32-bit signed type give 0 for every dividend; by the zero of any
-- other integer type they panic for every dividend of that type.
pub division_by_zero :
    (pl : Platform) (v : HalValue) (z : ℤ) (n : ℕ)
    → ((div_or_zero pl v (s32 (pos 0)) ≡ ok (s32 (pos 0)))
        × (rem_or_zero pl v (s32 (pos 0)) ≡ ok (s32 (pos 0))))
      × (Panics pl (s8 z) (s8 (pos 0))
          × Panics pl (s16 z) (s16 (pos 0))
          × Panics pl (s64 z) (s64 (pos 0)))
      × (Panics pl (u8 n) (u8 0)
          × Panics pl (u16 n) (u16 0)
          × Panics pl (u32 n) (u32 0)
          × Panics pl (u64 n) (u64 0))
unfolding div_or_zero rem_or_zero is_zero_divisor hal_eq hal_binop div_signed rem_signed
    div_unsigned rem_unsigned
division_by_zero pl v z n = (
  (refl, refl),
  ((refl, refl), (refl, refl), (refl, refl)),
  ((refl, refl), (refl, refl), (refl, refl), (refl, refl)),
)
