-- ===== src/Hal/Value/Order.antt =====
-- crates/audesys-hal-core/src/value.rs: the derived `PartialEq` and the `PartialOrd` of `HalValue`.
pub mod Laws
use Prim.Native.Nat.{compare, Ordering}
use audesys.Base.{ℕ, Bool, true, false, not, ◌&&◌, ◌||◌, List, Option, none, some, ◌==◌, bytes_eq}
use audesys.Base.Words.{ℤ, pos, negsuc, compare_ℤ, w32, w64}
use audesys.Hal.Platform.{float_eq, float_partial_cmp}
use audesys.Hal.PinType.{HalPinType}
use audesys.Hal.Value.{
  HalValue, bool, s8, u8, s16, u16, s32, u32, s64, u64, f32, f64, blob, string, array,
}

abbrev pub bool_eq : Bool → Bool → Bool
bool_eq true b = b
bool_eq false b = not b

abbrev pub eq_ℤ : ℤ → ℤ → Bool
eq_ℤ (pos a) (pos b) = a == b
eq_ℤ (negsuc a) (negsuc b) = a == b
eq_ℤ _ _ = false

-- The position of a pin type in its declaration, by which the derived equality compares.
abbrev pin_index : HalPinType → ℕ
pin_index HalPinType.bool = 0
pin_index HalPinType.s8 = 1
pin_index HalPinType.u8 = 2
pin_index HalPinType.s16 = 3
pin_index HalPinType.u16 = 4
pin_index HalPinType.s32 = 5
pin_index HalPinType.u32 = 6
pin_index HalPinType.s64 = 7
pin_index HalPinType.u64 = 8
pin_index HalPinType.f32 = 9
pin_index HalPinType.f64 = 10
pin_index HalPinType.blob = 11
pin_index HalPinType.string = 12

abbrev pub pin_type_eq : HalPinType → HalPinType → Bool
pin_type_eq s t = pin_index s == pin_index t

-- The derived `==`.
unfoldable pub hal_eq : HalValue → HalValue → Bool
hal_eq (bool a) (bool b) = bool_eq a b
hal_eq (s8 a) (s8 b) = eq_ℤ a b
hal_eq (u8 a) (u8 b) = a == b
hal_eq (s16 a) (s16 b) = eq_ℤ a b
hal_eq (u16 a) (u16 b) = a == b
hal_eq (s32 a) (s32 b) = eq_ℤ a b
hal_eq (u32 a) (u32 b) = a == b
hal_eq (s64 a) (s64 b) = eq_ℤ a b
hal_eq (u64 a) (u64 b) = a == b
hal_eq (f32 a) (f32 b) = float_eq w32 a b
hal_eq (f64 a) (f64 b) = float_eq w64 a b
hal_eq (blob a) (blob b) = bytes_eq a b
hal_eq (string a) (string b) = bytes_eq a b
hal_eq (array s a) (array t b) = pin_type_eq s t && bytes_eq a b
hal_eq _ _ = false

unfoldable pub partial_cmp : HalValue → HalValue → Option Ordering
partial_cmp (s8 a) (s8 b) = some (compare_ℤ a b)
partial_cmp (u8 a) (u8 b) = some (compare a b)
partial_cmp (s16 a) (s16 b) = some (compare_ℤ a b)
partial_cmp (u16 a) (u16 b) = some (compare a b)
partial_cmp (s32 a) (s32 b) = some (compare_ℤ a b)
partial_cmp (u32 a) (u32 b) = some (compare a b)
partial_cmp (s64 a) (s64 b) = some (compare_ℤ a b)
partial_cmp (u64 a) (u64 b) = some (compare a b)
partial_cmp (f32 a) (f32 b) = float_partial_cmp w32 a b
partial_cmp (f64 a) (f64 b) = float_partial_cmp w64 a b
partial_cmp _ _ = none

abbrev pub is_gt : Option Ordering → Bool
is_gt (some Ordering.gt) = true
is_gt _ = false

abbrev pub is_lt : Option Ordering → Bool
is_lt (some Ordering.lt) = true
is_lt _ = false

abbrev pub is_eq : Option Ordering → Bool
is_eq (some Ordering.eq) = true
is_eq _ = false

-- The operators that `PartialOrd` derives from `partial_cmp`.
unfoldable pub hal_gt : HalValue → HalValue → Bool
hal_gt a b = is_gt (partial_cmp a b)

unfoldable pub hal_lt : HalValue → HalValue → Bool
hal_lt a b = is_lt (partial_cmp a b)

unfoldable pub hal_ge : HalValue → HalValue → Bool
hal_ge a b = is_gt (partial_cmp a b) || is_eq (partial_cmp a b)

unfoldable pub hal_le : HalValue → HalValue → Bool
hal_le a b = is_lt (partial_cmp a b) || is_eq (partial_cmp a b)
