-- ===== src/Hal/Value.antt =====
-- crates/audesys-hal-core/src/value.rs: `HalValue`.
pub mod Elements
pub mod Arith
pub mod Order
use audesys.Base.{ℕ, ◌<◌, Bool, false, List, [], All}
use audesys.Base.Words.{ℤ, pos, w8, w16, w32, w64, IsSigned, IsUnsigned, IsByte}
use audesys.Hal.PinType.{HalPinType}

-- A `String` is the list of its UTF-8 bytes; a float is its bit pattern.
pub data HalValue : Type 0 where
  bool : Bool → HalValue
  s8 : ℤ → HalValue
  u8 : ℕ → HalValue
  s16 : ℤ → HalValue
  u16 : ℕ → HalValue
  s32 : ℤ → HalValue
  u32 : ℕ → HalValue
  s64 : ℤ → HalValue
  u64 : ℕ → HalValue
  f32 : ℕ → HalValue
  f64 : ℕ → HalValue
  blob : List ℕ → HalValue
  string : List ℕ → HalValue
  array : HalPinType → List ℕ → HalValue

-- The ranges that the source's types give to the fields.
abbrev pub IsValue : HalValue → Type 0
IsValue (bool b) = Unit
IsValue (s8 z) = IsSigned w8 z
IsValue (u8 n) = IsUnsigned w8 n
IsValue (s16 z) = IsSigned w16 z
IsValue (u16 n) = IsUnsigned w16 n
IsValue (s32 z) = IsSigned w32 z
IsValue (u32 n) = IsUnsigned w32 n
IsValue (s64 z) = IsSigned w64 z
IsValue (u64 n) = IsUnsigned w64 n
IsValue (f32 n) = IsUnsigned w32 n
IsValue (f64 n) = IsUnsigned w64 n
IsValue (blob bs) = All IsByte bs
IsValue (string bs) = All IsByte bs
IsValue (array t bs) = All IsByte bs

unfoldable pub pin_type : HalValue → HalPinType
pin_type (bool _) = HalPinType.bool
pin_type (s8 _) = HalPinType.s8
pin_type (u8 _) = HalPinType.u8
pin_type (s16 _) = HalPinType.s16
pin_type (u16 _) = HalPinType.u16
pin_type (s32 _) = HalPinType.s32
pin_type (u32 _) = HalPinType.u32
pin_type (s64 _) = HalPinType.s64
pin_type (u64 _) = HalPinType.u64
pin_type (f32 _) = HalPinType.f32
pin_type (f64 _) = HalPinType.f64
pin_type (blob _) = HalPinType.blob
pin_type (string _) = HalPinType.string
pin_type (array element_type _) = element_type

unfoldable pub zero_value : HalPinType → HalValue
zero_value HalPinType.bool = bool false
zero_value HalPinType.s8 = s8 (pos 0)
zero_value HalPinType.u8 = u8 0
zero_value HalPinType.s16 = s16 (pos 0)
zero_value HalPinType.u16 = u16 0
zero_value HalPinType.s32 = s32 (pos 0)
zero_value HalPinType.u32 = u32 0
zero_value HalPinType.s64 = s64 (pos 0)
zero_value HalPinType.u64 = u64 0
zero_value HalPinType.f32 = f32 0
zero_value HalPinType.f64 = f64 0
zero_value HalPinType.blob = blob []
zero_value HalPinType.string = string []
