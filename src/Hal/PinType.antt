-- ===== src/Hal/PinType.antt =====
-- crates/audesys-hal-core/src/types.rs: the discriminator of a HAL value.
pub data HalPinType : Type 0 where
  bool s8 u8 s16 u16 s32 u32 s64 u64 f32 f64 blob string : HalPinType

pub HalPinType-discrete : Discrete HalPinType
HalPinType-discrete = hlevel
