-- ===== src/Hal.antt =====
-- crates/audesys-hal-core: the HAL value type and its operations.
pub mod Platform
pub mod PinType
pub mod Value
pub mod Error
pub mod Utf8
pub mod Encoding
pub mod Stream
