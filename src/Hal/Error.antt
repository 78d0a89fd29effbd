-- ===== src/Hal/Error.antt =====
-- crates/audesys-hal-core/src/types.rs: the error of the HAL and its result.
use audesys.Base.{ℕ, List}
use audesys.Hal.PinType.{HalPinType}

-- The texts of `HalError::Internal`, one for each place of the modelled code that raises it.
pub data Message : Type 0 where
  empty_buffer missing_value_byte length_mismatch : Message
  insufficient_bytes missing_length_prefix : HalPinType → Message
  insufficient_header data_truncated backpressure_timeout : Message

-- Strings are lists of bytes.
pub data HalError : Type 0 where
  not_found already_exists : List ℕ → HalError
  transport_closed invalid_utf8 : HalError
  timeout : List ℕ → ℕ → HalError
  rejected : ℕ → List ℕ → HalError
  execution : List ℕ → List ℕ → HalError
  type_mismatch : HalPinType → HalPinType → HalError
  invalid_blob_length : ℕ → ℕ → HalError
  unknown_hal_type max_nesting_exceeded : ℕ → HalError
  internal : Message → HalError

pub data HalResult {ℓ} (A : Type ℓ) : Type ℓ where
  value : A → HalResult A
  error : HalError → HalResult A

infixl 5 ◌>>=◌
abbrev pub ◌>>=◌ {ℓ κ} : {A : Type ℓ} {B : Type κ} → HalResult A → (A → HalResult B) → HalResult B
value a >>= f = f a
error e >>= f = error e

-- A property of the value, where there is one.
abbrev pub Holds {ℓ κ} : {A : Type ℓ} → (A → Type κ) → HalResult A → Type κ
Holds P (value a) = P a
Holds P (error e) = Unit
