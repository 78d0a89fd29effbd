-- ===== src/Hal/Value/Elements/Bounds.antt =====
-- `index` and `set_index` outside the array.
use audesys.Base.{ℕ, ◌+◌, ◌*◌, ◌<◌, ◌≡◌, refl, List, length, arith, lt→ltb, ok}
use audesys.Base.Words.{w64, modulus}
use audesys.Hal.Platform.{Platform, fit_unsigned}
use audesys.Hal.PinType.{HalPinType}
use audesys.Hal.Value.{HalValue, array, zero_value}
use audesys.Hal.Value.Elements.{
  byte_size, element_bounds, index_array, index, set_index_array, set_index,
}

module _ (pl : Platform) (t : HalPinType) (bytes : List ℕ) (idx : ℕ) (v : HalValue) where
  -- For an element that ends behind the buffer, at an offset that fits a usize, a read gives the
  -- zero of the element type and a store gives the array back.
  pub index-set_index_outside :
      idx * byte_size t + byte_size t < modulus w64
      → length bytes < idx * byte_size t + byte_size t
      → (index pl (array t bytes) idx ≡ ok (zero_value t))
        × (set_index pl (array t bytes) idx v ≡ ok (array t bytes))
  unfolding index index_array set_index set_index_array element_bounds fit_unsigned
  index-set_index_outside fits out =
      rw
        (
          lt→ltb (idx * byte_size t) (modulus w64) (omega arith),
          lt→ltb (idx * byte_size t + byte_size t) (modulus w64) fits,
          lt→ltb (length bytes) (idx * byte_size t + byte_size t) out,
        )
        (refl, refl)
