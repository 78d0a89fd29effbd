-- ===== src/Hal/Value/Elements.antt =====
-- crates/audesys-hal-core/src/value.rs: arrays as byte buffers, `index` and `set_index`.
-- A `usize` is 64 bits wide; its arithmetic and every slice are written with their panics.
pub mod RoundTrip
pub mod Bounds
use audesys.Base.{
  ℕ, suc, ◌+◌, ◌-◌, ◌*◌, Bool, true, false, not, List, [], ◌∷◌, ◌++◌, length, take, drop, ltb, leb,
  ◌==◌, if◌then◌else◌, Outcome, ok, panic, ◌>>=◌, ◌>>◌, assert, ◌&&◌,
}
use audesys.Base.Words.{
  pos, Width, w8, w16, w32, w64, byte_count, to_bits, from_bits, le_bytes, from_le_bytes,
}
use audesys.Hal.Platform.{Platform, fit_unsigned}
use audesys.Hal.PinType.{HalPinType}
use audesys.Hal.Value.{
  HalValue, bool, s8, u8, s16, u16, s32, u32, s64, u64, f32, f64, blob, string, array, pin_type,
  zero_value,
}

-- Size of an element in its array's buffer.
unfoldable pub byte_size : HalPinType → ℕ
byte_size HalPinType.bool = 1
byte_size HalPinType.s8 = 1
byte_size HalPinType.u8 = 1
byte_size HalPinType.s16 = 2
byte_size HalPinType.u16 = 2
byte_size HalPinType.s32 = 4
byte_size HalPinType.u32 = 4
byte_size HalPinType.f32 = 4
byte_size HalPinType.s64 = 8
byte_size HalPinType.u64 = 8
byte_size HalPinType.f64 = 8
byte_size HalPinType.blob = 8
byte_size HalPinType.string = 8

abbrev bool_byte : Bool → ℕ
bool_byte true = 1
bool_byte false = 0

unfoldable pub to_bytes : HalValue → List ℕ
to_bytes (bool b) = bool_byte b ∷ []
to_bytes (s8 n) = le_bytes 1 (to_bits w8 n)
to_bytes (u8 n) = le_bytes 1 n
to_bytes (s16 n) = le_bytes 2 (to_bits w16 n)
to_bytes (u16 n) = le_bytes 2 n
to_bytes (s32 n) = le_bytes 4 (to_bits w32 n)
to_bytes (u32 n) = le_bytes 4 n
to_bytes (s64 n) = le_bytes 8 (to_bits w64 n)
to_bytes (u64 n) = le_bytes 8 n
to_bytes (f32 n) = le_bytes 4 n
to_bytes (f64 n) = le_bytes 8 n
to_bytes (blob b) = le_bytes 4 (length b) ++ b
to_bytes (string s) = s
to_bytes (array _ bytes) = bytes

-- The integer at the head of a slice; the source's `bytes[i]` panics on a shorter one.
abbrev pub read_le : ℕ → List ℕ → Outcome ℕ
read_le k bytes = do assert (leb k (length bytes)); ok (from_le_bytes (take k bytes))

unfoldable pub from_bytes : HalPinType → List ℕ → Outcome HalValue
from_bytes HalPinType.bool bytes = do n ← read_le 1 bytes; ok (bool (not (n == 0)))
from_bytes HalPinType.s8 bytes = do n ← read_le 1 bytes; ok (s8 (from_bits w8 n))
from_bytes HalPinType.u8 bytes = do n ← read_le 1 bytes; ok (u8 n)
from_bytes HalPinType.s16 bytes = do n ← read_le 2 bytes; ok (s16 (from_bits w16 n))
from_bytes HalPinType.u16 bytes = do n ← read_le 2 bytes; ok (u16 n)
from_bytes HalPinType.s32 bytes = do n ← read_le 4 bytes; ok (s32 (from_bits w32 n))
from_bytes HalPinType.u32 bytes = do n ← read_le 4 bytes; ok (u32 n)
from_bytes HalPinType.s64 bytes = do n ← read_le 8 bytes; ok (s64 (from_bits w64 n))
from_bytes HalPinType.u64 bytes = do n ← read_le 8 bytes; ok (u64 n)
from_bytes HalPinType.f32 bytes = do n ← read_le 4 bytes; ok (f32 n)
from_bytes HalPinType.f64 bytes = do n ← read_le 8 bytes; ok (f64 n)
from_bytes HalPinType.blob bytes = ok (s32 (pos 0))
from_bytes HalPinType.string bytes = ok (s32 (pos 0))

-- `&data[start..end]`.
unfoldable pub slice : List ℕ → ℕ → ℕ → Outcome (List ℕ)
slice bytes start end = do
  assert (leb start end && leb end (length bytes))
  ok (take (end - start) (drop start bytes))

-- `data[start..end].copy_from_slice(&part)`.
unfoldable pub copy_to_slice : List ℕ → ℕ → ℕ → List ℕ → Outcome (List ℕ)
copy_to_slice bytes start end part = do
  assert (leb start end && leb end (length bytes))
  assert (length part == end - start)
  ok (take start bytes ++ (part ++ drop end bytes))

-- The offset of an element and the end of its slice, in `usize` arithmetic.
unfoldable pub element_bounds : Platform → HalPinType → ℕ → Outcome (ℕ × ℕ)
element_bounds pl element_type idx = do
  offset ← fit_unsigned pl w64 (idx * byte_size element_type)
  end ← fit_unsigned pl w64 (offset + byte_size element_type)
  ok (offset, end)

index_array : Platform → HalPinType → List ℕ → ℕ → Outcome HalValue
index_array pl element_type bytes idx = do
  (offset, end) ← element_bounds pl element_type idx
  if ltb (length bytes) end
      then ok (zero_value element_type)
      else (slice bytes offset end >>= from_bytes element_type)

unfoldable pub index : Platform → HalValue → ℕ → Outcome HalValue
unfolding index_array
index pl (array element_type bytes) idx = index_array pl element_type bytes idx
index pl value idx = ok (zero_value (pin_type value))

set_index_array : Platform → HalPinType → List ℕ → ℕ → HalValue → Outcome HalValue
set_index_array pl element_type bytes idx value = do
  (offset, end) ← element_bounds pl element_type idx
  if ltb (length bytes) end then ok (array element_type bytes) else (do
    part ← slice (to_bytes value) 0 (byte_size element_type)
    written ← copy_to_slice bytes offset end part
    ok (array element_type written))

unfoldable pub set_index : Platform → HalValue → ℕ → HalValue → Outcome HalValue
unfolding set_index_array
set_index pl (array element_type bytes) idx value = set_index_array pl element_type bytes idx value
set_index pl self idx value = ok self
