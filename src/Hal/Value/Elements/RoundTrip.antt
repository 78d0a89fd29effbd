-- ===== src/Hal/Value/Elements/RoundTrip.antt =====
-- What `index` reads after `set_index`.
use audesys.Base.{
  ℕ, ◌+◌, ◌-◌, ◌*◌, ◌^◌, ◌≤◌, ◌<◌, ◌≡◌, refl, sym, ap, ◌∙◌, ◌≢◌, ◌⊎◌, inl, inr, true, false, List,
  ◌++◌, length, take, drop, length-append, length-take_le, length-drop, arith, le→ltb, le→leb,
  lt→ltb, ==_iff, ok,
}
use audesys.Base.Slices.{take-length, take-append, drop-append, take-drop_before, drop_behind}
use audesys.Base.Words.{
  w8, w16, w32, w64, modulus, IsUnsigned, to_bits, to_bits-IsUnsigned, from_bits-to_bits, le_bytes,
  from_le_bytes, length-le_bytes, from_le_bytes-le_bytes,
}
use mathlib.Core.List.{append_assoc}
use audesys.Hal.Platform.{Platform, fit_unsigned}
use audesys.Hal.PinType.{HalPinType}
use audesys.Hal.Value.{
  HalValue, IsValue, bool, s8, u8, s16, u16, s32, u32, s64, u64, f32, f64, blob, string, array,
  pin_type,
}
use audesys.Hal.Value.Elements.{
  byte_size, to_bytes, from_bytes, slice, copy_to_slice, element_bounds, index_array, index,
  set_index_array, set_index, read_le,
}

-- The values that an array holds: those of a fixed size.
abbrev pub IsScalar : HalValue → Type 0
IsScalar (blob _) = ⊥
IsScalar (string _) = ⊥
IsScalar (array _ _) = ⊥
IsScalar _ = Unit

pub length-to_bytes : (v : HalValue) → IsScalar v → length (to_bytes v) ≡ byte_size (pin_type v)
unfolding to_bytes byte_size pin_type le_bytes
length-to_bytes (blob _) s = absurd s
length-to_bytes (string _) s = absurd s
length-to_bytes (array _ _) s = absurd s
length-to_bytes _ s = refl

read_le-le_bytes : (k n : ℕ) → n < 256 ^ k → read_le k (le_bytes k n) ≡ ok n
read_le-le_bytes k n h = rw (
  length-le_bytes k n,
  le→leb k k (omega arith),
  take-length (le_bytes k n) (length-le_bytes k n),
  from_le_bytes-le_bytes k n h,
)

-- For every scalar value in range, decoding its bytes at its own type gives it back.
pub from_bytes-to_bytes :
    (v : HalValue) → IsScalar v → IsValue v → from_bytes (pin_type v) (to_bytes v) ≡ ok v
unfolding to_bytes from_bytes pin_type
from_bytes-to_bytes (bool true) s h = unfold from_le_bytes in refl
from_bytes-to_bytes (bool false) s h = unfold from_le_bytes in refl
from_bytes-to_bytes (u8 n) s h = rw (read_le-le_bytes 1 n h)
from_bytes-to_bytes (u16 n) s h = rw (read_le-le_bytes 2 n h)
from_bytes-to_bytes (u32 n) s h = rw (read_le-le_bytes 4 n h)
from_bytes-to_bytes (u64 n) s h = rw (read_le-le_bytes 8 n h)
from_bytes-to_bytes (f32 n) s h = rw (read_le-le_bytes 4 n h)
from_bytes-to_bytes (f64 n) s h = rw (read_le-le_bytes 8 n h)
from_bytes-to_bytes (s8 z) s h =
    rw (read_le-le_bytes 1 (to_bits w8 z) (to_bits-IsUnsigned w8 z), from_bits-to_bits w8 z h)
from_bytes-to_bytes (s16 z) s h =
    rw (read_le-le_bytes 2 (to_bits w16 z) (to_bits-IsUnsigned w16 z), from_bits-to_bits w16 z h)
from_bytes-to_bytes (s32 z) s h =
    rw (read_le-le_bytes 4 (to_bits w32 z) (to_bits-IsUnsigned w32 z), from_bits-to_bits w32 z h)
from_bytes-to_bytes (s64 z) s h =
    rw (read_le-le_bytes 8 (to_bits w64 z) (to_bits-IsUnsigned w64 z), from_bits-to_bits w64 z h)
from_bytes-to_bytes (blob _) s h = absurd s
from_bytes-to_bytes (string _) s h = absurd s
from_bytes-to_bytes (array _ _) s h = absurd s

-- The offset of element `idx`.
abbrev pub offset_of : HalPinType → ℕ → ℕ
offset_of t idx = idx * byte_size t

-- Element `idx` lies inside a buffer, whose length is a `usize`.
abbrev pub IsInside : HalPinType → List ℕ → ℕ → Type 0
IsInside t bytes idx =
    (offset_of t idx + byte_size t ≤ length bytes) × (IsUnsigned w64 (length bytes))

pub element_bounds_inside :
    (pl : Platform) (t : HalPinType) (bytes : List ℕ) (idx : ℕ)
    → IsInside t bytes idx
    → element_bounds pl t idx ≡ ok (offset_of t idx, offset_of t idx + byte_size t)
unfolding element_bounds fit_unsigned
element_bounds_inside pl t bytes idx h = rw (
  lt→ltb (offset_of t idx) (modulus w64) (omega arith),
  lt→ltb (offset_of t idx + byte_size t) (modulus w64) (omega arith),
)

slice_inside :
    (bytes : List ℕ) (s n : ℕ)
    → s + n ≤ length bytes
    → slice bytes s (s + n) ≡ ok (take n (drop s bytes))
unfolding slice
slice_inside bytes s n h =
    let e : s + n - s ≡ n = omega arith in
    rw (le→leb s (s + n) (omega arith), le→leb (s + n) (length bytes) h, e)

slice_all : (bytes : List ℕ) (n : ℕ) → length bytes ≡ n → slice bytes 0 n ≡ ok bytes
unfolding slice
slice_all bytes n h = rw (
  le→leb 0 n (omega arith),
  le→leb n (length bytes) (omega arith),
  take-length bytes {n = n - 0} (omega arith),
)

copy_inside :
    (bytes part : List ℕ) (s n : ℕ)
    → s + n ≤ length bytes
    → length part ≡ n
    → copy_to_slice bytes s (s + n) part ≡ ok (take s bytes ++ (part ++ drop (s + n) bytes))
unfolding copy_to_slice
copy_inside bytes part s n h k = rw (
  le→leb s (s + n) (omega arith),
  le→leb (s + n) (length bytes) h,
  (==_iff (length part) (s + n - s)).1 (omega arith),
)

-- The buffer after a write.
abbrev pub written : List ℕ → ℕ → ℕ → List ℕ → List ℕ
written bytes s n part = take s bytes ++ (part ++ drop (s + n) bytes)

length-written :
    (bytes part : List ℕ) (s n : ℕ)
    → s + n ≤ length bytes
    → length part ≡ n
    → length (written bytes s n part) ≡ length bytes
length-written bytes part s n h k = omega (
  arith,
  length-append (take s bytes) (part ++ drop (s + n) bytes),
  length-append part (drop (s + n) bytes),
  length-take_le s bytes (omega arith),
  length-drop (s + n) bytes,
)

-- A write inside the buffer.
set_index_inside :
    (pl : Platform) (t : HalPinType) (bytes : List ℕ) (idx : ℕ) (v : HalValue)
    → IsInside t bytes idx
    → IsScalar v
    → pin_type v ≡ t
    → set_index pl (array t bytes) idx v
      ≡ ok (array t (written bytes (offset_of t idx) (byte_size t) (to_bytes v)))
unfolding set_index set_index_array
set_index_inside pl t bytes idx v h s p =
    let len : length (to_bytes v) ≡ byte_size t = length-to_bytes v s ∙ ap byte_size p in
    rw
      (
        element_bounds_inside pl t bytes idx h,
        le→ltb (length bytes) (offset_of t idx + byte_size t) h.0,
      )
      (rw (
        slice_all (to_bytes v) (byte_size t) len,
        copy_inside bytes (to_bytes v) (offset_of t idx) (byte_size t) h.0 len,
      ))

-- A read inside the buffer.
index_inside :
    (pl : Platform) (t : HalPinType) (bytes : List ℕ) (idx : ℕ)
    → IsInside t bytes idx
    → index pl (array t bytes) idx
      ≡ from_bytes t (take (byte_size t) (drop (offset_of t idx) bytes))
unfolding index index_array
index_inside pl t bytes idx h = rw (
  element_bounds_inside pl t bytes idx h,
  le→ltb (length bytes) (offset_of t idx + byte_size t) h.0,
  slice_inside bytes (offset_of t idx) (byte_size t) h.0,
)

Order-cases : (a b : ℕ) → b ≢ a → (a < b) ⊎ (b < a)
Order-cases a b ne = omega arith

step_le : (i j n : ℕ) → i < j → i * n + n ≤ j * n
step_le i j n h = grind arith

module _ (pl : Platform) (t : HalPinType) (bytes : List ℕ) (idx : ℕ) (v : HalValue)
    (inside : IsInside t bytes idx) (scalar : IsScalar v) (same_type : pin_type v ≡ t) where
  -- The array that `set_index` gives.
  abbrev pub updated : HalValue
  updated = array t (written bytes (offset_of t idx) (byte_size t) (to_bytes v))

  len : length (to_bytes v) ≡ byte_size t
  len = length-to_bytes v scalar ∙ ap byte_size same_type

  -- Storing a scalar of the element type, in range, at an index inside an array succeeds, reading
  -- the same index gives the scalar back, and the buffer keeps its length.
  pub index-set_index_self :
      IsValue v
      → (set_index pl (array t bytes) idx v ≡ ok updated)
        × (index pl updated idx ≡ ok v)
        × (length (written bytes (offset_of t idx) (byte_size t) (to_bytes v)) ≡ length bytes)
  index-set_index_self valid = (
    set_index_inside pl t bytes idx v inside scalar same_type,
    index_inside pl t _ idx (rw same (inside))
        ∙ (rw (read, ← same_type) (from_bytes-to_bytes v scalar valid)),
    same,
  )
    where
      same : length (written bytes (offset_of t idx) (byte_size t) (to_bytes v)) ≡ length bytes
      same = length-written bytes (to_bytes v) (offset_of t idx) (byte_size t) inside.0 len

      read :
          take
            (byte_size t)
            (drop (offset_of t idx) (written bytes (offset_of t idx) (byte_size t) (to_bytes v)))
          ≡ to_bytes v
      read =
          rw
            (drop-append (take (offset_of t idx) bytes)
              (to_bytes v ++ drop (offset_of t idx + byte_size t) bytes)
              (length-take_le (offset_of t idx) bytes (omega arith)))
            (take-append (to_bytes v) (drop (offset_of t idx + byte_size t) bytes) len)

  index-updated_ne :
      (j : ℕ) → IsInside t bytes j → idx ≢ j → index pl updated j ≡ index pl (array t bytes) j
  index-updated_ne j in_j ne =
      index_inside pl t _ j
        (rw (length-written bytes (to_bytes v) (offset_of t idx) (byte_size t) inside.0 len) in_j)
      ∙ ap (from_bytes t) (elim (Order-cases j idx ne) [
        | inl before ↦
            take-drop_before (offset_of t j) (byte_size t) (offset_of t idx) bytes _
              (step_le j idx (byte_size t) before) (omega arith)
        | inr behind ↦ rw (← append_assoc (take (offset_of t idx) bytes) (to_bytes v) _) (
            ap (take (byte_size t)) (
              drop_behind (offset_of t j) (offset_of t idx + byte_size t)
                (take (offset_of t idx) bytes ++ to_bytes v) bytes
                (omega (
                  arith,
                  length-append (take (offset_of t idx) bytes) (to_bytes v),
                  length-take_le (offset_of t idx) bytes (omega arith),
                  len,
                ))
                (step_le idx j (byte_size t) behind)))
      ])
      ∙ sym (index_inside pl t bytes j in_j)

  -- Storing a scalar of the element type at an index inside an array succeeds, and each other
  -- index inside the array then reads as it did before.
  pub index-set_index_ne :
      (j : ℕ)
      → IsInside t bytes j
      → idx ≢ j
      → (set_index pl (array t bytes) idx v ≡ ok updated)
        × (index pl updated j ≡ index pl (array t bytes) j)
  index-set_index_ne j in_j ne =
      (set_index_inside pl t bytes idx v inside scalar same_type, index-updated_ne j in_j ne)
