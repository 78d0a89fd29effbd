-- ===== src/Base/Words.antt =====
-- Rust's integers: `iN` as ℤ in a range, `uN` as ℕ in a range, two's complement, little-endian bytes.
use Prim.Native.Nat.{ℕ, zero, suc, ◌+◌, ◌-◌, ◌*◌, ◌/◌, ◌%◌, ◌^◌, ◌<◌, compare, Ordering}
use native.Mathlib.Nat.{pow-suc}
use mathlib.Core.Path.{◌≡◌, refl}
use mathlib.Core.Bool.{Bool}
use mathlib.Core.List.{List, [], ◌∷◌}
use native.Mathlib.Omega.{arith}
use audesys.Base.Tests.{ltb, leb, if◌then◌else◌}
use audesys.Base.Lists.{length, All}

-- `negsuc n` is -(n + 1).
pub data ℤ : Type 0 where
  pos : ℕ → ℤ
  negsuc : ℕ → ℤ

abbrev pub pos_part : ℤ → ℕ
pos_part (pos n) = n
pos_part (negsuc n) = 0

abbrev pub neg_part : ℤ → ℕ
neg_part (pos n) = 0
neg_part (negsuc n) = suc n

-- a - b, as an integer.
abbrev pub sub_ℕ : ℕ → ℕ → ℤ
sub_ℕ a b = if leb b a then pos (a - b) else negsuc (b - a - 1)

infixl 65 ◌+ℤ◌ ◌-ℤ◌
infixl 70 ◌*ℤ◌
unfoldable pub ◌+ℤ◌ : ℤ → ℤ → ℤ
a +ℤ b = sub_ℕ (pos_part a + pos_part b) (neg_part a + neg_part b)

unfoldable pub ◌-ℤ◌ : ℤ → ℤ → ℤ
a -ℤ b = sub_ℕ (pos_part a + neg_part b) (neg_part a + pos_part b)

unfoldable pub ◌*ℤ◌ : ℤ → ℤ → ℤ
a *ℤ b =
    sub_ℕ (pos_part a * pos_part b + neg_part a * neg_part b)
      (pos_part a * neg_part b + neg_part a * pos_part b)

unfoldable pub neg_ℤ : ℤ → ℤ
neg_ℤ a = sub_ℕ (neg_part a) (pos_part a)

abbrev pub magnitude : ℤ → ℕ
magnitude (pos n) = n
magnitude (negsuc n) = suc n

-- Division that rounds to 0, and its remainder, which has the dividend's sign.
unfoldable pub quot_ℤ : ℤ → ℤ → ℤ
quot_ℤ (pos a) (pos b) = pos (a / b)
quot_ℤ (pos a) (negsuc b) = sub_ℕ 0 (a / suc b)
quot_ℤ (negsuc a) (pos b) = sub_ℕ 0 (suc a / b)
quot_ℤ (negsuc a) (negsuc b) = pos (suc a / suc b)

unfoldable pub rem_ℤ : ℤ → ℤ → ℤ
rem_ℤ (pos a) b = pos (a % magnitude b)
rem_ℤ (negsuc a) b = sub_ℕ 0 (suc a % magnitude b)

abbrev pub compare_ℤ : ℤ → ℤ → Ordering
compare_ℤ (pos a) (pos b) = compare a b
compare_ℤ (pos a) (negsuc b) = Ordering.gt
compare_ℤ (negsuc a) (pos b) = Ordering.lt
compare_ℤ (negsuc a) (negsuc b) = compare b a

-- The integer widths of the program's values.
pub data Width : Type 0 where
  w8 w16 w32 w64 : Width

-- 2 ^ (N - 1) and 2 ^ N.
abbrev pub half : Width → ℕ
half w8 = 0x80
half w16 = 0x8000
half w32 = 0x8000_0000
half w64 = 0x8000_0000_0000_0000

abbrev pub modulus : Width → ℕ
modulus w8 = 0x100
modulus w16 = 0x1_0000
modulus w32 = 0x1_0000_0000
modulus w64 = 0x1_0000_0000_0000_0000

abbrev pub byte_count : Width → ℕ
byte_count w8 = 1
byte_count w16 = 2
byte_count w32 = 4
byte_count w64 = 8

-- The range of `uN`, and that of `iN`.
abbrev pub IsUnsigned : Width → ℕ → Type 0
IsUnsigned w n = n < modulus w

abbrev pub IsSigned : Width → ℤ → Type 0
IsSigned w (pos n) = n < half w
IsSigned w (negsuc n) = n < half w

abbrev pub fits_signed : Width → ℤ → Bool
fits_signed w (pos n) = ltb n (half w)
fits_signed w (negsuc n) = ltb n (half w)

-- The two's complement pattern of an integer, and the integer of a pattern.
unfoldable pub to_bits : Width → ℤ → ℕ
to_bits w (pos n) = n % modulus w
to_bits w (negsuc n) = modulus w - 1 - n % modulus w

unfoldable pub from_bits : Width → ℕ → ℤ
from_bits w n = if ltb n (half w) then pos n else negsuc (modulus w - 1 - n)

pub to_bits-IsUnsigned : (w : Width) (z : ℤ) → IsUnsigned w (to_bits w z)
unfolding to_bits
to_bits-IsUnsigned w8 (pos n) = omega arith
to_bits-IsUnsigned w16 (pos n) = omega arith
to_bits-IsUnsigned w32 (pos n) = omega arith
to_bits-IsUnsigned w64 (pos n) = omega arith
to_bits-IsUnsigned w8 (negsuc n) = omega arith
to_bits-IsUnsigned w16 (negsuc n) = omega arith
to_bits-IsUnsigned w32 (negsuc n) = omega arith
to_bits-IsUnsigned w64 (negsuc n) = omega arith

pub from_bits-IsSigned : (w : Width) (n : ℕ) → IsUnsigned w n → IsSigned w (from_bits w n)
unfolding from_bits
from_bits-IsSigned w8 n h = ground arith
from_bits-IsSigned w16 n h = ground arith
from_bits-IsSigned w32 n h = ground arith
from_bits-IsSigned w64 n h = ground arith

pub from_bits-to_bits : (w : Width) (z : ℤ) → IsSigned w z → from_bits w (to_bits w z) ≡ z
unfolding from_bits to_bits
from_bits-to_bits w8 (pos n) h = ground arith
from_bits-to_bits w16 (pos n) h = ground arith
from_bits-to_bits w32 (pos n) h = ground arith
from_bits-to_bits w64 (pos n) h = ground arith
from_bits-to_bits w8 (negsuc n) h = ground arith
from_bits-to_bits w16 (negsuc n) h = ground arith
from_bits-to_bits w32 (negsuc n) h = ground arith
from_bits-to_bits w64 (negsuc n) h = ground arith

-- `to_le_bytes` of a k-byte integer, and `from_le_bytes`.
unfoldable pub le_bytes : ℕ → ℕ → List ℕ
le_bytes zero n = []
le_bytes (suc k) n = n % 256 ∷ le_bytes k (n / 256)

unfoldable pub from_le_bytes : List ℕ → ℕ
from_le_bytes [] = 0
from_le_bytes (b ∷ bs) = b + 256 * from_le_bytes bs

abbrev pub IsByte : ℕ → Type 0
IsByte b = b < 256

pub length-le_bytes : (k n : ℕ) → length (le_bytes k n) ≡ k
unfolding le_bytes
length-le_bytes zero n = refl
length-le_bytes (suc k) n = omega (arith, length-le_bytes k (n / 256))

pub le_bytes-IsByte : (k n : ℕ) → All IsByte (le_bytes k n)
unfolding le_bytes
le_bytes-IsByte zero n = tt
le_bytes-IsByte (suc k) n = (omega arith, le_bytes-IsByte k (n / 256))

-- Decoding the bytes of a number below 256 ^ k gives the number.
pub from_le_bytes-le_bytes : (k n : ℕ) → n < 256 ^ k → from_le_bytes (le_bytes k n) ≡ n
unfolding from_le_bytes le_bytes
from_le_bytes-le_bytes zero n h = omega arith
from_le_bytes-le_bytes (suc k) n h =
    omega (arith, pow-suc 256 k, from_le_bytes-le_bytes k (n / 256) (omega (arith, pow-suc 256 k)))

-- A number read from k bytes is below 256 ^ k.
pub from_le_bytes-lt : (bs : List ℕ) → All IsByte bs → from_le_bytes bs < 256 ^ length bs
unfolding from_le_bytes
from_le_bytes-lt [] h = omega arith
from_le_bytes-lt (b ∷ bs) h = omega (arith, pow-suc 256 (length bs), from_le_bytes-lt bs h.1)

-- Encoding the number of some bytes gives the bytes.
pub le_bytes-from_le_bytes :
    (bs : List ℕ) → All IsByte bs → le_bytes (length bs) (from_le_bytes bs) ≡ bs
unfolding from_le_bytes le_bytes
le_bytes-from_le_bytes [] h = refl
le_bytes-from_le_bytes (b ∷ bs) h = ground (arith, le_bytes-from_le_bytes bs h.1)
