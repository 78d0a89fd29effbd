-- ===== src/Hal/Platform.antt =====
-- What the build and the processor decide: whether integer overflow panics (the debug profile) or
-- wraps (the release profile), and the rounding arithmetic of floats.
-- A float is its IEEE 754 bit pattern. Comparison and negation of floats are defined here on the
-- patterns; sum, difference, product, quotient and remainder are the platform's.
use audesys.Base.{
  ℕ, ◌+◌, ◌-◌, ◌%◌, Bool, ◌&&◌, ◌||◌, not, Option, none, some, ltb, leb, ◌==◌, if◌then◌else◌,
  Outcome, ok, panic,
}
use audesys.Base.Words.{ℤ, Width, w64, half, modulus, fits_signed, to_bits, from_bits}
use Prim.Native.Nat.{compare, Ordering}

pub record Platform : Type 0 where
  pub overflow_checks : Bool
  pub float_add : Width → ℕ → ℕ → ℕ
  pub float_sub : Width → ℕ → ℕ → ℕ
  pub float_mul : Width → ℕ → ℕ → ℕ
  pub float_div : Width → ℕ → ℕ → ℕ
  pub float_rem : Width → ℕ → ℕ → ℕ

-- An integer result that may be out of range: the overflow check, or the wrap.
unfoldable pub fit_unsigned : Platform → Width → ℕ → Outcome ℕ
fit_unsigned pl w n =
    if ltb n (modulus w) then ok n else if pl.overflow_checks then panic else ok (n % modulus w)

unfoldable pub fit_signed : Platform → Width → ℤ → Outcome ℤ
fit_signed pl w z =
    if fits_signed w z
    then ok z
    else if pl.overflow_checks
    then panic
    else ok (from_bits w (to_bits w z))

-- a - b on `uN`.
unfoldable pub sub_unsigned : Platform → Width → ℕ → ℕ → Outcome ℕ
sub_unsigned pl w a b =
    if leb b a then ok (a - b) else if pl.overflow_checks then panic else ok (a + modulus w - b)

-- The pattern of infinity at the two float widths.
abbrev pub infinity : Width → ℕ
infinity w64 = 0x7ff0_0000_0000_0000
infinity _ = 0x7f80_0000

abbrev pub is_nan : Width → ℕ → Bool
is_nan w a = ltb (infinity w) (a % half w)

abbrev pub is_zero : Width → ℕ → Bool
is_zero w a = (a % half w) == 0

-- IEEE equality: a NaN equals nothing, and the two zeros are equal.
unfoldable pub float_eq : Width → ℕ → ℕ → Bool
float_eq w a b = not (is_nan w a) && not (is_nan w b) && ((a == b) || (is_zero w a && is_zero w b))

abbrev pub is_negative : Width → ℕ → Bool
is_negative w a = leb (half w) a

-- The order of the magnitudes, turned round for two negative numbers.
abbrev pub signed_order : Width → Bool → Bool → ℕ → ℕ → Ordering
signed_order w Bool.false Bool.false a b = compare a b
signed_order w Bool.false Bool.true a b = Ordering.gt
signed_order w Bool.true Bool.false a b = Ordering.lt
signed_order w Bool.true Bool.true a b = compare b a

unfoldable pub float_partial_cmp : Width → ℕ → ℕ → Option Ordering
float_partial_cmp w a b =
    if is_nan w a || is_nan w b
    then none
    else if is_zero w a && is_zero w b
    then some Ordering.eq
    else some (signed_order w (is_negative w a) (is_negative w b) a b)

-- Negation flips the sign bit.
unfoldable pub float_neg : Width → ℕ → ℕ
float_neg w a = (a + half w) % modulus w
