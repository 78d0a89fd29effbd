-- ===== src/Base/Bits.antt =====
-- The range of the bitwise operations.
use Prim.Native.Nat.{
  ℕ, zero, suc, ◌/◌, ◌%◌, ◌^◌, ◌≤◌, ◌<◌, min, max, bit_and, bit_or, bit_xor, digits,
  bit_and-bitwise, bit_or-bitwise, bit_xor-bitwise, differ,
}
use native.Mathlib.Nat.{pow-suc}
use mathlib.Core.Path.{subst, sym}
use native.Mathlib.Omega.{arith}
use audesys.Base.Words.{Width, w8, w16, w32, w64, modulus}

module _ (z : ℕ → ℕ) (f : ℕ → ℕ → ℕ) (z-le : (b : ℕ) → z b ≤ b)
    (f-le : (x y : ℕ) → x < 2 → y < 2 → f x y < 2) where
  digits-lt : (k n a b : ℕ) → a ≤ n → a < 2 ^ k → b < 2 ^ k → digits z f n a b < 2 ^ k
  digits-lt k zero a b h ha hb = omega (arith, z-le b)
  digits-lt k (suc n) zero b h ha hb = omega (arith, z-le b)
  digits-lt zero (suc n) (suc a) b h ha hb = absurd (omega arith)
  digits-lt (suc k) (suc n) (suc a) b h ha hb = omega (
    arith,
    pow-suc 2 k,
    f-le (suc a % 2) (b % 2) (omega arith) (omega arith),
    digits-lt k n (suc a / 2) (b / 2) (omega arith) (omega (arith, pow-suc 2 k))
        (omega (arith, pow-suc 2 k)),
  )

differ-lt : (x y : ℕ) → x < 2 → y < 2 → differ x y < 2
differ-lt zero y hx hy = hy
differ-lt (suc zero) zero hx hy = omega arith
differ-lt (suc zero) (suc zero) hx hy = omega arith
differ-lt (suc zero) (suc (suc y)) hx hy = absurd (omega arith)
differ-lt (suc (suc x)) y hx hy = absurd (omega arith)

bit_and-pow : (k a b : ℕ) → a < 2 ^ k → b < 2 ^ k → bit_and a b < 2 ^ k
bit_and-pow k a b ha hb =
    subst (λ t. t < 2 ^ k) (sym (bit_and-bitwise a b))
      (digits-lt (λ b. zero) min (λ b. omega arith) (λ x y p q. omega arith) k a a b (omega arith)
        ha hb)

bit_or-pow : (k a b : ℕ) → a < 2 ^ k → b < 2 ^ k → bit_or a b < 2 ^ k
bit_or-pow k a b ha hb =
    subst (λ t. t < 2 ^ k) (sym (bit_or-bitwise a b))
      (digits-lt (λ b. b) max (λ b. omega arith) (λ x y p q. omega arith) k a a b (omega arith) ha
        hb)

bit_xor-pow : (k a b : ℕ) → a < 2 ^ k → b < 2 ^ k → bit_xor a b < 2 ^ k
bit_xor-pow k a b ha hb =
    subst (λ t. t < 2 ^ k) (sym (bit_xor-bitwise a b))
      (digits-lt (λ b. b) differ (λ b. omega arith) differ-lt k a a b (omega arith) ha hb)

pub bit_and-lt-modulus :
    (w : Width) (a b : ℕ) → a < modulus w → b < modulus w → bit_and a b < modulus w
bit_and-lt-modulus w8 a b = bit_and-pow 8 a b
bit_and-lt-modulus w16 a b = bit_and-pow 16 a b
bit_and-lt-modulus w32 a b = bit_and-pow 32 a b
bit_and-lt-modulus w64 a b = bit_and-pow 64 a b

pub bit_or-lt-modulus :
    (w : Width) (a b : ℕ) → a < modulus w → b < modulus w → bit_or a b < modulus w
bit_or-lt-modulus w8 a b = bit_or-pow 8 a b
bit_or-lt-modulus w16 a b = bit_or-pow 16 a b
bit_or-lt-modulus w32 a b = bit_or-pow 32 a b
bit_or-lt-modulus w64 a b = bit_or-pow 64 a b

pub bit_xor-lt-modulus :
    (w : Width) (a b : ℕ) → a < modulus w → b < modulus w → bit_xor a b < modulus w
bit_xor-lt-modulus w8 a b = bit_xor-pow 8 a b
bit_xor-lt-modulus w16 a b = bit_xor-pow 16 a b
bit_xor-lt-modulus w32 a b = bit_xor-pow 32 a b
bit_xor-lt-modulus w64 a b = bit_xor-pow 64 a b
