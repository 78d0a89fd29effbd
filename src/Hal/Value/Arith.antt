-- ===== src/Hal/Value/Arith.antt =====
-- crates/audesys-hal-core/src/value.rs: the operators on `HalValue`. A match that finds two types
-- gives `S32(0)`, as the source's catch-all does; an integer operation may panic.
use Prim.Native.Nat.{bit_and, bit_or, bit_xor}
use audesys.Base.{
  ℕ, ◌+◌, ◌-◌, ◌*◌, ◌/◌, ◌%◌, Bool, false, not, ◌&&◌, ◌||◌, xor, ◌==◌, if◌then◌else◌, Outcome, ok,
  panic,
}
use audesys.Base.Words.{
  ℤ, pos, negsuc, ◌+ℤ◌, ◌-ℤ◌, ◌*ℤ◌, neg_ℤ, quot_ℤ, rem_ℤ, Width, w8, w16, w32, w64, modulus,
  fits_signed, to_bits, from_bits,
}
use audesys.Hal.Platform.{Platform, fit_unsigned, fit_signed, sub_unsigned, float_neg}
use audesys.Hal.Value.{HalValue, bool, s8, u8, s16, u16, s32, u32, s64, u64, f32, f64}

-- One operator at each of the scalar types.
pub record NumOp : Type 0 where
  pub signed : Width → ℤ → ℤ → Outcome ℤ
  pub unsigned : Width → ℕ → ℕ → Outcome ℕ
  pub float : Width → ℕ → ℕ → ℕ

abbrev pub map_ok {ℓ κ} : {A : Type ℓ} {B : Type κ} → (A → B) → Outcome A → Outcome B
map_ok f (ok a) = ok (f a)
map_ok f panic = panic

-- The macro `hal_binop!`.
unfoldable pub hal_binop : NumOp → HalValue → HalValue → Outcome HalValue
hal_binop o (s8 a) (s8 b) = map_ok s8 (o.signed w8 a b)
hal_binop o (u8 a) (u8 b) = map_ok u8 (o.unsigned w8 a b)
hal_binop o (s16 a) (s16 b) = map_ok s16 (o.signed w16 a b)
hal_binop o (u16 a) (u16 b) = map_ok u16 (o.unsigned w16 a b)
hal_binop o (s32 a) (s32 b) = map_ok s32 (o.signed w32 a b)
hal_binop o (u32 a) (u32 b) = map_ok u32 (o.unsigned w32 a b)
hal_binop o (s64 a) (s64 b) = map_ok s64 (o.signed w64 a b)
hal_binop o (u64 a) (u64 b) = map_ok u64 (o.unsigned w64 a b)
hal_binop o (f32 a) (f32 b) = ok (f32 (o.float w32 a b))
hal_binop o (f64 a) (f64 b) = ok (f64 (o.float w64 a b))
hal_binop o _ _ = ok (s32 (pos 0))

-- The test `b == 0` that Rust's `/` and `%` make.
abbrev pub is_zero_ℤ : ℤ → Bool
is_zero_ℤ (pos n) = n == 0
is_zero_ℤ (negsuc n) = false

-- Rust's `/` and `%` panic on a divisor of 0 and on the one quotient that overflows.
unfoldable pub div_signed : Width → ℤ → ℤ → Outcome ℤ
div_signed w a b =
    if is_zero_ℤ b then panic else if fits_signed w (quot_ℤ a b) then ok (quot_ℤ a b) else panic

unfoldable pub rem_signed : Width → ℤ → ℤ → Outcome ℤ
rem_signed w a b =
    if is_zero_ℤ b then panic else if fits_signed w (quot_ℤ a b) then ok (rem_ℤ a b) else panic

unfoldable pub div_unsigned : ℕ → ℕ → Outcome ℕ
div_unsigned a b = if b == 0 then panic else ok (a / b)

unfoldable pub rem_unsigned : ℕ → ℕ → Outcome ℕ
rem_unsigned a b = if b == 0 then panic else ok (a % b)

-- The five operators that the macro makes.
module _ (pl : Platform) where
  abbrev pub add_op : NumOp
  add_op = record {
    signed = λ w a b. fit_signed pl w (a +ℤ b);
    unsigned = λ w a b. fit_unsigned pl w (a + b);
    float = pl.float_add;
  }

  abbrev pub sub_op : NumOp
  sub_op = record {
    signed = λ w a b. fit_signed pl w (a -ℤ b);
    unsigned = λ w a b. sub_unsigned pl w a b;
    float = pl.float_sub;
  }

  abbrev pub mul_op : NumOp
  mul_op = record {
    signed = λ w a b. fit_signed pl w (a *ℤ b);
    unsigned = λ w a b. fit_unsigned pl w (a * b);
    float = pl.float_mul;
  }

  abbrev pub div_op : NumOp
  div_op = record {
    signed = div_signed;
    unsigned = λ w a b. div_unsigned a b;
    float = pl.float_div;
  }

  abbrev pub rem_op : NumOp
  rem_op = record {
    signed = rem_signed;
    unsigned = λ w a b. rem_unsigned a b;
    float = pl.float_rem;
  }

-- One bitwise operator, on patterns and on Booleans.
pub record BitOp : Type 0 where
  pub on_bools : Bool → Bool → Bool
  pub on_bits : ℕ → ℕ → ℕ

abbrev pub and_op : BitOp
and_op = record { on_bools = ◌&&◌; on_bits = bit_and }

abbrev pub or_op : BitOp
or_op = record { on_bools = ◌||◌; on_bits = bit_or }

abbrev pub xor_op : BitOp
xor_op = record { on_bools = xor; on_bits = bit_xor }

abbrev pub on_signed : BitOp → Width → ℤ → ℤ → ℤ
on_signed o w a b = from_bits w (o.on_bits (to_bits w a) (to_bits w b))

-- The macro `hal_bitop!`.
unfoldable pub hal_bitop : BitOp → HalValue → HalValue → HalValue
hal_bitop o (bool a) (bool b) = bool (o.on_bools a b)
hal_bitop o (s8 a) (s8 b) = s8 (on_signed o w8 a b)
hal_bitop o (u8 a) (u8 b) = u8 (o.on_bits a b)
hal_bitop o (s16 a) (s16 b) = s16 (on_signed o w16 a b)
hal_bitop o (u16 a) (u16 b) = u16 (o.on_bits a b)
hal_bitop o (s32 a) (s32 b) = s32 (on_signed o w32 a b)
hal_bitop o (u32 a) (u32 b) = u32 (o.on_bits a b)
hal_bitop o (s64 a) (s64 b) = s64 (on_signed o w64 a b)
hal_bitop o (u64 a) (u64 b) = u64 (o.on_bits a b)
hal_bitop o _ _ = s32 (pos 0)

-- The unary minus; the least integer has no negative of its width.
unfoldable pub hal_neg : Platform → HalValue → Outcome HalValue
hal_neg pl (s8 v) = map_ok s8 (fit_signed pl w8 (neg_ℤ v))
hal_neg pl (s16 v) = map_ok s16 (fit_signed pl w16 (neg_ℤ v))
hal_neg pl (s32 v) = map_ok s32 (fit_signed pl w32 (neg_ℤ v))
hal_neg pl (s64 v) = map_ok s64 (fit_signed pl w64 (neg_ℤ v))
hal_neg pl (f32 v) = ok (f32 (float_neg w32 v))
hal_neg pl (f64 v) = ok (f64 (float_neg w64 v))
hal_neg pl _ = ok (s32 (pos 0))

abbrev pub not_signed : ℤ → ℤ
not_signed (pos n) = negsuc n
not_signed (negsuc n) = pos n

-- The complement of every bit.
unfoldable pub hal_not : HalValue → HalValue
hal_not (bool v) = bool (not v)
hal_not (s8 v) = s8 (not_signed v)
hal_not (u8 v) = u8 (modulus w8 - 1 - v)
hal_not (s16 v) = s16 (not_signed v)
hal_not (u16 v) = u16 (modulus w16 - 1 - v)
hal_not (s32 v) = s32 (not_signed v)
hal_not (u32 v) = u32 (modulus w32 - 1 - v)
hal_not (s64 v) = s64 (not_signed v)
hal_not (u64 v) = u64 (modulus w64 - 1 - v)
hal_not _ = s32 (pos 0)
