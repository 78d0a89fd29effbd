-- ===== src/Hal/Encoding/RoundTrip.antt =====
-- Decoding after encoding.
use audesys.Base.{
  ℕ, ◌+◌, ◌-◌, ◌%◌, ◌^◌, ◌<◌, ◌≡◌, refl, true, false, List, ◌∷◌, ◌++◌, some, length, take, drop,
  ◌==◌, arith, le→ltb, ==_iff, length-append,
}
use audesys.Base.Slices.{take-length, take-append, drop-append}
use audesys.Base.Words.{
  w8, w16, w32, w64, modulus, to_bits, to_bits-IsUnsigned, from_bits-to_bits, le_bytes,
  from_le_bytes, length-le_bytes, from_le_bytes-le_bytes,
}
use audesys.Hal.PinType.{HalPinType}
use audesys.Hal.Value.{
  HalValue, IsValue, bool, s8, u8, s16, u16, s32, u32, s64, u64, f32, f64, blob, string, array,
}
use audesys.Hal.Error.{Message, value}
use audesys.Hal.Utf8.{is_utf8}
use audesys.Hal.Encoding.{
  pin_type_to_tag, tag_to_pin_type, length_prefix, encode_halvalue, decode_fixed, decode_blob,
  decode_string, decode_array, decode_payload, decode_halvalue,
}

-- What the encoding can carry: lengths below 2 ^ 32, strings in UTF-8, and no array without data.
abbrev pub IsEncodable : HalValue → Type 0
IsEncodable (blob content) = length content < modulus w32
IsEncodable (string bytes) = (length bytes < modulus w32) × (is_utf8 bytes ≡ true)
IsEncodable (array t content) = (0 < length content) × (length content < modulus w32)
IsEncodable _ = Unit

decode_fixed-le_bytes :
    (short : Message) (k n : ℕ) (f : ℕ → HalValue)
    → n < 256 ^ k
    → decode_fixed short k (le_bytes k n) f ≡ value (f n)
unfolding decode_fixed
decode_fixed-le_bytes short k n f h = rw (
  length-le_bytes k n,
  le→ltb k k (omega arith),
  take-length (le_bytes k n) (length-le_bytes k n),
  from_le_bytes-le_bytes k n h,
)

pub tag_to_pin_type-pin_type_to_tag :
    (t : HalPinType) → tag_to_pin_type (pin_type_to_tag t) ≡ some t
unfolding tag_to_pin_type pin_type_to_tag
tag_to_pin_type-pin_type_to_tag HalPinType.bool = refl
tag_to_pin_type-pin_type_to_tag _ = refl

module _ (content : List ℕ) (fits : length content < modulus w32) where
  prefix_length : length (length_prefix content) ≡ 4
  prefix_length = length-le_bytes 4 _

  declared : from_le_bytes (take 4 (length_prefix content ++ content)) ≡ length content
  declared =
      rw
        (
          take-append (length_prefix content) content prefix_length,
          from_le_bytes-le_bytes 4 (length content % modulus w32) (omega arith),
        )
        (omega arith)

  rest : drop 4 (length_prefix content ++ content) ≡ content
  rest = drop-append (length_prefix content) content prefix_length

  framed : length (length_prefix content ++ content) ≡ 4 + length content
  framed = omega (arith, length-append (length_prefix content) content, prefix_length)

  same : (length content == (4 + length content - 4)) ≡ true
  same = (==_iff _ _).1 (omega arith)

  decode_blob-framed : decode_blob (length_prefix content ++ content) ≡ value (blob content)
  unfolding decode_blob
  decode_blob-framed =
      rw (framed, declared, rest, le→ltb (4 + length content) 4 (omega arith), same)

  decode_string-framed :
      is_utf8 content ≡ true
      → decode_string (length_prefix content ++ content) ≡ value (string content)
  unfolding decode_string
  decode_string-framed h =
      rw (framed, declared, rest, le→ltb (4 + length content) 4 (omega arith), same, h)

  decode_array-framed :
      (t : HalPinType)
      → 0 < length content
      → decode_array (pin_type_to_tag t ∷ (length_prefix content ++ content))
        ≡ value (array t content)
  unfolding decode_array
  decode_array-framed t h = rw (
    framed,
    declared,
    rest,
    le→ltb (4 + length content + 1) 6 (omega arith),
    le→ltb (4 + length content + 1) (5 + length content) (omega arith),
    tag_to_pin_type-pin_type_to_tag t,
    take-length content {n = length content} refl,
  )

-- Decoding the encoding of a value in range gives it back, where its lengths are below 2 ^ 32, a
-- string is UTF-8 and an array has data.
pub decode-encode_halvalue :
    (v : HalValue) → IsValue v → IsEncodable v → decode_halvalue (encode_halvalue v) ≡ value v
unfolding encode_halvalue decode_halvalue decode_payload
decode-encode_halvalue (bool true) h e = unfold decode_fixed from_le_bytes in refl
decode-encode_halvalue (bool false) h e = unfold decode_fixed from_le_bytes in refl
decode-encode_halvalue (u8 n) h e = decode_fixed-le_bytes _ 1 n u8 h
decode-encode_halvalue (u16 n) h e = decode_fixed-le_bytes _ 2 n u16 h
decode-encode_halvalue (u32 n) h e = decode_fixed-le_bytes _ 4 n u32 h
decode-encode_halvalue (u64 n) h e = decode_fixed-le_bytes _ 8 n u64 h
decode-encode_halvalue (f32 n) h e = decode_fixed-le_bytes _ 4 n f32 h
decode-encode_halvalue (f64 n) h e = decode_fixed-le_bytes _ 8 n f64 h
decode-encode_halvalue (s8 z) h e =
    rw (
      decode_fixed-le_bytes _ 1 (to_bits w8 z) _ (to_bits-IsUnsigned w8 z),
      from_bits-to_bits w8 z h,
    )
decode-encode_halvalue (s16 z) h e = rw (
  decode_fixed-le_bytes _ 2 (to_bits w16 z) _ (to_bits-IsUnsigned w16 z),
  from_bits-to_bits w16 z h,
)
decode-encode_halvalue (s32 z) h e = rw (
  decode_fixed-le_bytes _ 4 (to_bits w32 z) _ (to_bits-IsUnsigned w32 z),
  from_bits-to_bits w32 z h,
)
decode-encode_halvalue (s64 z) h e = rw (
  decode_fixed-le_bytes _ 8 (to_bits w64 z) _ (to_bits-IsUnsigned w64 z),
  from_bits-to_bits w64 z h,
)
decode-encode_halvalue (blob content) h e = decode_blob-framed content e
decode-encode_halvalue (string bytes) h e = decode_string-framed bytes e.0 e.1
decode-encode_halvalue (array t content) h e = decode_array-framed content e.1 t e.0
