-- ===== src/Hal/Encoding.antt =====
-- crates/audesys-hal-core/src/encoding.rs: values as tagged bytes.
pub mod RoundTrip
pub mod Errors
use audesys.Base.{
  ℕ, ◌+◌, ◌-◌, ◌%◌, Bool, true, false, not, List, [], ◌∷◌, ◌++◌, Option, none, some, length, take,
  drop, ltb, ◌==◌, if◌then◌else◌,
}
use audesys.Base.Words.{w8, w16, w32, w64, modulus, to_bits, from_bits, le_bytes, from_le_bytes}
use audesys.Hal.PinType.{HalPinType}
use audesys.Hal.Value.{
  HalValue, bool, s8, u8, s16, u16, s32, u32, s64, u64, f32, f64, blob, string, array,
}
use audesys.Hal.Error.{
  HalError, internal, invalid_utf8, type_mismatch, invalid_blob_length, unknown_hal_type, Message,
  HalResult, value, error,
}
use audesys.Hal.Utf8.{is_utf8}

unfoldable pub pin_type_to_tag : HalPinType → ℕ
pin_type_to_tag HalPinType.bool = 0
pin_type_to_tag HalPinType.s8 = 1
pin_type_to_tag HalPinType.u8 = 2
pin_type_to_tag HalPinType.s16 = 3
pin_type_to_tag HalPinType.u16 = 4
pin_type_to_tag HalPinType.s32 = 5
pin_type_to_tag HalPinType.u32 = 6
pin_type_to_tag HalPinType.s64 = 7
pin_type_to_tag HalPinType.u64 = 8
pin_type_to_tag HalPinType.f32 = 9
pin_type_to_tag HalPinType.f64 = 10
pin_type_to_tag HalPinType.blob = 11
pin_type_to_tag HalPinType.string = 12

unfoldable pub tag_to_pin_type : ℕ → Option HalPinType
tag_to_pin_type tag =
    if tag == 0
    then some HalPinType.bool
    else if tag == 1
    then some HalPinType.s8
    else if tag == 2
    then some HalPinType.u8
    else if tag == 3
    then some HalPinType.s16
    else if tag == 4
    then some HalPinType.u16
    else if tag == 5
    then some HalPinType.s32
    else if tag == 6
    then some HalPinType.u32
    else if tag == 7
    then some HalPinType.s64
    else if tag == 8
    then some HalPinType.u64
    else if tag == 9
    then some HalPinType.f32
    else if tag == 10
    then some HalPinType.f64
    else if tag == 11
    then some HalPinType.blob
    else if tag == 12
    then some HalPinType.string
    else none

abbrev bit : Bool → ℕ
bit true = 1
bit false = 0

-- `len() as u32` in four bytes.
abbrev pub length_prefix : List ℕ → List ℕ
length_prefix content = le_bytes 4 (length content % modulus w32)

unfoldable pub encode_halvalue : HalValue → List ℕ
encode_halvalue (bool b) = 0 ∷ bit b ∷ []
encode_halvalue (s8 n) = 1 ∷ le_bytes 1 (to_bits w8 n)
encode_halvalue (u8 n) = 2 ∷ le_bytes 1 n
encode_halvalue (s16 n) = 3 ∷ le_bytes 2 (to_bits w16 n)
encode_halvalue (u16 n) = 4 ∷ le_bytes 2 n
encode_halvalue (s32 n) = 5 ∷ le_bytes 4 (to_bits w32 n)
encode_halvalue (u32 n) = 6 ∷ le_bytes 4 n
encode_halvalue (s64 n) = 7 ∷ le_bytes 8 (to_bits w64 n)
encode_halvalue (u64 n) = 8 ∷ le_bytes 8 n
encode_halvalue (f32 n) = 9 ∷ le_bytes 4 n
encode_halvalue (f64 n) = 10 ∷ le_bytes 8 n
encode_halvalue (blob content) = 11 ∷ (length_prefix content ++ content)
encode_halvalue (string bytes) = 12 ∷ (length_prefix bytes ++ bytes)
encode_halvalue (array element_type content) =
    13 ∷ pin_type_to_tag element_type ∷ (length_prefix content ++ content)

-- A value of k bytes, with the message for fewer; what follows them is not looked at.
unfoldable pub decode_fixed : Message → ℕ → List ℕ → (ℕ → HalValue) → HalResult HalValue
decode_fixed short k payload f =
    if ltb (length payload) k
    then error (internal short)
    else value (f (from_le_bytes (take k payload)))

unfoldable pub decode_blob : List ℕ → HalResult HalValue
decode_blob payload =
    let declared = from_le_bytes (take 4 payload) in
    let actual = length payload - 4 in
    if ltb (length payload) 4
    then error (internal (Message.missing_length_prefix HalPinType.blob))
    else if not (declared == actual)
    then error (invalid_blob_length declared (actual % modulus w32))
    else value (blob (drop 4 payload))

unfoldable pub decode_string : List ℕ → HalResult HalValue
decode_string payload =
    if ltb (length payload) 4
    then error (internal (Message.missing_length_prefix HalPinType.string))
    else if not (from_le_bytes (take 4 payload) == length payload - 4)
    then error (internal Message.length_mismatch)
    else if is_utf8 (drop 4 payload)
    then value (string (drop 4 payload))
    else error invalid_utf8

-- `ok_or(TypeMismatch { .. })`, with the types that the source makes up.
abbrev typed_array : Option HalPinType → List ℕ → HalResult HalValue
typed_array (some element_type) content = value (array element_type content)
typed_array none content = error (type_mismatch HalPinType.s32 HalPinType.s32)

unfoldable pub decode_array : List ℕ → HalResult HalValue
decode_array [] = error (internal Message.insufficient_header)
decode_array (elem_tag ∷ rest) =
    let data_len = from_le_bytes (take 4 rest) in
    if ltb (length rest + 1) 6
    then error (internal Message.insufficient_header)
    else if ltb (length rest + 1) (5 + data_len)
    then error (internal Message.data_truncated)
    else typed_array (tag_to_pin_type elem_tag) (take data_len (drop 4 rest))

unfoldable pub decode_payload : ℕ → List ℕ → HalResult HalValue
decode_payload tag payload =
    if tag == 0
    then decode_fixed Message.missing_value_byte 1 payload (λ n. bool (not (n == 0)))
    else if tag == 1
    then decode_fixed (Message.insufficient_bytes HalPinType.s8) 1 payload
        (λ n. s8 (from_bits w8 n))
    else if tag == 2
    then decode_fixed (Message.insufficient_bytes HalPinType.u8) 1 payload u8
    else if tag == 3
    then decode_fixed (Message.insufficient_bytes HalPinType.s16) 2 payload
        (λ n. s16 (from_bits w16 n))
    else if tag == 4
    then decode_fixed (Message.insufficient_bytes HalPinType.u16) 2 payload u16
    else if tag == 5
    then decode_fixed (Message.insufficient_bytes HalPinType.s32) 4 payload
        (λ n. s32 (from_bits w32 n))
    else if tag == 6
    then decode_fixed (Message.insufficient_bytes HalPinType.u32) 4 payload u32
    else if tag == 7
    then decode_fixed (Message.insufficient_bytes HalPinType.s64) 8 payload
        (λ n. s64 (from_bits w64 n))
    else if tag == 8
    then decode_fixed (Message.insufficient_bytes HalPinType.u64) 8 payload u64
    else if tag == 9
    then decode_fixed (Message.insufficient_bytes HalPinType.f32) 4 payload f32
    else if tag == 10
    then decode_fixed (Message.insufficient_bytes HalPinType.f64) 8 payload f64
    else if tag == 11
    then decode_blob payload
    else if tag == 12
    then decode_string payload
    else if tag == 13
    then decode_array payload
    else error (unknown_hal_type tag)

unfoldable pub decode_halvalue : List ℕ → HalResult HalValue
decode_halvalue [] = error (internal Message.empty_buffer)
decode_halvalue (tag ∷ payload) = decode_payload tag payload
