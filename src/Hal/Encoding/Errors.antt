-- ===== src/Hal/Encoding/Errors.antt =====
-- What `decode_halvalue` accepts.
use audesys.Base.{
  Bool, ℕ, ◌+◌, ◌-◌, ◌^◌, ◌<◌, ◌≤◌, ◌⊎◌, ==_iff, length-drop, ◌≡◌, refl, subst, true, false, List,
  [], ◌∷◌, length, take, drop, ltb, ◌==◌, arith, All, All-take, All-drop, length-take_le,
  Bool-cases, Option-cases, inl, inr, if◌then◌else◌,
}
use audesys.Base.Words.{
  modulus, w8, w16, w32, w64, IsByte, from_bits-IsSigned, from_le_bytes, from_le_bytes-lt, le_bytes,
}
use audesys.Hal.PinType.{HalPinType}
use audesys.Hal.Value.{HalValue, IsValue, blob, string, array}
use audesys.Hal.Error.{HalResult, value, error, internal, Message, Holds}
use audesys.Hal.Utf8.{is_utf8}
use audesys.Hal.Encoding.RoundTrip.{decode-encode_halvalue}
use audesys.Hal.Encoding.{
  tag_to_pin_type, encode_halvalue, decode_fixed, decode_blob, decode_string, decode_array,
  decode_payload, decode_halvalue,
}

-- A decoded value: in range, with a length that the encoding can carry, and UTF-8 where it is a string.
abbrev IsDecoded : HalValue → Type 0
IsDecoded (blob content) = All IsByte content × (length content < modulus w32)
IsDecoded (string bytes) = All IsByte bytes × (length bytes < modulus w32) × (is_utf8 bytes ≡ true)
IsDecoded (array t content) = All IsByte content × (length content < modulus w32)
IsDecoded v = IsValue v

-- A length that is read from four bytes.
prefix_fits :
    (bytes : List ℕ)
    → All IsByte bytes
    → 4 ≤ length bytes
    → from_le_bytes (take 4 bytes) < modulus w32
prefix_fits bytes h long =
    subst (λ l. from_le_bytes (take 4 bytes) < 256 ^ l) (length-take_le 4 bytes long)
      (from_le_bytes-lt (take 4 bytes) (All-take IsByte 4 bytes h))

length-take_within : (n : ℕ) (xs : List ℕ) → length (take n xs) ≤ n
length-take_within ℕ.zero xs = omega arith
length-take_within (ℕ.suc n) [] = omega arith
length-take_within (ℕ.suc n) (x ∷ xs) = omega (arith, length-take_within n xs)

-- The bytes behind a prefix that gives their number.
framed_fits :
    (payload : List ℕ)
    → All IsByte payload
    → ltb (length payload) 4 ≡ false
    → (from_le_bytes (take 4 payload) == (length payload - 4)) ≡ true
    → length (drop 4 payload) < modulus w32
framed_fits payload h long same =
    let enough : 4 ≤ length payload = not_ltb (length payload) 4 long in
    omega (arith, prefix_fits payload h enough, (==_iff _ _).0 same, length-drop 4 payload)
  where
    not_ltb : (a b : ℕ) → ltb a b ≡ false → b ≤ a
    not_ltb a b h = ground arith

decode_fixed-Holds :
    (short : Message) (k : ℕ) (payload : List ℕ) (f : ℕ → HalValue)
    → All IsByte payload
    → ((n : ℕ) → n < 256 ^ k → IsDecoded (f n))
    → Holds IsDecoded (decode_fixed short k payload f)
unfolding decode_fixed
decode_fixed-Holds short k payload f h g = elim (Bool-cases (ltb (length payload) k)) [
  | inl e ↦ rw e tt
  | inr e ↦ rw e (
      g _ (
        subst (λ l. from_le_bytes (take k payload) < 256 ^ l)
          (length-take_le k payload (ground arith))
          (from_le_bytes-lt (take k payload) (All-take IsByte k payload h))))
]

decode_blob-Holds : (payload : List ℕ) → All IsByte payload → Holds IsDecoded (decode_blob payload)
unfolding decode_blob
decode_blob-Holds payload h = elim (Bool-cases (ltb (length payload) 4)) [
  | inl e ↦ rw e tt
  | inr e ↦ rw e (elim (Bool-cases (from_le_bytes (take 4 payload) == (length payload - 4))) [
    | inl s ↦ rw s (All-drop IsByte 4 payload h, framed_fits payload h e s)
    | inr s ↦ rw s tt
  ])
]

decode_string-Holds :
    (payload : List ℕ) → All IsByte payload → Holds IsDecoded (decode_string payload)
unfolding decode_string
decode_string-Holds payload h = elim (Bool-cases (ltb (length payload) 4)) [
  | inl e ↦ rw e tt
  | inr e ↦ rw e (elim (Bool-cases (from_le_bytes (take 4 payload) == (length payload - 4))) [
    | inl s ↦ rw s (elim (Bool-cases (is_utf8 (drop 4 payload))) [
      | inl u ↦ rw u (All-drop IsByte 4 payload h, framed_fits payload h e s, u)
      | inr u ↦ rw u tt
    ])
    | inr s ↦ rw s tt
  ])
]

longer : (n : ℕ) → ltb (n + 1) 6 ≡ false → 4 ≤ n
longer n e = ground arith

decode_array-Holds :
    (payload : List ℕ) → All IsByte payload → Holds IsDecoded (decode_array payload)
unfolding decode_array
decode_array-Holds [] h = tt
decode_array-Holds (elem_tag ∷ rest) h = elim (Bool-cases (ltb (length rest + 1) 6)) [
  | inl e ↦ rw e tt
  | inr e ↦ rw e (elim (Bool-cases (ltb (length rest + 1) (5 + from_le_bytes (take 4 rest)))) [
    | inl s ↦ rw s tt
    | inr s ↦ rw s (elim (Option-cases (tag_to_pin_type elem_tag)) [
      | inl u ↦ rw u tt
      | inr (t, u) ↦ rw u (
        All-take IsByte (from_le_bytes (take 4 rest)) (drop 4 rest) (All-drop IsByte 4 rest h.1),
        omega (
          arith,
          prefix_fits rest h.1 (longer (length rest) e),
          length-take_within (from_le_bytes (take 4 rest)) (drop 4 rest),
        ),
      )
    ])
  ])
]

if-Holds :
    (b : Bool) (m n : HalResult HalValue)
    → Holds IsDecoded m
    → Holds IsDecoded n
    → Holds IsDecoded (if b then m else n)
if-Holds true m n p q = p
if-Holds false m n p q = q

decode_payload-Holds :
    (tag : ℕ) (payload : List ℕ) → All IsByte payload → Holds IsDecoded (decode_payload tag payload)
unfolding decode_payload
decode_payload-Holds tag payload h =
    if-Holds (tag == 0) _ _ (decode_fixed-Holds _ 1 payload _ h (λ n b. tt)) (
      if-Holds (tag == 1) _ _
        (decode_fixed-Holds _ 1 payload _ h (λ n b. from_bits-IsSigned w8 n b))
        (if-Holds (tag == 2) _ _ (decode_fixed-Holds _ 1 payload _ h (λ n b. b)) (
          if-Holds (tag == 3) _ _
            (decode_fixed-Holds _ 2 payload _ h (λ n b. from_bits-IsSigned w16 n b))
            (if-Holds (tag == 4) _ _ (decode_fixed-Holds _ 2 payload _ h (λ n b. b)) (
              if-Holds (tag == 5) _ _
                (decode_fixed-Holds _ 4 payload _ h (λ n b. from_bits-IsSigned w32 n b))
                (if-Holds (tag == 6) _ _ (decode_fixed-Holds _ 4 payload _ h (λ n b. b)) (
                  if-Holds (tag == 7) _ _
                    (decode_fixed-Holds _ 8 payload _ h (λ n b. from_bits-IsSigned w64 n b))
                    (if-Holds (tag == 8) _ _ (decode_fixed-Holds _ 8 payload _ h (λ n b. b)) (
                      if-Holds (tag == 9) _ _ (decode_fixed-Holds _ 4 payload _ h (λ n b. b)) (
                        if-Holds (tag == 10) _ _ (decode_fixed-Holds _ 8 payload _ h (λ n b. b)) (
                          if-Holds (tag == 11) _ _ (decode_blob-Holds payload h) (
                            if-Holds (tag == 12) _ _ (decode_string-Holds payload h) (
                              if-Holds (tag == 13) _ _ (decode_array-Holds payload h)
                                (tt))))))))))))))

decode_halvalue-IsDecoded :
    (bytes : List ℕ) → All IsByte bytes → Holds IsDecoded (decode_halvalue bytes)
unfolding decode_halvalue
decode_halvalue-IsDecoded [] h = tt
decode_halvalue-IsDecoded (tag ∷ payload) h = decode_payload-Holds tag payload h.1

-- The encoding of a value is decoded to it again, or the value is an array without data and its
-- encoding is rejected.
abbrev pub IsStable : HalValue → Type 0
IsStable v =
    (decode_halvalue (encode_halvalue v) ≡ value v)
    ⊎ ((t : HalPinType) × (v ≡ array t [])
        × (decode_halvalue (encode_halvalue v) ≡ error (internal Message.insufficient_header)))

decode_array_empty :
    (t : HalPinType)
    → decode_halvalue (encode_halvalue (array t [])) ≡ error (internal Message.insufficient_header)
unfolding decode_halvalue encode_halvalue decode_payload decode_array le_bytes
decode_array_empty t = refl

IsDecoded-IsStable : (v : HalValue) → IsDecoded v → IsStable v
IsDecoded-IsStable (blob content) h = inl (decode-encode_halvalue (blob content) h.0 h.1)
IsDecoded-IsStable (string bytes) h = inl (decode-encode_halvalue (string bytes) h.0 (h.1, h.2))
IsDecoded-IsStable (array t []) h = inr (t, refl, decode_array_empty t)
IsDecoded-IsStable (array t (x ∷ xs)) h =
    inl (decode-encode_halvalue (array t (x ∷ xs)) h.0 (omega arith, h.1))
IsDecoded-IsStable v h = inl (decode-encode_halvalue v h tt)

-- Where bytes are decoded to a value, its encoding is decoded to the same value again, or the
-- value is an array without data and its encoding is rejected as a truncated header.
pub decode_halvalue-IsStable :
    (bytes : List ℕ) → All IsByte bytes → Holds IsStable (decode_halvalue bytes)
decode_halvalue-IsStable bytes h = go (decode_halvalue bytes) (decode_halvalue-IsDecoded bytes h)
  where
    go : (r : HalResult HalValue) → Holds IsDecoded r → Holds IsStable r
    go (value v) h = IsDecoded-IsStable v h
    go (error e) h = tt
