-- ===== src/Hal/Utf8.antt =====
-- `String::from_utf8`: which lists of bytes are UTF-8.
use audesys.Base.{
  ℕ, Bool, true, false, ◌&&◌, List, [], ◌∷◌, Option, none, some, ltb, leb, if◌then◌else◌,
}

-- The range of a byte.
abbrev Span : Type 0
Span = ℕ × ℕ

abbrev follows : Span
follows = (0x80, 0xbf)

-- What has to follow a first byte; `none` for a byte that begins no character.
unfoldable pub lead : ℕ → Option (List Span)
lead b =
    if ltb b 0x80
    then some []
    else if ltb b 0xc2
    then none
    else if ltb b 0xe0
    then some (follows ∷ [])
    else if ltb b 0xe1
    then some ((0xa0, 0xbf) ∷ follows ∷ [])
    else if ltb b 0xed
    then some (follows ∷ follows ∷ [])
    else if ltb b 0xee
    then some ((0x80, 0x9f) ∷ follows ∷ [])
    else if ltb b 0xf0
    then some (follows ∷ follows ∷ [])
    else if ltb b 0xf1
    then some ((0x90, 0xbf) ∷ follows ∷ follows ∷ [])
    else if ltb b 0xf4
    then some (follows ∷ follows ∷ follows ∷ [])
    else if ltb b 0xf5
    then some ((0x80, 0x8f) ∷ follows ∷ follows ∷ [])
    else none

-- The bytes that are left, where the first of them have to be in the given ranges.
unfoldable pub utf8_from : List Span → List ℕ → Bool
utf8_from [] [] = true
utf8_from (s ∷ spans) [] = false
utf8_from ((low, high) ∷ spans) (b ∷ bytes) = (leb low b && leb b high) && utf8_from spans bytes
utf8_from [] (b ∷ bytes) = elim (lead b) [ none ↦ false | some spans ↦ utf8_from spans bytes ]

abbrev pub is_utf8 : List ℕ → Bool
is_utf8 bytes = utf8_from [] bytes
