-- ===== src/Il/Lexer/Mnemonics.antt =====
-- crates/audesys-il-compiler/src/lexer.rs: the words that are mnemonics, operands and labels.
use audesys.Base.{
  ℕ, ◌≡◌, refl, sym, ◌∙◌, ap, Bool, true, false, ◌&&◌, ◌||◌, List, [], ◌∷◌, ◌++◌, ◌==◌, none, some,
  map, map_get, bytes_eq, bytes_eq_sound, if◌then◌else◌, Bool-cases, inl, inr,
}
use audesys.Il.Lexer.{
  is_whitespace, Token, ident, label, mnemonics, parse_mnemonic, display, upper, to_uppercase,
  strip_colon, parts_tokens, line_tokens,
}
use audesys.Il.Lexer.Words.{plain, is_word, all_plain, unwords}
use audesys.Il.Lexer.Lines.{line_tokens-unwords}

unfoldable has_colon : List ℕ → Bool
has_colon [] = false
has_colon (c ∷ text) = (c == b':') || has_colon text

has_colon-append : (xs ys : List ℕ) → has_colon ys ≡ true → has_colon (xs ++ ys) ≡ true
unfolding has_colon
has_colon-append [] ys h = h
has_colon-append (x ∷ xs) ys h = second (x == b':') (has_colon-append xs ys h)
  where
    second : (a : Bool) {b : Bool} → b ≡ true → (a || b) ≡ true
    second true h = refl
    second false h = h

has_colon-to_uppercase : (name : List ℕ) → has_colon (to_uppercase (name ++ b':' ∷ [])) ≡ true
unfolding has_colon to_uppercase upper
has_colon-to_uppercase [] = refl
has_colon-to_uppercase (c ∷ name) = has_colon-append (upper c) _ (has_colon-to_uppercase name)

-- No key of the table has a colon.
unfoldable colon_free : List (List ℕ × Token) → Bool
colon_free [] = true
colon_free (entry ∷ table) = if has_colon entry.0 then false else colon_free table

map_get-colon_free :
    (text : List ℕ) (table : List (List ℕ × Token))
    → has_colon text ≡ true
    → colon_free table ≡ true
    → map_get text table ≡ none
unfolding map_get colon_free
map_get-colon_free text [] h k = refl
map_get-colon_free text ((key, token) ∷ table) h k = elim (Bool-cases (bytes_eq key text)) [
  | inl same ↦
      let colon = ap has_colon (bytes_eq_sound key text same) ∙ h in
      let clash : false ≡ true = sym (ap (λ b. if b then false else colon_free table) colon) ∙ k in
      cc
  | inr other ↦ rw other (map_get-colon_free text table h (later (has_colon key) k))
]
  where
    later : (b : Bool) → (if b then false else colon_free table) ≡ true → colon_free table ≡ true
    later true k = absurd (cc)
    later false k = k

strip_colon-append : (name : List ℕ) → strip_colon (name ++ b':' ∷ []) ≡ some name
unfolding strip_colon
strip_colon-append [] = refl
strip_colon-append (c ∷ []) = refl
strip_colon-append (c ∷ d ∷ name) = rw (strip_colon-append (d ∷ name), strip_colon) refl

parse_mnemonic-colon : (name : List ℕ) → parse_mnemonic (to_uppercase (name ++ b':' ∷ [])) ≡ none
unfolding parse_mnemonic colon_free has_colon
parse_mnemonic-colon name = map_get-colon_free _ mnemonics (has_colon-to_uppercase name) refl

joined : (a b : Bool) {c : Bool} → (a && b) ≡ true → (b ≡ true → c ≡ true) → (a && c) ≡ true
joined true b h k = k h
joined false b h k = h

all_plain-append : (name : List ℕ) → all_plain name ≡ true → all_plain (name ++ b':' ∷ []) ≡ true
unfolding plain is_whitespace
all_plain-append [] h = refl
all_plain-append (d ∷ name) h = joined (plain d) (all_plain name) h (all_plain-append name)

pub is_word-append : (name : List ℕ) → is_word name ≡ true → is_word (name ++ b':' ∷ []) ≡ true
is_word-append [] h = cc
is_word-append (c ∷ name) h = joined (plain c) (all_plain name) h (all_plain-append name)

-- A token that stands for itself at the head of a line.
pub record IsMnemonic (t : Token) : Type 0 where
  pub word : is_word (display t) ≡ true
  pub no_label : strip_colon (display t) ≡ none
  pub found : parse_mnemonic (to_uppercase (display t)) ≡ some t

-- A line as the lexer reads it.
pub data IsLine : List Token → Type 0 where
  with_operand :
      {t : Token} {name : List ℕ}
      → IsMnemonic t
      → is_word name ≡ true
      → IsLine (t ∷ ident name ∷ [])
  alone : {t : Token} → IsMnemonic t → IsLine (t ∷ [])
  of_label : {name : List ℕ} → is_word name ≡ true → IsLine (label name ∷ [])

pub line_tokens-IsLine :
    {tokens : List Token} → IsLine tokens → line_tokens (unwords (map display tokens)) ≡ tokens
unfolding display parts_tokens
line_tokens-IsLine (with_operand {t = t} {name = name} m h) =
    line_tokens-unwords (display t) (name ∷ []) (m.word, (h, tt)) ∙ rw (m.no_label, m.found) refl
line_tokens-IsLine (alone {t = t} m) =
    line_tokens-unwords (display t) [] (m.word, tt) ∙ rw (m.no_label, m.found) refl
line_tokens-IsLine (of_label {name = name} h) =
    line_tokens-unwords (name ++ b':' ∷ []) [] (is_word-append name h, tt)
    ∙ rw (strip_colon-append name, parse_mnemonic-colon name) refl
