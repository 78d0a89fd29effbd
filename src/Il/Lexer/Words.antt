-- ===== src/Il/Lexer/Words.antt =====
-- crates/audesys-il-compiler/src/lexer.rs: the lines that are words with a blank between them.
use audesys.Base.{
  ℕ, ◌≡◌, refl, sym, ◌∙◌, ap, Bool, true, false, not, ◌&&◌, List, [], ◌∷◌, ◌++◌, ◌==◌, ==_iff,
  Bool-cases, inl, inr, All,
}
use mathlib.Core.List.{append-nil, append_assoc}
use audesys.Il.Lexer.{is_whitespace, remove_inline_comments, split_from}

-- Neither whitespace nor the beginning of a comment.
unfoldable pub plain : ℕ → Bool
plain c = not (is_whitespace c) && not (c == b'(')

abbrev pub all_plain : List ℕ → Bool
all_plain [] = true
all_plain (c ∷ word) = plain c && all_plain word

abbrev pub is_word : List ℕ → Bool
is_word [] = false
is_word (c ∷ word) = plain c && all_plain word

pub both : (a b : Bool) → (a && b) ≡ true → (a ≡ true) × (b ≡ true)
both true true h = (refl, refl)
both true false h = absurd (cc)
both false b h = absurd (cc)

pub negated : (b : Bool) → not b ≡ true → b ≡ false
negated true h = absurd (cc)
negated false h = refl

pub plain-is_whitespace : (c : ℕ) → plain c ≡ true → is_whitespace c ≡ false
unfolding plain
plain-is_whitespace c h = go (is_whitespace c) (c == b'(') h
  where
    go : (a b : Bool) → (not a && not b) ≡ true → a ≡ false
    go true b h = absurd (cc)
    go false b h = refl

pub plain-paren : (c : ℕ) → plain c ≡ true → (c == b'(') ≡ false
unfolding plain
plain-paren c h = go (is_whitespace c) (c == b'(') h
  where
    go : (a b : Bool) → (not a && not b) ≡ true → b ≡ false
    go true b h = absurd (cc)
    go false true h = absurd (cc)
    go false false h = refl

-- The words with a blank between them.
unfoldable pub unwords : List (List ℕ) → List ℕ
unwords [] = []
unwords (word ∷ []) = word
unwords (word ∷ next ∷ words) = word ++ b' ' ∷ unwords (next ∷ words)

abbrev pub AllWords : List (List ℕ) → Type 0
AllWords = All (λ word. is_word word ≡ true)

split_from-plain :
    (acc : List ℕ) (c : ℕ) (rest : List ℕ)
    → is_whitespace c ≡ false
    → split_from acc (c ∷ rest) ≡ split_from (acc ++ c ∷ []) rest
unfolding split_from
split_from-plain acc c rest h = rw (h, split_from) refl

-- A word is read to its end.
split_from-word :
    (acc word rest : List ℕ)
    → all_plain word ≡ true
    → split_from acc (word ++ rest) ≡ split_from (acc ++ word) rest
split_from-word acc [] rest h = ap (λ xs. split_from xs rest) (sym (append-nil acc))
split_from-word acc (c ∷ word) rest h =
    let (here, there) = both (plain c) (all_plain word) h in
    split_from-plain acc c (word ++ rest) (plain-is_whitespace c here)
    ∙ split_from-word (acc ++ c ∷ []) word rest there
    ∙ ap (λ xs. split_from xs rest) (append_assoc acc (c ∷ []) word)

pub split_from-unwords :
    (words : List (List ℕ)) → AllWords words → split_from [] (unwords words) ≡ words
unfolding unwords split_from is_whitespace
split_from-unwords [] h = refl
split_from-unwords ([] ∷ words) h = absurd (let e : false ≡ true = h.0 in cc)
split_from-unwords ((c ∷ word) ∷ []) h =
    ap (split_from []) (sym (append-nil (c ∷ word))) ∙ split_from-word [] (c ∷ word) [] h.0
split_from-unwords ((c ∷ word) ∷ next ∷ words) h =
    split_from-word [] (c ∷ word) _ h.0
    ∙ ap (◌∷◌ (c ∷ word)) (split_from-unwords (next ∷ words) h.1)

-- The character is not among the others.
unfoldable pub lacks : ℕ → List ℕ → Bool
lacks b [] = true
lacks b (c ∷ text) = not (c == b) && lacks b text

pub plain-newline : (c : ℕ) → plain c ≡ true → (c == b'\n') ≡ false
unfolding plain is_whitespace
plain-newline c h = elim (Bool-cases (c == b'\n')) [
  | inl same ↦ let clash : false ≡ true = sym (ap plain ((==_iff c b'\n').0 same)) ∙ h in cc
  | inr other ↦ other
]

module _ (b : ℕ) (avoids : (c : ℕ) → plain c ≡ true → (c == b) ≡ false)
    (no_blank : (b' ' == b) ≡ false) where
  lacks-append :
      (xs ys : List ℕ) → all_plain xs ≡ true → lacks b ys ≡ true → lacks b (xs ++ ys) ≡ true
  unfolding lacks
  lacks-append [] ys h k = k
  lacks-append (c ∷ xs) ys h k =
      let (here, there) = both (plain c) (all_plain xs) h in
      rw (avoids c here) (lacks-append xs ys there k)

  pub lacks-unwords : (words : List (List ℕ)) → AllWords words → lacks b (unwords words) ≡ true
  unfolding unwords lacks
  lacks-unwords [] h = refl
  lacks-unwords ([] ∷ words) h = absurd (let e : false ≡ true = h.0 in cc)
  lacks-unwords ((c ∷ word) ∷ []) h =
      ap (lacks b) (sym (append-nil (c ∷ word))) ∙ lacks-append (c ∷ word) [] h.0 refl
  lacks-unwords ((c ∷ word) ∷ next ∷ words) h =
      lacks-append (c ∷ word) _ h.0 (rw no_blank (lacks-unwords (next ∷ words) h.1))

pub remove_inline_comments-lacks :
    (text : List ℕ) → lacks b'(' text ≡ true → remove_inline_comments false text ≡ text
unfolding remove_inline_comments lacks
remove_inline_comments-lacks [] h = refl
remove_inline_comments-lacks (a ∷ []) h = refl
remove_inline_comments-lacks (a ∷ b ∷ rest) h =
    let (here, there) = both (not (a == b'(')) (lacks b'(' (b ∷ rest)) h in
    rw (negated (a == b'(') here, remove_inline_comments)
      (ap (◌∷◌ a) (remove_inline_comments-lacks (b ∷ rest) there))
