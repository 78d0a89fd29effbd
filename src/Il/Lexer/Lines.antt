-- ===== src/Il/Lexer/Lines.antt =====
-- crates/audesys-il-compiler/src/lexer.rs: the tokens of a line of words.
use audesys.Base.{
  ℕ, ◌≡◌, refl, sym, ◌∙◌, ap, Bool, true, false, not, ◌&&◌, List, [], ◌∷◌, ◌++◌, ◌==◌,
}
use mathlib.Core.List.{append-nil, append_assoc}
use audesys.Il.Lexer.{
  is_whitespace, remove_inline_comments, split_from, lines_from, trim_start, trim_end, trim, blank,
  is_comment, parts_tokens, line_tokens,
}
use audesys.Il.Lexer.Words.{
  plain, all_plain, is_word, both, negated, plain-is_whitespace, unwords, AllWords, lacks,
  lacks-unwords, plain-paren, plain-newline, remove_inline_comments-lacks, split_from-unwords,
}

-- The last character is neither whitespace nor the beginning of a comment.
unfoldable ends_plain : List ℕ → Bool
ends_plain [] = false
ends_plain (c ∷ []) = plain c
ends_plain (c ∷ d ∷ rest) = ends_plain (d ∷ rest)

ends_plain-append :
    (xs : List ℕ) (y : ℕ) (ys : List ℕ) → ends_plain (xs ++ y ∷ ys) ≡ ends_plain (y ∷ ys)
unfolding ends_plain
ends_plain-append [] y ys = refl
ends_plain-append (x ∷ []) y ys = refl
ends_plain-append (x ∷ z ∷ xs) y ys = ends_plain-append (z ∷ xs) y ys

ends_plain-word : (c : ℕ) (word : List ℕ) → is_word (c ∷ word) ≡ true → ends_plain (c ∷ word) ≡ true
unfolding ends_plain
ends_plain-word c [] h = (both (plain c) true h).0
ends_plain-word c (d ∷ word) h = ends_plain-word d word (both (plain c) (all_plain (d ∷ word)) h).1

ends_plain-behind : (c : ℕ) (text : List ℕ) → ends_plain text ≡ true → ends_plain (c ∷ text) ≡ true
unfolding ends_plain
ends_plain-behind c [] h = cc
ends_plain-behind c (d ∷ text) h = h

-- A line of words begins with a character that is no whitespace, and ends with one.
unwords-begins :
    (c : ℕ) (word : List ℕ) (words : List (List ℕ))
    → (rest : List ℕ) × (unwords ((c ∷ word) ∷ words) ≡ c ∷ rest)
unfolding unwords
unwords-begins c word [] = (_, refl)
unwords-begins c word (next ∷ words) = (_, refl)

ends_plain-unwords :
    (word : List ℕ) (words : List (List ℕ))
    → AllWords (word ∷ words)
    → ends_plain (unwords (word ∷ words)) ≡ true
unfolding unwords
ends_plain-unwords [] words h = absurd (let e : false ≡ true = h.0 in cc)
ends_plain-unwords (c ∷ word) [] h = ends_plain-word c word h.0
ends_plain-unwords (c ∷ word) (next ∷ words) h =
    ends_plain-append (c ∷ word) b' ' (unwords (next ∷ words))
    ∙ ends_plain-behind b' ' (unwords (next ∷ words)) (ends_plain-unwords next words h.1)

blank-ends_plain : (text : List ℕ) → ends_plain text ≡ true → blank text ≡ false
unfolding ends_plain blank
blank-ends_plain [] h = cc
blank-ends_plain (c ∷ []) h = rw (plain-is_whitespace c h) refl
blank-ends_plain (c ∷ d ∷ rest) h = second (is_whitespace c) (blank-ends_plain (d ∷ rest) h)
  where
    second : (a : Bool) {b : Bool} → b ≡ false → (a && b) ≡ false
    second true h = h
    second false h = refl

trim_end-ends_plain : (text : List ℕ) → ends_plain text ≡ true → trim_end text ≡ text
unfolding ends_plain trim_end
trim_end-ends_plain [] h = refl
trim_end-ends_plain (c ∷ []) h = rw (blank-ends_plain (c ∷ []) h, trim_end) refl
trim_end-ends_plain (c ∷ d ∷ rest) h =
    rw (blank-ends_plain (c ∷ d ∷ rest) h, trim_end) (ap (◌∷◌ c) (trim_end-ends_plain (d ∷ rest) h))

trim_start-plain : (c : ℕ) (rest : List ℕ) → plain c ≡ true → trim_start (c ∷ rest) ≡ c ∷ rest
unfolding trim_start
trim_start-plain c rest h = rw (plain-is_whitespace c h, trim_start) refl

trim-unwords :
    (word : List ℕ) (words : List (List ℕ))
    → AllWords (word ∷ words)
    → trim (unwords (word ∷ words)) ≡ unwords (word ∷ words)
trim-unwords [] words h = absurd (let e : false ≡ true = h.0 in cc)
trim-unwords (c ∷ word) words h =
    let (rest, e) = unwords-begins c word words in
    ap trim_end (rw e (trim_start-plain c rest (both (plain c) (all_plain word) h.0).0))
    ∙ trim_end-ends_plain _ (ends_plain-unwords (c ∷ word) words h)

is_comment-lacks : (text : List ℕ) → lacks b'(' text ≡ true → is_comment text ≡ false
unfolding lacks
is_comment-lacks [] h = refl
is_comment-lacks (a ∷ []) h = refl
is_comment-lacks (a ∷ b ∷ rest) h =
    first (a == b'(') (b == b'*') (both (not (a == b'(')) (lacks b'(' (b ∷ rest)) h).0
  where
    first : (p q : Bool) → not p ≡ true → (p && q) ≡ false
    first true q h = absurd (cc)
    first false q h = refl

line_tokens-trimmed :
    (line text : List ℕ)
    → trim line ≡ text
    → is_comment text ≡ false
    → line_tokens line ≡ parts_tokens (split_from [] (remove_inline_comments false text))
unfolding line_tokens
line_tokens-trimmed line text e h =
    rw (e, h, line_tokens)
      (ap (λ t. parts_tokens (split_from [] (remove_inline_comments false t))) e)

-- A line of words has the tokens of its words.
pub line_tokens-unwords :
    (word : List ℕ) (words : List (List ℕ))
    → AllWords (word ∷ words)
    → line_tokens (unwords (word ∷ words)) ≡ parts_tokens (word ∷ words)
line_tokens-unwords word words h =
    let clean = lacks-unwords b'(' plain-paren refl (word ∷ words) h in
    line_tokens-trimmed _ _ (trim-unwords word words h) (is_comment-lacks _ clean)
    ∙ ap (λ text. parts_tokens (split_from [] text)) (remove_inline_comments-lacks _ clean)
    ∙ ap parts_tokens (split_from-unwords (word ∷ words) h)

-- A line is read to its end.
pub lines_from-lacks :
    (acc line rest : List ℕ)
    → lacks b'\n' line ≡ true
    → lines_from acc (line ++ b'\n' ∷ rest) ≡ (acc ++ line) ∷ lines_from [] rest
unfolding lacks lines_from
lines_from-lacks acc [] rest h = ap (λ xs. xs ∷ lines_from [] rest) (sym (append-nil acc))
lines_from-lacks acc (c ∷ line) rest h =
    let (here, there) = both (not (c == b'\n')) (lacks b'\n' line) h in
    rw (negated (c == b'\n') here, lines_from)
      (lines_from-lacks (acc ++ c ∷ []) line rest there
        ∙ ap (λ xs. xs ∷ lines_from [] rest) (append_assoc acc (c ∷ []) line))

-- The words of a source's line.
pub lines_from-unwords :
    (words : List (List ℕ)) (rest : List ℕ)
    → AllWords words
    → lines_from [] (unwords words ++ b'\n' ∷ rest) ≡ unwords words ∷ lines_from [] rest
lines_from-unwords words rest h =
    lines_from-lacks [] (unwords words) rest (lacks-unwords b'\n' plain-newline refl words h)
