-- ===== src/Il/Source.antt =====
-- crates/audesys-il-compiler/src/lexer.rs and parser.rs: statements written as a source, and read
-- again.
use audesys.Base.{ℕ, ◌≡◌, refl, ap, ap₂, ◌∙◌, Bool, true, List, [], ◌∷◌, ◌++◌, All, map}
use audesys.Il.Lexer.{
  Token, ident, label, display, lines_from, lines_tokens, line_tokens, tokenize, trim_start,
  trim_end, remove_inline_comments, split_from, parts_tokens,
}
use audesys.Il.Lexer.Words.{is_word, unwords, AllWords}
use audesys.Il.Lexer.Lines.{lines_from-unwords}
use audesys.Il.Lexer.Table.{
  ld-IsMnemonic, ldn-IsMnemonic, st-IsMnemonic, and-IsMnemonic, andn-IsMnemonic, or-IsMnemonic,
  orn-IsMnemonic, xor-IsMnemonic, add-IsMnemonic, sub-IsMnemonic, mul-IsMnemonic, div-IsMnemonic,
  modulo-IsMnemonic, jmp-IsMnemonic, jmpc-IsMnemonic, jmpcn-IsMnemonic, cal-IsMnemonic,
  s-IsMnemonic, r-IsMnemonic, ton-IsMnemonic, tof-IsMnemonic, tp-IsMnemonic, ctu-IsMnemonic,
  ctd-IsMnemonic, r_trig-IsMnemonic, f_trig-IsMnemonic, sr-IsMnemonic, rs-IsMnemonic, eq-IsMnemonic,
  ne-IsMnemonic, gt-IsMnemonic, ge-IsMnemonic, lt-IsMnemonic, le-IsMnemonic, ret-IsMnemonic,
  not_token-IsMnemonic,
}
use audesys.Il.Lexer.Mnemonics.{
  IsLine, with_operand, alone, of_label, line_tokens-IsLine, is_word-append,
}
use audesys.Il.Parser.{
  CompareOp, IlStatement, load, load_not, store, and_var, and_not, or_var, or_not, xor_var, add_var,
  sub_var, mul_var, div_var, mod_var, cmp, jump, jump_if, jump_if_not, call, return, set_var,
  reset_var, invert, ton_var, tof_var, tp_var, ctu_var, ctd_var, r_trig_var, f_trig_var, sr_var,
  rs_var, label_name, parse,
}
use audesys.Il.Parser.RoundTrip.{tokens_of, unparse, parse-unparse}

-- The name of a token is a word.
unfoldable pub is_named : Token → Bool
is_named (ident name) = is_word name
is_named (label name) = is_word name
is_named _ = true

-- A statement whose name is a word.
abbrev pub IsNamed : IlStatement → Type 0
IsNamed statement = All (λ t. is_named t ≡ true) (tokens_of statement)

-- A line for each statement.
unfoldable pub source_of : List IlStatement → List ℕ
source_of [] = []
source_of (statement ∷ stmts) =
    unwords (map display (tokens_of statement)) ++ b'\n' ∷ source_of stmts

tokens_of-IsLine : (statement : IlStatement) → IsNamed statement → IsLine (tokens_of statement)
unfolding tokens_of is_named
tokens_of-IsLine (load name) h = with_operand ld-IsMnemonic h.1.0
tokens_of-IsLine (load_not name) h = with_operand ldn-IsMnemonic h.1.0
tokens_of-IsLine (store name) h = with_operand st-IsMnemonic h.1.0
tokens_of-IsLine (and_var name) h = with_operand and-IsMnemonic h.1.0
tokens_of-IsLine (and_not name) h = with_operand andn-IsMnemonic h.1.0
tokens_of-IsLine (or_var name) h = with_operand or-IsMnemonic h.1.0
tokens_of-IsLine (or_not name) h = with_operand orn-IsMnemonic h.1.0
tokens_of-IsLine (xor_var name) h = with_operand xor-IsMnemonic h.1.0
tokens_of-IsLine (add_var name) h = with_operand add-IsMnemonic h.1.0
tokens_of-IsLine (sub_var name) h = with_operand sub-IsMnemonic h.1.0
tokens_of-IsLine (mul_var name) h = with_operand mul-IsMnemonic h.1.0
tokens_of-IsLine (div_var name) h = with_operand div-IsMnemonic h.1.0
tokens_of-IsLine (mod_var name) h = with_operand modulo-IsMnemonic h.1.0
tokens_of-IsLine (jump name) h = with_operand jmp-IsMnemonic h.1.0
tokens_of-IsLine (jump_if name) h = with_operand jmpc-IsMnemonic h.1.0
tokens_of-IsLine (jump_if_not name) h = with_operand jmpcn-IsMnemonic h.1.0
tokens_of-IsLine (call name) h = with_operand cal-IsMnemonic h.1.0
tokens_of-IsLine (set_var name) h = with_operand s-IsMnemonic h.1.0
tokens_of-IsLine (reset_var name) h = with_operand r-IsMnemonic h.1.0
tokens_of-IsLine (ton_var name) h = with_operand ton-IsMnemonic h.1.0
tokens_of-IsLine (tof_var name) h = with_operand tof-IsMnemonic h.1.0
tokens_of-IsLine (tp_var name) h = with_operand tp-IsMnemonic h.1.0
tokens_of-IsLine (ctu_var name) h = with_operand ctu-IsMnemonic h.1.0
tokens_of-IsLine (ctd_var name) h = with_operand ctd-IsMnemonic h.1.0
tokens_of-IsLine (r_trig_var name) h = with_operand r_trig-IsMnemonic h.1.0
tokens_of-IsLine (f_trig_var name) h = with_operand f_trig-IsMnemonic h.1.0
tokens_of-IsLine (sr_var name) h = with_operand sr-IsMnemonic h.1.0
tokens_of-IsLine (rs_var name) h = with_operand rs-IsMnemonic h.1.0
tokens_of-IsLine (cmp CompareOp.equal name) h = with_operand eq-IsMnemonic h.1.0
tokens_of-IsLine (cmp CompareOp.not_equal name) h = with_operand ne-IsMnemonic h.1.0
tokens_of-IsLine (cmp CompareOp.greater name) h = with_operand gt-IsMnemonic h.1.0
tokens_of-IsLine (cmp CompareOp.greater_equal name) h = with_operand ge-IsMnemonic h.1.0
tokens_of-IsLine (cmp CompareOp.less name) h = with_operand lt-IsMnemonic h.1.0
tokens_of-IsLine (cmp CompareOp.less_equal name) h = with_operand le-IsMnemonic h.1.0
tokens_of-IsLine return h = alone ret-IsMnemonic
tokens_of-IsLine invert h = alone not_token-IsMnemonic
tokens_of-IsLine (label_name name) h = of_label h.0

-- The words of a line.
AllWords-IsLine : {tokens : List Token} → IsLine tokens → AllWords (map display tokens)
unfolding display
AllWords-IsLine (with_operand m h) = (m.word, (h, tt))
AllWords-IsLine (alone m) = (m.word, tt)
AllWords-IsLine (of_label {name = name} h) = (is_word-append name h, tt)

tokenize-source_of :
    (stmts : List IlStatement) → All IsNamed stmts → tokenize (source_of stmts) ≡ unparse stmts
unfolding tokenize source_of unparse lines_tokens lines_from line_tokens trim_start trim_end
    remove_inline_comments split_from parts_tokens
tokenize-source_of [] h = refl
tokenize-source_of (statement ∷ stmts) (named, h) =
    let line = tokens_of-IsLine statement named in
    ap lines_tokens (
      lines_from-unwords (map display (tokens_of statement)) (source_of stmts)
        (AllWords-IsLine line))
    ∙ ap₂ (λ a b. a ++ b) (line_tokens-IsLine line) (tokenize-source_of stmts h)

-- Statements whose names are words, written as a source with a line for each, are read again as
-- the same statements.
pub parse-tokenize-source_of :
    (stmts : List IlStatement) → All IsNamed stmts → parse (tokenize (source_of stmts)) ≡ stmts
parse-tokenize-source_of stmts h = ap parse (tokenize-source_of stmts h) ∙ parse-unparse stmts
