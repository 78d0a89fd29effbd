-- ===== src/Il/Lexer.antt =====
-- crates/audesys-il-compiler/src/lexer.rs: the tokens of a source.
pub mod Words
pub mod Lines
pub mod Mnemonics
pub mod Table
use audesys.Base.{
  ℕ, ◌-◌, Bool, true, false, not, ◌&&◌, ◌||◌, List, [], ◌∷◌, ◌++◌, map, Option, none, some, leb,
  ◌==◌, if◌then◌else◌, bytes_eq, map_get, codes,
}

pub data Token : Type 0 where
  ld ldn st and andn or orn xor : Token
  add sub mul div modulo : Token
  gt ge eq ne le lt : Token
  jmp jmpc jmpcn cal ret : Token
  s r not_token : Token
  ton tof tp ctu ctd r_trig f_trig sr rs : Token
  ident : List ℕ → Token
  label : List ℕ → Token

-- The arms of `parse_mnemonic`.
abbrev pub mnemonics : List (List ℕ × Token)
mnemonics =
    (codes "LD", ld)
    ∷ (codes "LDN", ldn)
    ∷ (codes "ST", st)
    ∷ (codes "AND", and)
    ∷ (codes "ANDN", andn)
    ∷ (codes "OR", or)
    ∷ (codes "ORN", orn)
    ∷ (codes "XOR", xor)
    ∷ (codes "ADD", add)
    ∷ (codes "SUB", sub)
    ∷ (codes "MUL", mul)
    ∷ (codes "DIV", div)
    ∷ (codes "MOD", modulo)
    ∷ (codes "GT", gt)
    ∷ (codes "GE", ge)
    ∷ (codes "EQ", eq)
    ∷ (codes "NE", ne)
    ∷ (codes "LE", le)
    ∷ (codes "LT", lt)
    ∷ (codes "JMP", jmp)
    ∷ (codes "JMPC", jmpc)
    ∷ (codes "JMPCN", jmpcn)
    ∷ (codes "CAL", cal)
    ∷ (codes "RET", ret)
    ∷ (codes "S", s)
    ∷ (codes "R", r)
    ∷ (codes "NOT", not_token)
    ∷ (codes "TON", ton)
    ∷ (codes "TOF", tof)
    ∷ (codes "TP", tp)
    ∷ (codes "CTU", ctu)
    ∷ (codes "CTD", ctd)
    ∷ (codes "R_TRIG", r_trig)
    ∷ (codes "F_TRIG", f_trig)
    ∷ (codes "SR", sr)
    ∷ (codes "RS", rs)
    ∷ []

unfoldable pub parse_mnemonic : List ℕ → Option Token
parse_mnemonic text = map_get text mnemonics

-- `fmt::Display for Token`.
unfoldable pub display : Token → List ℕ
display ld = codes "LD"
display ldn = codes "LDN"
display st = codes "ST"
display and = codes "AND"
display andn = codes "ANDN"
display or = codes "OR"
display orn = codes "ORN"
display xor = codes "XOR"
display add = codes "ADD"
display sub = codes "SUB"
display mul = codes "MUL"
display div = codes "DIV"
display modulo = codes "MOD"
display gt = codes "GT"
display ge = codes "GE"
display eq = codes "EQ"
display ne = codes "NE"
display le = codes "LE"
display lt = codes "LT"
display jmp = codes "JMP"
display jmpc = codes "JMPC"
display jmpcn = codes "JMPCN"
display cal = codes "CAL"
display ret = codes "RET"
display s = codes "S"
display r = codes "R"
display not_token = codes "NOT"
display ton = codes "TON"
display tof = codes "TOF"
display tp = codes "TP"
display ctu = codes "CTU"
display ctd = codes "CTD"
display r_trig = codes "R_TRIG"
display f_trig = codes "F_TRIG"
display sr = codes "SR"
display rs = codes "RS"
display (ident name) = name
display (label name) = name ++ b':' ∷ []

-- `char::is_whitespace`.
unfoldable pub is_whitespace : ℕ → Bool
is_whitespace c =
    (leb 9 c && leb c 13)
    || (c == 32)
    || (c == 0x85)
    || (c == 0xa0)
    || (c == 0x1680)
    || (leb 0x2000 c && leb c 0x200a)
    || (c == 0x2028)
    || (c == 0x2029)
    || (c == 0x202f)
    || (c == 0x205f)
    || (c == 0x3000)

-- What a place in a line means for its comments.
pub data Mark : Type 0 where
  opens closes inside outside : Mark

abbrev pub mark : Bool → ℕ → ℕ → Mark
mark in_comment a b =
    if (a == b'(') && (b == b'*')
    then opens
    else if in_comment && (a == b'*') && (b == b')')
    then closes
    else if in_comment
    then inside
    else outside

-- `remove_inline_comments`, by the two next characters.
unfoldable pub remove_inline_comments : Bool → List ℕ → List ℕ
remove_inline_comments in_comment [] = []
remove_inline_comments in_comment (a ∷ []) = if in_comment then [] else a ∷ []
remove_inline_comments in_comment (a ∷ b ∷ rest) = elim (mark in_comment a b) [
  | opens ↦ remove_inline_comments true rest
  | closes ↦ remove_inline_comments false rest
  | inside ↦ remove_inline_comments in_comment (b ∷ rest)
  | outside ↦ a ∷ remove_inline_comments in_comment (b ∷ rest)
]

abbrev flush : List ℕ → List (List ℕ) → List (List ℕ)
flush [] words = words
flush (c ∷ word) words = (c ∷ word) ∷ words

-- `split_whitespace`, with the word that is being read.
unfoldable pub split_from : List ℕ → List ℕ → List (List ℕ)
split_from word [] = flush word []
split_from word (c ∷ rest) = elim (is_whitespace c) [
  | true ↦ flush word (split_from [] rest)
  | false ↦ split_from (word ++ c ∷ []) rest
]

-- `str::lines`. A carriage return at the end of a line goes when the line is trimmed.
unfoldable pub lines_from : List ℕ → List ℕ → List (List ℕ)
lines_from line [] = line ∷ []
lines_from line (c ∷ rest) = elim (c == b'\n') [
  | true ↦ line ∷ lines_from [] rest
  | false ↦ lines_from (line ++ c ∷ []) rest
]

unfoldable pub trim_start : List ℕ → List ℕ
trim_start [] = []
trim_start (c ∷ rest) = elim (is_whitespace c) [ true ↦ trim_start rest | false ↦ c ∷ rest ]

-- Whether nothing but whitespace is left.
unfoldable pub blank : List ℕ → Bool
blank [] = true
blank (c ∷ rest) = is_whitespace c && blank rest

unfoldable pub trim_end : List ℕ → List ℕ
trim_end [] = []
trim_end (c ∷ rest) = elim (blank (c ∷ rest)) [ true ↦ [] | false ↦ c ∷ trim_end rest ]

abbrev pub trim : List ℕ → List ℕ
trim line = trim_end (trim_start line)

-- `to_uppercase`: the characters whose upper case is made of Latin letters. That of any other has
-- another character, and so is no part of a mnemonic.
unfoldable pub upper : ℕ → List ℕ
upper c =
    if leb b'a' c && leb c b'z'
    then (c - 32) ∷ []
    else if c == 0x131
    then b'I' ∷ []
    else if c == 0x17f
    then b'S' ∷ []
    else if c == 0xdf
    then b'S' ∷ b'S' ∷ []
    else if c == 0xfb00
    then b'F' ∷ b'F' ∷ []
    else if c == 0xfb01
    then b'F' ∷ b'I' ∷ []
    else if c == 0xfb02
    then b'F' ∷ b'L' ∷ []
    else if c == 0xfb03
    then b'F' ∷ b'F' ∷ b'I' ∷ []
    else if c == 0xfb04
    then b'F' ∷ b'F' ∷ b'L' ∷ []
    else if (c == 0xfb05) || (c == 0xfb06)
    then b'S' ∷ b'T' ∷ []
    else c ∷ []

unfoldable pub to_uppercase : List ℕ → List ℕ
to_uppercase [] = []
to_uppercase (c ∷ text) = upper c ++ to_uppercase text

-- `word.ends_with(':')`, with the word before it.
unfoldable pub strip_colon : List ℕ → Option (List ℕ)
strip_colon [] = none
strip_colon (c ∷ []) = if c == b':' then some [] else none
strip_colon (c ∷ d ∷ rest) = elim (strip_colon (d ∷ rest)) [
  | none ↦ none
  | some name ↦ some (c ∷ name)
]

abbrev or_ident : Option Token → List ℕ → Token
or_ident (some token) part = token
or_ident none part = ident part

abbrev pub part_token : List ℕ → Token
part_token part = or_ident (parse_mnemonic (to_uppercase part)) part

abbrev label_tokens : Option (List ℕ) → List (List ℕ) → List Token
label_tokens none parts = []
label_tokens (some name) parts = label name ∷ map part_token parts

abbrev operand_token : List (List ℕ) → List Token
operand_token [] = []
operand_token (operand ∷ _) = ident operand ∷ []

abbrev mnemonic_tokens : Option Token → List (List ℕ) → List Token
mnemonic_tokens none parts = []
mnemonic_tokens (some token) parts = token ∷ operand_token parts

unfoldable pub parts_tokens : List (List ℕ) → List Token
parts_tokens [] = []
parts_tokens (first ∷ parts) =
    label_tokens (strip_colon first) parts
    ++ mnemonic_tokens (parse_mnemonic (to_uppercase first)) parts

-- `trimmed.starts_with("(*")`.
abbrev pub is_comment : List ℕ → Bool
is_comment (a ∷ b ∷ _) = (a == b'(') && (b == b'*')
is_comment _ = false

-- The body of the loop over the lines; an empty line has no parts.
unfoldable pub line_tokens : List ℕ → List Token
line_tokens line = elim (is_comment (trim line)) [
  | true ↦ []
  | false ↦ parts_tokens (split_from [] (remove_inline_comments false (trim line)))
]

unfoldable pub lines_tokens : List (List ℕ) → List Token
lines_tokens [] = []
lines_tokens (line ∷ lines) = line_tokens line ++ lines_tokens lines

unfoldable pub tokenize : List ℕ → List Token
tokenize source = lines_tokens (lines_from [] source)
