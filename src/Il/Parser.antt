-- ===== src/Il/Parser.antt =====
-- crates/audesys-il-compiler/src/parser.rs: the statements of a list of tokens.
pub mod RoundTrip
use audesys.Base.{ℕ, List, [], ◌∷◌, Option, none, some, codes}
use audesys.Il.Lexer.{
  Token, ld, ldn, st, and, andn, or, orn, xor, add, sub, mul, div, modulo, gt, ge, eq, ne, le, lt,
  jmp, jmpc, jmpcn, cal, ret, s, r, not_token, ton, tof, tp, ctu, ctd, r_trig, f_trig, sr, rs,
  ident, label,
}

pub data CompareOp : Type 0 where
  equal not_equal greater greater_equal less less_equal : CompareOp

pub data IlStatement : Type 0 where
  load load_not store : List ℕ → IlStatement
  and_var and_not or_var or_not xor_var : List ℕ → IlStatement
  add_var sub_var mul_var div_var mod_var : List ℕ → IlStatement
  cmp : CompareOp → List ℕ → IlStatement
  jump jump_if jump_if_not call : List ℕ → IlStatement
  return : IlStatement
  set_var reset_var : List ℕ → IlStatement
  invert : IlStatement
  ton_var tof_var tp_var ctu_var ctd_var : List ℕ → IlStatement
  r_trig_var f_trig_var sr_var rs_var : List ℕ → IlStatement
  label_name : List ℕ → IlStatement

-- What a token at the head of a statement starts: a statement with a name, a whole statement, or
-- nothing.
pub data Start : Type 0 where
  named : (List ℕ → IlStatement) → Start
  whole : IlStatement → Start
  stray : Start

unfoldable pub start_of : Token → Start
start_of ld = named load
start_of ldn = named load_not
start_of st = named store
start_of and = named and_var
start_of andn = named and_not
start_of or = named or_var
start_of orn = named or_not
start_of xor = named xor_var
start_of add = named add_var
start_of sub = named sub_var
start_of mul = named mul_var
start_of div = named div_var
start_of modulo = named mod_var
start_of gt = named (cmp greater)
start_of ge = named (cmp greater_equal)
start_of eq = named (cmp equal)
start_of ne = named (cmp not_equal)
start_of le = named (cmp less_equal)
start_of lt = named (cmp less)
start_of jmp = named jump
start_of jmpc = named jump_if
start_of jmpcn = named jump_if_not
start_of cal = named call
start_of ret = whole return
start_of s = named set_var
start_of r = named reset_var
start_of not_token = whole invert
start_of ton = named ton_var
start_of tof = named tof_var
start_of tp = named tp_var
start_of ctu = named ctu_var
start_of ctd = named ctd_var
start_of r_trig = named r_trig_var
start_of f_trig = named f_trig_var
start_of sr = named sr_var
start_of rs = named rs_var
start_of (label name) = whole (label_name name)
start_of (ident name) = stray

-- The loop of `parse`, with the statement that `expect_ident` finds a name for.
unfoldable pub parse_from : Option (List ℕ → IlStatement) → List Token → List IlStatement
parse_from none [] = []
parse_from (some build) [] = build (codes "?") ∷ []
parse_from none (token ∷ tokens) = elim (start_of token) [
  | named build ↦ parse_from (some build) tokens
  | whole statement ↦ statement ∷ parse_from none tokens
  | stray ↦ parse_from none tokens
]
parse_from (some build) (ident name ∷ tokens) = build name ∷ parse_from none tokens
parse_from (some build) (token ∷ tokens) = build (codes "?") ∷ elim (start_of token) [
  | named next ↦ parse_from (some next) tokens
  | whole statement ↦ statement ∷ parse_from none tokens
  | stray ↦ parse_from none tokens
]

abbrev pub parse : List Token → List IlStatement
parse = parse_from none
