-- ===== src/Il/Parser/RoundTrip.antt =====
-- crates/audesys-il-compiler/src/parser.rs: statements written as tokens, and parsed again.
use audesys.Base.{◌≡◌, refl, ap, ◌∙◌, List, [], ◌∷◌, ◌++◌}
use audesys.Il.Lexer.{
  Token, ld, ldn, st, and, andn, or, orn, xor, add, sub, mul, div, modulo, gt, ge, eq, ne, le, lt,
  jmp, jmpc, jmpcn, cal, ret, s, r, not_token, ton, tof, tp, ctu, ctd, r_trig, f_trig, sr, rs,
  ident, label,
}
use audesys.Il.Parser.{
  CompareOp, IlStatement, load, load_not, store, and_var, and_not, or_var, or_not, xor_var, add_var,
  sub_var, mul_var, div_var, mod_var, cmp, jump, jump_if, jump_if_not, call, return, set_var,
  reset_var, invert, ton_var, tof_var, tp_var, ctu_var, ctd_var, r_trig_var, f_trig_var, sr_var,
  rs_var, label_name, start_of, parse_from, parse,
}

abbrev pub compare_token : CompareOp → Token
compare_token CompareOp.equal = eq
compare_token CompareOp.not_equal = ne
compare_token CompareOp.greater = gt
compare_token CompareOp.greater_equal = ge
compare_token CompareOp.less = lt
compare_token CompareOp.less_equal = le

-- The tokens of a statement.
unfoldable pub tokens_of : IlStatement → List Token
tokens_of (load name) = ld ∷ ident name ∷ []
tokens_of (load_not name) = ldn ∷ ident name ∷ []
tokens_of (store name) = st ∷ ident name ∷ []
tokens_of (and_var name) = and ∷ ident name ∷ []
tokens_of (and_not name) = andn ∷ ident name ∷ []
tokens_of (or_var name) = or ∷ ident name ∷ []
tokens_of (or_not name) = orn ∷ ident name ∷ []
tokens_of (xor_var name) = xor ∷ ident name ∷ []
tokens_of (add_var name) = add ∷ ident name ∷ []
tokens_of (sub_var name) = sub ∷ ident name ∷ []
tokens_of (mul_var name) = mul ∷ ident name ∷ []
tokens_of (div_var name) = div ∷ ident name ∷ []
tokens_of (mod_var name) = modulo ∷ ident name ∷ []
tokens_of (jump name) = jmp ∷ ident name ∷ []
tokens_of (jump_if name) = jmpc ∷ ident name ∷ []
tokens_of (jump_if_not name) = jmpcn ∷ ident name ∷ []
tokens_of (call name) = cal ∷ ident name ∷ []
tokens_of (set_var name) = s ∷ ident name ∷ []
tokens_of (reset_var name) = r ∷ ident name ∷ []
tokens_of (ton_var name) = ton ∷ ident name ∷ []
tokens_of (tof_var name) = tof ∷ ident name ∷ []
tokens_of (tp_var name) = tp ∷ ident name ∷ []
tokens_of (ctu_var name) = ctu ∷ ident name ∷ []
tokens_of (ctd_var name) = ctd ∷ ident name ∷ []
tokens_of (r_trig_var name) = r_trig ∷ ident name ∷ []
tokens_of (f_trig_var name) = f_trig ∷ ident name ∷ []
tokens_of (sr_var name) = sr ∷ ident name ∷ []
tokens_of (rs_var name) = rs ∷ ident name ∷ []
tokens_of (cmp op name) = compare_token op ∷ ident name ∷ []
tokens_of return = ret ∷ []
tokens_of invert = not_token ∷ []
tokens_of (label_name name) = label name ∷ []

unfoldable pub unparse : List IlStatement → List Token
unparse [] = []
unparse (statement ∷ stmts) = tokens_of statement ++ unparse stmts

parse-tokens_of :
    (statement : IlStatement) (tokens : List Token)
    → parse (tokens_of statement ++ tokens) ≡ statement ∷ parse tokens
unfolding tokens_of parse_from start_of
parse-tokens_of (load name) tokens = refl
parse-tokens_of (load_not name) tokens = refl
parse-tokens_of (store name) tokens = refl
parse-tokens_of (and_var name) tokens = refl
parse-tokens_of (and_not name) tokens = refl
parse-tokens_of (or_var name) tokens = refl
parse-tokens_of (or_not name) tokens = refl
parse-tokens_of (xor_var name) tokens = refl
parse-tokens_of (add_var name) tokens = refl
parse-tokens_of (sub_var name) tokens = refl
parse-tokens_of (mul_var name) tokens = refl
parse-tokens_of (div_var name) tokens = refl
parse-tokens_of (mod_var name) tokens = refl
parse-tokens_of (jump name) tokens = refl
parse-tokens_of (jump_if name) tokens = refl
parse-tokens_of (jump_if_not name) tokens = refl
parse-tokens_of (call name) tokens = refl
parse-tokens_of (set_var name) tokens = refl
parse-tokens_of (reset_var name) tokens = refl
parse-tokens_of (ton_var name) tokens = refl
parse-tokens_of (tof_var name) tokens = refl
parse-tokens_of (tp_var name) tokens = refl
parse-tokens_of (ctu_var name) tokens = refl
parse-tokens_of (ctd_var name) tokens = refl
parse-tokens_of (r_trig_var name) tokens = refl
parse-tokens_of (f_trig_var name) tokens = refl
parse-tokens_of (sr_var name) tokens = refl
parse-tokens_of (rs_var name) tokens = refl
parse-tokens_of (cmp CompareOp.equal name) tokens = refl
parse-tokens_of (cmp CompareOp.not_equal name) tokens = refl
parse-tokens_of (cmp CompareOp.greater name) tokens = refl
parse-tokens_of (cmp CompareOp.greater_equal name) tokens = refl
parse-tokens_of (cmp CompareOp.less name) tokens = refl
parse-tokens_of (cmp CompareOp.less_equal name) tokens = refl
parse-tokens_of return tokens = refl
parse-tokens_of invert tokens = refl
parse-tokens_of (label_name name) tokens = refl

-- Statements written as tokens are parsed to the same statements.
pub parse-unparse : (stmts : List IlStatement) → parse (unparse stmts) ≡ stmts
unfolding unparse parse_from
parse-unparse [] = refl
parse-unparse (statement ∷ stmts) =
    parse-tokens_of statement (unparse stmts) ∙ ap (◌∷◌ statement) (parse-unparse stmts)
