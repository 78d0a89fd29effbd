-- ===== src/Il/Lexer/Table.antt =====
-- crates/audesys-il-compiler/src/lexer.rs: each mnemonic, as it is displayed and read.
use audesys.Base.{refl, map_get}
use audesys.Il.Lexer.{
  ld, ldn, st, and, andn, or, orn, xor, add, sub, mul, div, modulo, gt, ge, eq, ne, le, lt, jmp,
  jmpc, jmpcn, cal, ret, s, r, not_token, ton, tof, tp, ctu, ctd, r_trig, f_trig, sr, rs, display,
  is_whitespace, strip_colon, parse_mnemonic, to_uppercase, upper,
}
use audesys.Il.Lexer.Words.{plain}
use audesys.Il.Lexer.Mnemonics.{IsMnemonic}

pub ld-IsMnemonic : IsMnemonic ld
unfolding display plain is_whitespace strip_colon parse_mnemonic to_uppercase upper map_get
ld-IsMnemonic = record { word = refl; no_label = refl; found = refl }

pub ldn-IsMnemonic : IsMnemonic ldn
unfolding display plain is_whitespace strip_colon parse_mnemonic to_uppercase upper map_get
ldn-IsMnemonic = record { word = refl; no_label = refl; found = refl }

pub st-IsMnemonic : IsMnemonic st
unfolding display plain is_whitespace strip_colon parse_mnemonic to_uppercase upper map_get
st-IsMnemonic = record { word = refl; no_label = refl; found = refl }

pub and-IsMnemonic : IsMnemonic and
unfolding display plain is_whitespace strip_colon parse_mnemonic to_uppercase upper map_get
and-IsMnemonic = record { word = refl; no_label = refl; found = refl }

pub andn-IsMnemonic : IsMnemonic andn
unfolding display plain is_whitespace strip_colon parse_mnemonic to_uppercase upper map_get
andn-IsMnemonic = record { word = refl; no_label = refl; found = refl }

pub or-IsMnemonic : IsMnemonic or
unfolding display plain is_whitespace strip_colon parse_mnemonic to_uppercase upper map_get
or-IsMnemonic = record { word = refl; no_label = refl; found = refl }

pub orn-IsMnemonic : IsMnemonic orn
unfolding display plain is_whitespace strip_colon parse_mnemonic to_uppercase upper map_get
orn-IsMnemonic = record { word = refl; no_label = refl; found = refl }

pub xor-IsMnemonic : IsMnemonic xor
unfolding display plain is_whitespace strip_colon parse_mnemonic to_uppercase upper map_get
xor-IsMnemonic = record { word = refl; no_label = refl; found = refl }

pub add-IsMnemonic : IsMnemonic add
unfolding display plain is_whitespace strip_colon parse_mnemonic to_uppercase upper map_get
add-IsMnemonic = record { word = refl; no_label = refl; found = refl }

pub sub-IsMnemonic : IsMnemonic sub
unfolding display plain is_whitespace strip_colon parse_mnemonic to_uppercase upper map_get
sub-IsMnemonic = record { word = refl; no_label = refl; found = refl }

pub mul-IsMnemonic : IsMnemonic mul
unfolding display plain is_whitespace strip_colon parse_mnemonic to_uppercase upper map_get
mul-IsMnemonic = record { word = refl; no_label = refl; found = refl }

pub div-IsMnemonic : IsMnemonic div
unfolding display plain is_whitespace strip_colon parse_mnemonic to_uppercase upper map_get
div-IsMnemonic = record { word = refl; no_label = refl; found = refl }

pub modulo-IsMnemonic : IsMnemonic modulo
unfolding display plain is_whitespace strip_colon parse_mnemonic to_uppercase upper map_get
modulo-IsMnemonic = record { word = refl; no_label = refl; found = refl }

pub jmp-IsMnemonic : IsMnemonic jmp
unfolding display plain is_whitespace strip_colon parse_mnemonic to_uppercase upper map_get
jmp-IsMnemonic = record { word = refl; no_label = refl; found = refl }

pub jmpc-IsMnemonic : IsMnemonic jmpc
unfolding display plain is_whitespace strip_colon parse_mnemonic to_uppercase upper map_get
jmpc-IsMnemonic = record { word = refl; no_label = refl; found = refl }

pub jmpcn-IsMnemonic : IsMnemonic jmpcn
unfolding display plain is_whitespace strip_colon parse_mnemonic to_uppercase upper map_get
jmpcn-IsMnemonic = record { word = refl; no_label = refl; found = refl }

pub cal-IsMnemonic : IsMnemonic cal
unfolding display plain is_whitespace strip_colon parse_mnemonic to_uppercase upper map_get
cal-IsMnemonic = record { word = refl; no_label = refl; found = refl }

pub s-IsMnemonic : IsMnemonic s
unfolding display plain is_whitespace strip_colon parse_mnemonic to_uppercase upper map_get
s-IsMnemonic = record { word = refl; no_label = refl; found = refl }

pub r-IsMnemonic : IsMnemonic r
unfolding display plain is_whitespace strip_colon parse_mnemonic to_uppercase upper map_get
r-IsMnemonic = record { word = refl; no_label = refl; found = refl }

pub ton-IsMnemonic : IsMnemonic ton
unfolding display plain is_whitespace strip_colon parse_mnemonic to_uppercase upper map_get
ton-IsMnemonic = record { word = refl; no_label = refl; found = refl }

pub tof-IsMnemonic : IsMnemonic tof
unfolding display plain is_whitespace strip_colon parse_mnemonic to_uppercase upper map_get
tof-IsMnemonic = record { word = refl; no_label = refl; found = refl }

pub tp-IsMnemonic : IsMnemonic tp
unfolding display plain is_whitespace strip_colon parse_mnemonic to_uppercase upper map_get
tp-IsMnemonic = record { word = refl; no_label = refl; found = refl }

pub ctu-IsMnemonic : IsMnemonic ctu
unfolding display plain is_whitespace strip_colon parse_mnemonic to_uppercase upper map_get
ctu-IsMnemonic = record { word = refl; no_label = refl; found = refl }

pub ctd-IsMnemonic : IsMnemonic ctd
unfolding display plain is_whitespace strip_colon parse_mnemonic to_uppercase upper map_get
ctd-IsMnemonic = record { word = refl; no_label = refl; found = refl }

pub r_trig-IsMnemonic : IsMnemonic r_trig
unfolding display plain is_whitespace strip_colon parse_mnemonic to_uppercase upper map_get
r_trig-IsMnemonic = record { word = refl; no_label = refl; found = refl }

pub f_trig-IsMnemonic : IsMnemonic f_trig
unfolding display plain is_whitespace strip_colon parse_mnemonic to_uppercase upper map_get
f_trig-IsMnemonic = record { word = refl; no_label = refl; found = refl }

pub sr-IsMnemonic : IsMnemonic sr
unfolding display plain is_whitespace strip_colon parse_mnemonic to_uppercase upper map_get
sr-IsMnemonic = record { word = refl; no_label = refl; found = refl }

pub rs-IsMnemonic : IsMnemonic rs
unfolding display plain is_whitespace strip_colon parse_mnemonic to_uppercase upper map_get
rs-IsMnemonic = record { word = refl; no_label = refl; found = refl }

pub eq-IsMnemonic : IsMnemonic eq
unfolding display plain is_whitespace strip_colon parse_mnemonic to_uppercase upper map_get
eq-IsMnemonic = record { word = refl; no_label = refl; found = refl }

pub ne-IsMnemonic : IsMnemonic ne
unfolding display plain is_whitespace strip_colon parse_mnemonic to_uppercase upper map_get
ne-IsMnemonic = record { word = refl; no_label = refl; found = refl }

pub gt-IsMnemonic : IsMnemonic gt
unfolding display plain is_whitespace strip_colon parse_mnemonic to_uppercase upper map_get
gt-IsMnemonic = record { word = refl; no_label = refl; found = refl }

pub ge-IsMnemonic : IsMnemonic ge
unfolding display plain is_whitespace strip_colon parse_mnemonic to_uppercase upper map_get
ge-IsMnemonic = record { word = refl; no_label = refl; found = refl }

pub lt-IsMnemonic : IsMnemonic lt
unfolding display plain is_whitespace strip_colon parse_mnemonic to_uppercase upper map_get
lt-IsMnemonic = record { word = refl; no_label = refl; found = refl }

pub le-IsMnemonic : IsMnemonic le
unfolding display plain is_whitespace strip_colon parse_mnemonic to_uppercase upper map_get
le-IsMnemonic = record { word = refl; no_label = refl; found = refl }

pub ret-IsMnemonic : IsMnemonic ret
unfolding display plain is_whitespace strip_colon parse_mnemonic to_uppercase upper map_get
ret-IsMnemonic = record { word = refl; no_label = refl; found = refl }

pub not_token-IsMnemonic : IsMnemonic not_token
unfolding display plain is_whitespace strip_colon parse_mnemonic to_uppercase upper map_get
not_token-IsMnemonic = record { word = refl; no_label = refl; found = refl }
