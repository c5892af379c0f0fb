-- ===== src/Token/Key.antt =====
-- The identity of a token type: `a === b` of the source, decided by the position in `types`.
use tacoscript.Prelude.{
  ℕ, ◌≡◌, refl, ap, Bool, true, ◌↔◌, ◌==◌, ==_iff, List, [], ◌∷◌, some, get_elem?,
}
use tacoscript.Token.{
  TokType, num, regexp, string, name, eof, unknown, tab, indent, dedent, whitespace, newline,
  block_comment_start, block_comment_body, block_comment_end, line_comment_start, line_comment_body,
  bracket_l, bracket_r, brace_l, brace_r, paren_l, paren_r, comma, semi, doublesemi, colon,
  double_colon, dot, question, soak, soak_bracket_l, soak_paren_l, interrobang, arrow, ellipsis,
  template, back_quote, dollar_brace_l, at, excl, eq, assign, inc_dec, bitwise_not, kw_not, kw_or,
  kw_and, bitwise_or, bitwise_xor, bitwise_and, kw_is, kw_isnt, kw_like, kw_unlike, equality,
  relational, kw_in, kw_instanceof, bit_shift, plus_min, modulo, positive_modulo, star, slash,
  exponent, kw_typeof, kw_void, kw_delete, kw_var, kw_let, kw_const, kw_extern, kw_function,
  kw_then, kw_if, kw_else, kw_switch, kw_case, kw_default, kw_for, kw_update, kw_upto, kw_downto,
  kw_while, kw_do, kw_continue, kw_break, kw_return, kw_of, kw_throw, kw_try, kw_catch, kw_finally,
  kw_with, kw_new, kw_yield, kw_await, kw_static, kw_class, kw_extends, kw_private, kw_protected,
  kw_public, kw_get, kw_set, kw_export, kw_import, kw_from, kw_as, kw_null, kw_true, kw_false,
  kw_this, kw_super, kw_debugger, kw_pass, mapping_mark,
}

abbrev pub all_types : List TokType
all_types =
    num ∷ regexp ∷ string ∷ name ∷ eof ∷ unknown ∷ tab ∷ indent ∷ dedent ∷ whitespace ∷ newline
    ∷ block_comment_start ∷ block_comment_body ∷ block_comment_end ∷ line_comment_start
    ∷ line_comment_body ∷ bracket_l ∷ bracket_r ∷ brace_l ∷ brace_r ∷ paren_l ∷ paren_r ∷ comma
    ∷ semi ∷ doublesemi ∷ colon ∷ double_colon ∷ dot ∷ question ∷ soak ∷ soak_bracket_l
    ∷ soak_paren_l ∷ interrobang ∷ arrow ∷ ellipsis ∷ template ∷ back_quote ∷ dollar_brace_l ∷ at
    ∷ excl ∷ eq ∷ assign ∷ inc_dec ∷ bitwise_not ∷ kw_not ∷ kw_or ∷ kw_and ∷ bitwise_or
    ∷ bitwise_xor ∷ bitwise_and ∷ kw_is ∷ kw_isnt ∷ kw_like ∷ kw_unlike ∷ equality ∷ relational
    ∷ kw_in ∷ kw_instanceof ∷ bit_shift ∷ plus_min ∷ modulo ∷ positive_modulo ∷ star ∷ slash
    ∷ exponent ∷ kw_typeof ∷ kw_void ∷ kw_delete ∷ kw_var ∷ kw_let ∷ kw_const ∷ kw_extern
    ∷ kw_function ∷ kw_then ∷ kw_if ∷ kw_else ∷ kw_switch ∷ kw_case ∷ kw_default ∷ kw_for
    ∷ kw_update ∷ kw_upto ∷ kw_downto ∷ kw_while ∷ kw_do ∷ kw_continue ∷ kw_break ∷ kw_return
    ∷ kw_of ∷ kw_throw ∷ kw_try ∷ kw_catch ∷ kw_finally ∷ kw_with ∷ kw_new ∷ kw_yield ∷ kw_await
    ∷ kw_static ∷ kw_class ∷ kw_extends ∷ kw_private ∷ kw_protected ∷ kw_public ∷ kw_get ∷ kw_set
    ∷ kw_export ∷ kw_import ∷ kw_from ∷ kw_as ∷ kw_null ∷ kw_true ∷ kw_false ∷ kw_this ∷ kw_super
    ∷ kw_debugger ∷ kw_pass ∷ mapping_mark ∷ []

-- The index of the type among the keys of `types`.
unfoldable pub index : TokType → ℕ
index num = 0
index regexp = 1
index string = 2
index name = 3
index eof = 4
index unknown = 5
index tab = 6
index indent = 7
index dedent = 8
index whitespace = 9
index newline = 10
index block_comment_start = 11
index block_comment_body = 12
index block_comment_end = 13
index line_comment_start = 14
index line_comment_body = 15
index bracket_l = 16
index bracket_r = 17
index brace_l = 18
index brace_r = 19
index paren_l = 20
index paren_r = 21
index comma = 22
index semi = 23
index doublesemi = 24
index colon = 25
index double_colon = 26
index dot = 27
index question = 28
index soak = 29
index soak_bracket_l = 30
index soak_paren_l = 31
index interrobang = 32
index arrow = 33
index ellipsis = 34
index template = 35
index back_quote = 36
index dollar_brace_l = 37
index at = 38
index excl = 39
index eq = 40
index assign = 41
index inc_dec = 42
index bitwise_not = 43
index kw_not = 44
index kw_or = 45
index kw_and = 46
index bitwise_or = 47
index bitwise_xor = 48
index bitwise_and = 49
index kw_is = 50
index kw_isnt = 51
index kw_like = 52
index kw_unlike = 53
index equality = 54
index relational = 55
index kw_in = 56
index kw_instanceof = 57
index bit_shift = 58
index plus_min = 59
index modulo = 60
index positive_modulo = 61
index star = 62
index slash = 63
index exponent = 64
index kw_typeof = 65
index kw_void = 66
index kw_delete = 67
index kw_var = 68
index kw_let = 69
index kw_const = 70
index kw_extern = 71
index kw_function = 72
index kw_then = 73
index kw_if = 74
index kw_else = 75
index kw_switch = 76
index kw_case = 77
index kw_default = 78
index kw_for = 79
index kw_update = 80
index kw_upto = 81
index kw_downto = 82
index kw_while = 83
index kw_do = 84
index kw_continue = 85
index kw_break = 86
index kw_return = 87
index kw_of = 88
index kw_throw = 89
index kw_try = 90
index kw_catch = 91
index kw_finally = 92
index kw_with = 93
index kw_new = 94
index kw_yield = 95
index kw_await = 96
index kw_static = 97
index kw_class = 98
index kw_extends = 99
index kw_private = 100
index kw_protected = 101
index kw_public = 102
index kw_get = 103
index kw_set = 104
index kw_export = 105
index kw_import = 106
index kw_from = 107
index kw_as = 108
index kw_null = 109
index kw_true = 110
index kw_false = 111
index kw_this = 112
index kw_super = 113
index kw_debugger = 114
index kw_pass = 115
index mapping_mark = 116

pub get_elem?-index : (t : TokType) → get_elem? all_types (index t) ≡ some t
unfolding index
get_elem?-index num = refl
get_elem?-index _ = refl

index-injective : (t u : TokType) → index t ≡ index u → t ≡ u
index-injective t u e = cc (get_elem?-index t, get_elem?-index u, ap (get_elem? all_types) e)

infix 50 ◌===◌
unfoldable pub ◌===◌ : TokType → TokType → Bool
unfolding index
t === u = index t == index u

pub ===_iff : (t u : TokType) → ((t === u) ≡ true) ↔ (t ≡ u)
unfolding ◌===◌
===_iff t u = (
  λ h. index-injective t u ((==_iff (index t) (index u)).0 h),
  λ e. (==_iff (index t) (index u)).1 (ap index e),
)
