-- ===== src/Reader/Punct/Code.antt =====
-- The codes of packages/horchata/src/lexer/serialization.js, and what `toCode` makes of a token.
use tacoscript.Prelude.{Option, none, some, [], ◌∷◌}
use tacoscript.Text.{Chars}
use tacoscript.Token.{
  TokType, eof, newline, bracket_l, bracket_r, brace_l, brace_r, paren_l, paren_r, comma, semi,
  doublesemi, colon, double_colon, dot, question, soak, ellipsis, back_quote, dollar_brace_l, at,
  excl, eq, bitwise_not, bitwise_or, bitwise_xor, bitwise_and, modulo, star, slash, exponent,
  block_comment_start, block_comment_end,
}

-- The assignments to `code`. The keyword types have theirs from `kw`, the other types none.
unfoldable pub punctuation_code : TokType → Option Chars
punctuation_code eof = some ([])
punctuation_code newline = some (10 ∷ [])
punctuation_code bracket_l = some (91 ∷ [])
punctuation_code bracket_r = some (93 ∷ [])
punctuation_code brace_l = some (123 ∷ [])
punctuation_code brace_r = some (125 ∷ [])
punctuation_code paren_l = some (40 ∷ [])
punctuation_code paren_r = some (41 ∷ [])
punctuation_code comma = some (44 ∷ [])
punctuation_code semi = some (59 ∷ [])
punctuation_code doublesemi = some (59 ∷ 59 ∷ [])
punctuation_code colon = some (58 ∷ [])
punctuation_code double_colon = some (58 ∷ 58 ∷ [])
punctuation_code dot = some (46 ∷ [])
punctuation_code question = some (63 ∷ [])
punctuation_code soak = some (63 ∷ 46 ∷ [])
punctuation_code ellipsis = some (46 ∷ 46 ∷ 46 ∷ [])
punctuation_code back_quote = some (96 ∷ [])
punctuation_code dollar_brace_l = some (36 ∷ 123 ∷ [])
punctuation_code at = some (64 ∷ [])
punctuation_code excl = some (33 ∷ [])
punctuation_code eq = some (61 ∷ [])
punctuation_code bitwise_not = some (126 ∷ [])
punctuation_code bitwise_or = some (124 ∷ [])
punctuation_code bitwise_xor = some (94 ∷ [])
punctuation_code bitwise_and = some (38 ∷ [])
punctuation_code modulo = some (37 ∷ [])
punctuation_code star = some (42 ∷ [])
punctuation_code slash = some (47 ∷ [])
punctuation_code exponent = some (42 ∷ [])
punctuation_code block_comment_start = some (35 ∷ 42 ∷ [])
punctuation_code block_comment_end = some (42 ∷ 35 ∷ [])
punctuation_code _ = none

abbrev pub or_value : Option Chars → Option Chars → Chars
or_value (some (c ∷ cs)) val = c ∷ cs
or_value (some []) (some v) = v
or_value (some []) none = []
or_value none (some v) = v
or_value none none = []

-- `"" + (this.code || token.value)`, for a punctuation token; `none` is a value that is not given
unfoldable pub to_code : TokType → Option Chars → Chars
unfolding punctuation_code
to_code type val = or_value (punctuation_code type) val
