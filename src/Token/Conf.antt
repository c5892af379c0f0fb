-- ===== src/Token/Conf.antt =====
-- The properties of each token type: `TokenType`, `binop`, `punctuator` and `kw` of
-- packages/horchata/src/lexer/types.js, and its tables `types` and `keywords`.
use tacoscript.Prelude.{ℕ, String, Bool, true, false, Option, none, some}
use tacoscript.Token.{
  TokType, num, regexp, string, name, eof, unknown, tab, indent, dedent, whitespace, newline,
  block_comment_start, block_comment_body, block_comment_end, line_comment_start, line_comment_body,
  bracket_l, bracket_r, brace_l, brace_r, paren_l, paren_r, comma, semi, doublesemi, colon,
  double_colon, dot, question, soak, soak_bracket_l, soak_paren_l, interrobang, arrow, ellipsis,
  template, back_quote, dollar_brace_l, at, excl, eq, assign, inc_dec, bitwise_not, kw_not, kw_or,
  kw_and, bitwise_or, bitwise_xor, bitwise_and, kw_is, kw_isnt, kw_like, kw_unlike, equality,
  relational, kw_in, kw_instanceof, bit_shift, plus_min, modulo, positive_modulo, star, slash,
  exponent, kw_typeof, kw_void, kw_delete, kw_var, kw_let, kw_const, kw_extern, kw_function,
  kw_then, kw_if, kw_else, kw_switch, kw_case, kw_default, kw_for, kw_update, kw_upto, kw_downto,
  kw_while, kw_do, kw_continue, kw_break, kw_return, kw_of, kw_throw, kw_try, kw_catch, kw_finally,
  kw_with, kw_new, kw_yield, kw_await, kw_static, kw_class, kw_extends, kw_private, kw_protected,
  kw_public, kw_get, kw_set, kw_export, kw_import, kw_from, kw_as, kw_null, kw_true, kw_false,
  kw_this, kw_super, kw_debugger, kw_pass, mapping_mark,
}

-- The fields that the lexer and the parser read; `alias` and `babylonName` are for output only.
pub record TokenType : Type 0 where
  pub label : String
  pub keyword : Option String
  pub estree_value : Option String
  pub before_expr : Bool
  pub continues_expr : Bool
  pub starts_expr : Bool
  pub starts_stmt : Bool
  pub starts_arguments : Bool
  pub continues_previous_line : Bool
  pub right_associative : Bool
  pub is_loop : Bool
  pub is_assign : Bool
  pub prefix : Bool
  pub postfix : Bool
  pub binop : Option ℕ
  pub is_logical : Bool

-- `new TokenType(label, alias)` with an empty `conf`. `is_logical` says that
-- `binopExpressionName` is "LogicalExpression" and not the default "BinaryExpression".
abbrev token_type : String → TokenType
token_type l = record {
  label = l;
  keyword = none;
  estree_value = none;
  before_expr = false;
  continues_expr = false;
  starts_expr = false;
  starts_stmt = false;
  starts_arguments = false;
  continues_previous_line = false;
  right_associative = false;
  is_loop = false;
  is_assign = false;
  prefix = false;
  postfix = false;
  binop = none;
  is_logical = false;
}

abbrev binop_type : String → ℕ → TokenType
binop_type l prec = record (token_type l) {
  before_expr = true;
  continues_expr = true;
  binop = some prec;
}

abbrev kw : String → TokenType
kw l = record (token_type l) { keyword = some l }

unfoldable pub type_of : TokType → TokenType
type_of num = record (token_type "num") { starts_expr = true }
type_of regexp = record (token_type "regexp") { starts_expr = true }
type_of string = record (token_type "string") { starts_expr = true }
type_of name = record (token_type "name") { starts_expr = true }
type_of eof = token_type "eof"
type_of unknown = token_type "unknown"
type_of tab = token_type "tab"
type_of indent = token_type "indent"
type_of dedent = token_type "dedent"
type_of whitespace = token_type "whitespace"
type_of newline = record (token_type "newline") { before_expr = true; continues_expr = true }
type_of block_comment_start = token_type "#*"
type_of block_comment_body = token_type "blockcomment"
type_of block_comment_end = token_type "*#"
type_of line_comment_start = token_type "#"
type_of line_comment_body = token_type "linecomment"
type_of bracket_l = record (token_type "[") { before_expr = true; starts_expr = true }
type_of bracket_r = token_type "]"
type_of brace_l = record (token_type "{") { before_expr = true; starts_expr = true }
type_of brace_r = token_type "}"
type_of paren_l = record (token_type "(") { before_expr = true; starts_expr = true }
type_of paren_r = token_type ")"
type_of comma = record (token_type ",") { before_expr = true }
type_of semi = record (token_type ";") { before_expr = true; continues_expr = true }
type_of doublesemi = record (token_type ";;") { before_expr = true }
type_of colon = record (token_type ":") { before_expr = true; continues_expr = true }
type_of double_colon = record (token_type "::") { before_expr = true; continues_expr = true }
type_of dot = record (token_type ".") { continues_previous_line = true }
type_of question = record (token_type "?") { before_expr = true; continues_expr = true }
type_of soak = record (token_type "?.") { continues_previous_line = true }
type_of soak_bracket_l = record (token_type "?[") { continues_previous_line = true }
type_of soak_paren_l = record (token_type "?(") { before_expr = true; starts_expr = true }
type_of interrobang = record (token_type "?!") { before_expr = true; starts_expr = true }
type_of arrow = record (token_type "=>") { before_expr = true; starts_expr = true }
type_of ellipsis = record (token_type "...") { before_expr = true }
type_of template = token_type "template"
type_of back_quote = record (token_type "`") { starts_expr = true }
type_of dollar_brace_l = record (token_type "${") {
  before_expr = true;
  starts_expr = true;
  continues_expr = true;
}
type_of at = token_type "@"
type_of excl = record (token_type "!") {
  before_expr = true;
  starts_expr = true;
  starts_arguments = true;
}
type_of eq = record (token_type "=") { before_expr = true; continues_expr = true; is_assign = true }
type_of assign = record (token_type "_=") {
  before_expr = true;
  continues_expr = true;
  is_assign = true;
}
type_of inc_dec = record (token_type "++/--") { prefix = true; postfix = true; starts_expr = true }
type_of bitwise_not = record (token_type "~") {
  before_expr = true;
  continues_expr = true;
  prefix = true;
  starts_expr = true;
}
type_of kw_not = record (kw "not") {
  before_expr = true;
  continues_expr = true;
  prefix = true;
  starts_expr = true;
  estree_value = some "!";
}
type_of kw_or = record (kw "or") {
  binop = some 1;
  before_expr = true;
  continues_expr = true;
  is_logical = true;
  estree_value = some "||";
}
type_of kw_and = record (kw "and") {
  binop = some 2;
  before_expr = true;
  continues_expr = true;
  is_logical = true;
  estree_value = some "&&";
}
type_of bitwise_or = binop_type "|" 3
type_of bitwise_xor = binop_type "^" 4
type_of bitwise_and = binop_type "&" 5
type_of kw_is = record (kw "is") {
  binop = some 6;
  before_expr = true;
  continues_expr = true;
  estree_value = some "===";
}
type_of kw_isnt = record (kw "isnt") {
  binop = some 6;
  before_expr = true;
  continues_expr = true;
  estree_value = some "!==";
}
type_of kw_like = record (kw "like") {
  binop = some 6;
  before_expr = true;
  continues_expr = true;
  estree_value = some "==";
}
type_of kw_unlike = record (kw "unlike") {
  binop = some 6;
  before_expr = true;
  continues_expr = true;
  estree_value = some "!=";
}
type_of equality = binop_type "==" 6
type_of relational = binop_type "</>" 7
type_of kw_in = record (kw "in") { binop = some 7; before_expr = true; continues_expr = true }
type_of kw_instanceof = record (kw "instanceof") {
  binop = some 7;
  before_expr = true;
  continues_expr = true;
}
type_of bit_shift = binop_type "<</>>" 8
type_of plus_min = record (token_type "+/-") {
  binop = some 9;
  before_expr = true;
  continues_expr = true;
  prefix = true;
  starts_expr = true;
}
type_of modulo = binop_type "%" 10
type_of positive_modulo = binop_type "%%" 10
type_of star = binop_type "*" 10
type_of slash = binop_type "/" 10
type_of exponent = record (token_type "**") {
  binop = some 11;
  before_expr = true;
  continues_expr = true;
  right_associative = true;
}
type_of kw_typeof = record (kw "typeof") {
  before_expr = true;
  continues_expr = true;
  prefix = true;
  starts_expr = true;
}
type_of kw_void = record (kw "void") {
  before_expr = true;
  continues_expr = true;
  prefix = true;
  starts_expr = true;
}
type_of kw_delete = record (kw "delete") {
  before_expr = true;
  continues_expr = true;
  prefix = true;
  starts_expr = true;
}
type_of kw_var = record (kw "var") { starts_stmt = true }
type_of kw_let = record (kw "let") { starts_stmt = true }
type_of kw_const = record (kw "const") { starts_stmt = true }
type_of kw_extern = record (kw "extern") { starts_stmt = true }
type_of kw_function = record (kw "function") { starts_stmt = true }
type_of kw_then = record (kw "then") {
  before_expr = true;
  continues_expr = true;
  starts_expr = true;
}
type_of kw_if = record (kw "if") { before_expr = true; continues_expr = true; starts_expr = true }
type_of kw_else = record (kw "else") { before_expr = true; starts_expr = true }
type_of kw_switch = record (kw "switch") {
  before_expr = true;
  continues_expr = true;
  starts_expr = true;
}
type_of kw_case = record (kw "case") { before_expr = true }
type_of kw_default = record (kw "default") { before_expr = true }
type_of kw_for = record (kw "for") { before_expr = true; starts_expr = true; is_loop = true }
type_of kw_update = record (kw "update") {
  before_expr = true;
  continues_expr = true;
  starts_expr = true;
}
type_of kw_upto = record (kw "upto") {
  before_expr = true;
  continues_expr = true;
  starts_expr = true;
}
type_of kw_downto = record (kw "downto") {
  before_expr = true;
  continues_expr = true;
  starts_expr = true;
}
type_of kw_while = record (kw "while") { before_expr = true; starts_expr = true; is_loop = true }
type_of kw_do = record (kw "do") { before_expr = true; starts_expr = true; is_loop = true }
type_of kw_continue = record (kw "continue") { starts_stmt = true }
type_of kw_break = record (kw "break") { starts_stmt = true }
type_of kw_return = record (kw "return") { before_expr = true; starts_stmt = true }
type_of kw_of = record (kw "of") { before_expr = true }
type_of kw_throw = record (kw "throw") { before_expr = true; starts_stmt = true }
type_of kw_try = record (kw "try") { starts_stmt = true }
type_of kw_catch = kw "catch"
type_of kw_finally = kw "finally"
type_of kw_with = record (kw "with") {
  before_expr = true;
  continues_expr = true;
  starts_stmt = true;
}
type_of kw_new = record (kw "new") { before_expr = true; continues_expr = true; starts_expr = true }
type_of kw_yield = record (kw "yield") { before_expr = true; starts_expr = true }
type_of kw_await = record (kw "await") { before_expr = true; starts_expr = true }
type_of kw_static = record (kw "static") { continues_expr = true }
type_of kw_class = record (kw "class") { starts_stmt = true }
type_of kw_extends = record (kw "extends") { before_expr = true }
type_of kw_private = kw "private"
type_of kw_protected = kw "protected"
type_of kw_public = kw "public"
type_of kw_get = record (kw "get") { continues_expr = true }
type_of kw_set = record (kw "set") { continues_expr = true }
type_of kw_export = record (kw "export") { continues_expr = true }
type_of kw_import = record (kw "import") { continues_expr = true }
type_of kw_from = record (kw "from") { continues_expr = true }
type_of kw_as = record (kw "as") { continues_expr = true }
type_of kw_null = record (kw "null") { starts_expr = true }
type_of kw_true = record (kw "true") { starts_expr = true }
type_of kw_false = record (kw "false") { starts_expr = true }
type_of kw_this = record (kw "this") { starts_expr = true }
type_of kw_super = record (kw "super") { starts_expr = true }
type_of kw_debugger = record (kw "debugger") { starts_stmt = true }
type_of kw_pass = record (kw "pass") { starts_stmt = true }
type_of mapping_mark = token_type "mappingMark"
