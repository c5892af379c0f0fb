-- ===== src/Token.antt =====
-- packages/horchata/src/lexer/types.js: the token types. A constructor is a key of `types`, in the
-- order of the source; a keyword's key `_if` is `kw_if`. `mapping_mark` is the type that
-- packages/tacotruck/src/printer/special-tokens.js adds.
pub mod Conf
pub mod Key
pub mod Keyword
use tacoscript.Prelude.{Bool, true, false}

pub data TokType : Type 0 where
  num regexp string name eof unknown tab indent dedent whitespace newline : TokType
  block_comment_start block_comment_body block_comment_end line_comment_start : TokType
  line_comment_body bracket_l bracket_r brace_l brace_r paren_l paren_r comma semi : TokType
  doublesemi colon double_colon dot question soak soak_bracket_l soak_paren_l : TokType
  interrobang arrow ellipsis template back_quote dollar_brace_l at excl eq assign : TokType
  inc_dec bitwise_not kw_not kw_or kw_and bitwise_or bitwise_xor bitwise_and kw_is : TokType
  kw_isnt kw_like kw_unlike equality relational kw_in kw_instanceof bit_shift : TokType
  plus_min modulo positive_modulo star slash exponent kw_typeof kw_void kw_delete : TokType
  kw_var kw_let kw_const kw_extern kw_function kw_then kw_if kw_else kw_switch : TokType
  kw_case kw_default kw_for kw_update kw_upto kw_downto kw_while kw_do kw_continue : TokType
  kw_break kw_return kw_of kw_throw kw_try kw_catch kw_finally kw_with kw_new : TokType
  kw_yield kw_await kw_static kw_class kw_extends kw_private kw_protected kw_public : TokType
  kw_get kw_set kw_export kw_import kw_from kw_as kw_null kw_true kw_false kw_this : TokType
  kw_super kw_debugger kw_pass mapping_mark : TokType

-- The types by which the lexer keeps the layout of the blocks.
abbrev pub is_layout : TokType → Bool
is_layout indent = true
is_layout dedent = true
is_layout newline = true
is_layout _ = false
