-- ===== src/Context.antt =====
-- packages/horchata/src/lexer/context.js and context-types.js: the stack of token contexts by which
-- the lexer tells a regular expression from a division. The head of `context` is the array's last
-- element. `none` is the TypeError of a read from an `undefined` context.
pub mod Stack
pub mod Meta
use tacoscript.Prelude.{
  Bool, true, false, not, ◌&&◌, Option, none, some, List, [], ◌∷◌, if◌then◌else◌,
}
use tacoscript.Token.{
  TokType, eof, dot, indent, dedent, brace_l, brace_r, paren_l, paren_r, dollar_brace_l, back_quote,
  excl, inc_dec, kw_let, kw_const, kw_var, kw_return, kw_then, kw_if, kw_for, kw_while, kw_function,
}
use tacoscript.Token.Conf.{type_of}

-- `types` of context-types.js
pub data TokContext : Type 0 where
  stmt decl_expr return_expr obj_expr tmpl_expr stmt_head paren_expr tmpl_str func_expr : TokContext

unfoldable pub is_expr : TokContext → Bool
is_expr stmt = false
is_expr stmt_head = false
is_expr _ = true

-- only in a template's text
unfoldable pub preserve_space : TokContext → Bool
preserve_space tmpl_str = true
preserve_space _ = false

-- The fields of `State` that a context update reads or writes. `lexer_expr_allowed` is the property
-- `exprAllowed` of the lexer itself, which two of the updates write in place of the state's.
pub record ContextState : Type 0 where
  pub context : List TokContext
  pub expr_allowed : Bool
  pub in_for_header_init : Bool
  pub lexer_expr_allowed : Option Bool

-- `initialContext`, with the flags that `State.init` sets
abbrev pub initial : ContextState
initial = record {
  context = stmt ∷ [];
  expr_allowed = true;
  in_for_header_init = false;
  lexer_expr_allowed = none;
}

abbrev pub push : TokContext → ContextState → ContextState
push c s = record s { context = c ∷ s.context }

-- `tail` of the stack; `pop` of an empty array leaves it empty
abbrev pub popped : List TokContext → List TokContext
popped [] = []
popped (c ∷ cs) = cs

abbrev pub pop : ContextState → ContextState
pop s = record s { context = popped s.context }

abbrev pub allow : Bool → ContextState → ContextState
allow b s = record s { expr_allowed = b }

-- `curContext() === types.c`
abbrev pub at_stmt_head : List TokContext → Bool
at_stmt_head (stmt_head ∷ _) = true
at_stmt_head _ = false

abbrev pub at_tmpl_str : List TokContext → Bool
at_tmpl_str (tmpl_str ∷ _) = true
at_tmpl_str _ = false

abbrev pub at_stmt : List TokContext → Bool
at_stmt (stmt ∷ _) = true
at_stmt _ = false

-- `tt.indent.updateContext`
update_indent : TokType → ContextState → ContextState
update_indent kw_let s = push decl_expr s
update_indent kw_const s = push decl_expr s
update_indent kw_var s = push decl_expr s
update_indent kw_return s = push return_expr s
update_indent _ s = push stmt (
    allow false
      (if at_stmt_head s.context then record (pop s) { in_for_header_init = false } else s))

-- `tt.excl.updateContext`
update_excl : TokType → ContextState → ContextState
update_excl kw_if s = allow true (pop s)
update_excl _ s = allow true s

-- `tt.braceR.updateContext`
update_brace_r : List TokContext → ContextState → Option ContextState
update_brace_r [] s = none
update_brace_r (c ∷ []) s = some (allow true s)
update_brace_r (tmpl_expr ∷ cs) s = some (allow true (pop s))
update_brace_r (out ∷ cs) s = some (allow (not (is_expr out)) (pop s))

-- `tt.parenR.updateContext`
update_paren_r : List TokContext → ContextState → ContextState
update_paren_r (c ∷ []) s = allow true s
update_paren_r _ s = allow (type_of paren_r).before_expr (pop s)

-- `tt.dedent.updateContext`
update_dedent : List TokContext → ContextState → Option ContextState
update_dedent [] s = none
update_dedent (c ∷ []) s = some (allow true s)
update_dedent (stmt ∷ func_expr ∷ cs) s = some (allow false (pop (pop s)))
update_dedent (out ∷ cs) s = some (allow (not (is_expr out)) (pop s))

-- `type.updateContext`, and the default where a type has none
unfoldable pub update_by_type : TokType → TokType → ContextState → Option ContextState
unfolding update_indent update_excl update_brace_r update_paren_r update_dedent is_expr type_of
update_by_type indent prev s = some (update_indent prev s)
update_by_type kw_then prev s = some (record (if at_stmt_head s.context then pop s else s) {
  in_for_header_init = false;
  expr_allowed = (type_of kw_then).before_expr;
})
update_by_type brace_l prev s = some (allow (type_of brace_l).before_expr (push obj_expr s))
update_by_type dollar_brace_l prev s =
    some (allow (type_of dollar_brace_l).before_expr (push tmpl_expr s))
update_by_type kw_if prev s = some (allow (type_of kw_if).before_expr (push stmt_head s))
update_by_type kw_for prev s =
    some
      (allow (type_of kw_for).before_expr (push stmt_head (record s { in_for_header_init = true })))
update_by_type kw_while prev s = some (
    allow (type_of kw_while).before_expr
      (if s.in_for_header_init then record s { in_for_header_init = false } else push stmt_head s))
update_by_type excl prev s = some (update_excl prev s)
update_by_type paren_l prev s = some (allow (type_of paren_l).before_expr (push paren_expr s))
update_by_type inc_dec prev s = some s
update_by_type kw_function prev s =
    some (record (if at_stmt s.context then s else push func_expr s) {
      lexer_expr_allowed = some (type_of kw_function).before_expr;
    })
update_by_type back_quote prev s =
    some (record (if at_tmpl_str s.context then pop s else push tmpl_str s) {
      lexer_expr_allowed = some (type_of back_quote).before_expr;
    })
update_by_type brace_r prev s = update_brace_r s.context s
update_by_type paren_r prev s = some (update_paren_r s.context s)
update_by_type dedent prev s = update_dedent s.context s
update_by_type t prev s = some (allow (type_of t).before_expr s)

-- `type.keyword && prevType == tt.dot`
abbrev pub is_meta : TokType → TokType → Bool
is_meta t dot = elim (type_of t).keyword [ some _ ↦ true | none ↦ false ]
is_meta t _ = false

-- `updateContext(type, prevType)`
unfoldable pub update_context : TokType → TokType → ContextState → Option ContextState
unfolding update_by_type
update_context t prev s = if is_meta t prev then some (allow false s) else update_by_type t prev s

-- The updates of a sequence of finished tokens, the type before them given.
unfoldable pub update_contexts : TokType → List TokType → ContextState → Option ContextState
update_contexts prev [] s = some s
update_contexts prev (t ∷ ts) s = elim (update_context t prev s) [
  | none ↦ none
  | some s' ↦ update_contexts t ts s'
]
