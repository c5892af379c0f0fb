-- ===== src/Operators/Unary.antt =====
-- Operands with prefix and postfix operators: `parseExpressionMaybeUnary`, `parseExpressionPrefix` and
-- `parseExpressionPostfix` of packages/horchata/src/parser/types/expressions.js. `checkAssignable` and
-- `checkUnaryExpression` do nothing there. What reads subscripts is a parameter.
pub mod Laws
pub mod Taken
use tacoscript.Prelude.{
  ℕ, Bool, true, false, not, ◌&&◌, Option, none, some, List, [], ◌∷◌, if◌then◌else◌, ◌==◌,
}
use tacoscript.Token.Conf.{type_of}
use tacoscript.Reader.{Result, ok, raise, ◌>>=◌, unexpected_token}
use tacoscript.Operators.{Tok, Operands}

-- `callType` of the context.
pub data CallType : Type 0 where
  no_call_type excl_call stmt_call paren_call : CallType

-- The context of an expression, without `isFor`, which is not looked at here: `shorthand` is the
-- `start` of `shorthandDefaultPos`, if there is one, where 0 is not set.
pub record ReadContext : Type 0 where
  pub call_type : CallType
  pub shorthand : Option ℕ

-- The context of an operand behind an operator: none, but for `callType` behind a prefix operator.
abbrev pub bare_context : CallType → ReadContext
bare_context c = record { call_type = c; shorthand = none }

-- `shorthandDefaultPos && shorthandDefaultPos.start`, with the `start` of now
abbrev pub is_set : Option ℕ → ℕ → Bool
is_set none start = false
is_set (some s) start = not (start == 0)

abbrev pub start_of : Option ℕ → ℕ
start_of none = 0
start_of (some s) = s

-- `parseExpressionSubscripts`, from the tokens to its node, the `start` of `shorthandDefaultPos`
-- behind it, and the tokens behind it. `is_bare_unary` says of a node that it is a
-- `UnaryExpression` with an `extra` that has no `parenthesizedArgument`.
pub record Subscripts : Type 1 where
  pub Base : Type 0
  pub read_subscripts : ReadContext → List Tok → Result (Base × ℕ × List Tok)
  pub is_bare_unary : Base → Bool

-- A node of a unary operator, with its argument.
pub data Unary (Base : Type 0) : Type 0 where
  base : Base → Unary Base
  prefixed : Tok → Unary Base → Unary Base
  postfixed : Tok → Unary Base → Unary Base

-- The loop of `parseExpressionPostfix`.
unfoldable pub parse_postfixes : {Base : Type 0} → Unary Base → List Tok → Unary Base × List Tok
parse_postfixes node [] = (node, [])
parse_postfixes node (t ∷ ts) =
    let rest = parse_postfixes (postfixed t node) ts in
    if (type_of t.type).postfix then rest else (node, t ∷ ts)

module _ (o : Subscripts) where
  -- What follows the subscripts, in the context.
  unfoldable pub behind_subscripts :
      ReadContext → o.Base × ℕ × List Tok → Result (Unary o.Base × ℕ × List Tok)
  behind_subscripts ctx (n, start, ts) =
      let (node, us) = parse_postfixes (base n) ts in
      if is_set ctx.shorthand start then ok (base n, start, ts) else ok (node, start, us)

  -- `parseExpressionPrefix`, behind its argument, which was read without the `shorthandDefaultPos`
  unfoldable pub finish_prefix :
      ReadContext → Tok → Unary o.Base × ℕ × List Tok → Result (Unary o.Base × ℕ × List Tok)
  finish_prefix ctx t (argument, _, us) =
      let start = start_of ctx.shorthand in
      if is_set ctx.shorthand start
      then raise (some start) unexpected_token
      else ok (prefixed t argument, start, us)

  unfoldable pub parse_maybe_unary : ReadContext → List Tok → Result (Unary o.Base × ℕ × List Tok)
  parse_maybe_unary ctx [] = o.read_subscripts ctx [] >>= behind_subscripts ctx
  parse_maybe_unary ctx (t ∷ ts) =
      let argument = parse_maybe_unary (bare_context ctx.call_type) ts in
      if (type_of t.type).prefix
      then (argument >>= finish_prefix ctx t)
      else (o.read_subscripts ctx (t ∷ ts) >>= behind_subscripts ctx)

  -- A node of a prefix operator has no `extra`.
  abbrev pub is_bare : Unary o.Base → Bool
  is_bare (base n) = o.is_bare_unary n
  is_bare (prefixed t u) = false
  is_bare (postfixed t u) = false

  -- The operands of the operator parser, of which the first is read in the given context.
  abbrev pub unary_operands : ReadContext → Operands
  unary_operands ctx = record {
    Operand = Unary o.Base;
    read_first =
        λ ts. parse_maybe_unary ctx ts >>= λ (n, start, us). ok (n, is_set ctx.shorthand start, us);
    read = λ ts. parse_maybe_unary (bare_context no_call_type) ts >>= λ (n, start, us). ok (n, us);
    is_bare_unary = is_bare;
  }

  -- The same in a context without `shorthandDefaultPos`.
  abbrev pub bare_operands : CallType → Operands
  bare_operands c = unary_operands (bare_context c)
