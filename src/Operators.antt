-- ===== src/Operators.antt =====
-- The operator precedence parser of packages/horchata/src/parser/types/expressions.js, with the check
-- of validation.js that it calls. What reads an operand is a parameter.
pub mod Order
pub mod RoundTrip
pub mod Sound
pub mod Unary
use tacoscript.Prelude.{
  ℕ, zero, suc, ◌+◌, ◌-◌, Bool, true, false, not, ◌&&◌, Option, none, some, List, [], ◌∷◌, ◌++◌,
  if◌then◌else◌, ltb, length,
}
use tacoscript.Token.{TokType, kw_in, exponent}
use tacoscript.Token.Conf.{type_of}
use tacoscript.Token.Key.{◌===◌}
use tacoscript.Text.{Chars}
use tacoscript.Reader.{Result, ok, raise, out_of_fuel, ◌>>=◌, illegal_exponentiation}

-- A token that the parser looks at; a list ends with the `eof` token, which is no operator.
pub record Tok : Type 0 where
  pub type : TokType
  pub value : Chars

-- A tree of operators: the node of `operator`, with its left and its right.
pub data Expr (Operand : Type 0) : Type 0 where
  operand : Operand → Expr Operand
  binary : Tok → Expr Operand → Expr Operand → Expr Operand

-- The node's type, `op.binopExpressionName`.
pub data NodeName : Type 0 where
  binary_expression logical_expression : NodeName

unfoldable pub node_name : Tok → NodeName
node_name t = if (type_of t.type).is_logical then logical_expression else binary_expression

-- `prec > minPrec`, where `none` is the least precedence, -1
abbrev pub above : Option ℕ → Option ℕ → Bool
above none min_prec = false
above (some p) none = true
above (some p) (some q) = ltb q p

-- `type.binop`, unless the token is an `in` where these end the expression
unfoldable pub prec : Bool → Tok → Option ℕ
prec is_for t = if is_for && (t.type === kw_in) then none else (type_of t.type).binop

-- The condition of `parseExpressionOperator`.
abbrev pub goes_on : Bool → Option ℕ → Tok → Bool
goes_on is_for min_prec t = above (prec is_for t) min_prec

-- `op.rightAssociative ? prec - 1 : prec`
abbrev pub min_of : Bool → Option ℕ → Option ℕ
min_of right none = none
min_of right (some p) = some (if right then p - 1 else p)

abbrev pub right_min : Bool → Tok → Option ℕ
right_min is_for t = min_of (type_of t.type).right_associative (prec is_for t)

-- What the parser calls for an operand: `parseExpressionMaybeUnary`, from the tokens to the operand
-- and the tokens behind it. It reads the first operand in the context of the expression, and tells
-- whether `shorthandDefaultPos.start` of that is set behind it; the others are read without a
-- context. `is_bare_unary` says of an operand that it is a `UnaryExpression` with an `extra`
-- that has no `parenthesizedArgument`.
pub record Operands : Type 1 where
  pub Operand : Type 0
  pub read_first : List Tok → Result (Operand × Bool × List Tok)
  pub read : List Tok → Result (Operand × List Tok)
  pub is_bare_unary : Operand → Bool

module _ (o : Operands) (is_for : Bool) where
  -- The condition of `checkExpressionOperatorLeft`.
  abbrev pub is_illegal : Tok → Expr o.Operand → Bool
  is_illegal t (operand n) = (t.type === exponent) && o.is_bare_unary n
  is_illegal t (binary u l r) = false

  -- `parseExpressionOperator(node, start, minPrec)`, with fuel
  unfoldable pub parse_operator :
      ℕ → Option ℕ → Expr o.Operand → List Tok → Result (Expr o.Operand × List Tok)
  unfolding prec
  parse_operator zero min_prec node ts = out_of_fuel
  parse_operator (suc fuel) min_prec node [] = ok (node, [])
  parse_operator (suc fuel) min_prec node (t ∷ ts) =
      let rest =
        (o.read ts >>= λ (n, ts').
        parse_operator fuel (right_min is_for t) (operand n) ts' >>= λ (right, ts'').
        parse_operator fuel min_prec (binary t node right) ts'') in
      if goes_on is_for min_prec t
      then (if is_illegal t node then raise none illegal_exponentiation else rest)
      else ok (node, t ∷ ts)

  -- `parseExpressionOperators`
  unfoldable pub parse_operators : List Tok → Result (Expr o.Operand × List Tok)
  unfolding parse_operator
  parse_operators ts = o.read_first ts >>= λ (n, shorthand, ts').
      if shorthand
      then ok (operand n, ts')
      else parse_operator (length ts' + 1) none (operand n) ts'
