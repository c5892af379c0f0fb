-- ===== src/Parens/Rules.antt =====
-- The rules of packages/alpastor/src/path/needs-parentheses.js, and `needsParens` of index.js there.
use tacoscript.Prelude.{
  ℕ, Bool, true, false, not, ◌&&◌, ◌||◌, Option, none, some, if◌then◌else◌, ltb, ◌==◌,
}
use tacoscript.Parens.{
  NodeType, nullable_type_annotation, function_type_annotation, update_expression,
  object_expression, unary_expression, spread_element, spread_property, rest_property,
  binary_expression, logical_expression, sequence_expression, yield_expression, await_expression,
  class_expression, function_expression, arrow_function_expression, conditional_expression,
  assignment_expression, Op, in_, Callee, call_node, other_callee, member, NodePath, root, child,
  precedence, node_of, parent_is, is_at, is_call, is_new, is_member, is_unary_like, is_unary,
  is_binary, is_logical, is_binary_expression, is_for, is_for_statement, is_for_in, is_export,
  is_export_default, is_array_type, is_declarator, is_expression_statement, is_return, is_throw,
  is_switch, is_while, is_if, is_conditional, is_conditional_expression, is_arrow, is_sequence,
  is_assignment, in_object, in_callee, in_left, in_right, in_test, in_discriminant, in_expression,
  in_declaration, in_body, in_first_of_expressions,
}

-- The test under which the loop goes up: a place whose text is at the front of its parent's
abbrev pub leads : NodePath → Bool
leads p =
    is_at is_call in_callee p
    || is_at is_sequence in_first_of_expressions p
    || is_at is_member in_object p
    || is_at is_conditional in_test p
    || is_at is_binary in_left p
    || is_at is_assignment in_left p

-- `isFirstInStatement(path, {considerArrow, considerDefaultExports})`: the loop goes up the path.
unfoldable pub is_first_in_statement : Bool → Bool → NodePath → Bool
is_first_in_statement arrow exports (root n) = false
is_first_in_statement arrow exports (child n k p) =
    let up = is_first_in_statement arrow exports p in
    let here = child n k p in
    if is_at is_expression_statement in_expression here
    then true
    else if exports && is_at is_export_default in_declaration here
    then true
    else if arrow && is_at is_arrow in_body here
    then true
    else if leads here
    then up
    else false

-- `PRECEDENCE[operator]`, where `none` is `undefined`
abbrev precedence? : Option Op → Option ℕ
precedence? none = none
precedence? (some o) = some (precedence o)

-- `a > b` and `a === b` on such values
abbrev above : Option ℕ → Option ℕ → Bool
above (some a) (some b) = ltb b a
above _ _ = false

abbrev same : Option ℕ → Option ℕ → Bool
same (some a) (some b) = a == b
same none none = true
same _ _ = false

abbrev pub parent_operator : NodePath → Option Op
parent_operator (root n) = none
parent_operator (child n k p) = (node_of p).operator

-- `NullableTypeAnnotation` and `FunctionTypeAnnotation`
unfoldable pub nullable_type_parens : NodePath → Bool
nullable_type_parens p = parent_is is_array_type p

unfoldable pub update_parens : NodePath → Bool
update_parens p = is_at is_member in_object p

unfoldable pub object_parens : NodePath → Bool
unfolding is_first_in_statement
object_parens p = is_first_in_statement true false p

-- `Binary`
unfoldable pub binary_parens : NodePath → Bool
unfolding precedence
binary_parens p =
    let parent_pos = precedence? (parent_operator p) in
    let node_pos = precedence? (node_of p).operator in
    if is_at is_call in_callee p || is_at is_new in_callee p
    then true
    else if parent_is is_unary_like p
    then true
    else if is_at is_member in_object p
    then true
    else if parent_is is_binary p
    then (if above parent_pos node_pos
        then true
        else same parent_pos node_pos && is_at is_binary in_right p && not (parent_is is_logical p))
    else false

-- `node.operator === "in"`
abbrev is_in : Option Op → Bool
is_in (some in_) = true
is_in _ = false

-- `BinaryExpression`
unfoldable pub binary_expression_parens : NodePath → Bool
binary_expression_parens p =
    is_in (node_of p).operator && (parent_is is_declarator p || parent_is is_for p)

unfoldable pub sequence_parens : NodePath → Bool
sequence_parens p =
    if parent_is is_for_statement p
    then false
    else if is_at is_expression_statement in_expression p
    then false
    else if parent_is is_return p
    then false
    else if parent_is is_throw p
    then false
    else if is_at is_switch in_discriminant p
    then false
    else if is_at is_while in_test p
    then false
    else if is_at is_if in_test p
    then false
    else not (is_at is_for_in in_right p)

-- `YieldExpression` and `AwaitExpression`
unfoldable pub yield_parens : NodePath → Bool
yield_parens p =
    parent_is is_binary p
    || parent_is is_unary_like p
    || parent_is is_call p
    || parent_is is_member p
    || parent_is is_new p

-- `ClassExpression` and `FunctionExpression`
unfoldable pub class_parens : NodePath → Bool
unfolding is_first_in_statement
class_parens p = is_first_in_statement false true p

unfoldable pub unary_like_parens : NodePath → Bool
unary_like_parens p =
    if is_at is_member in_object p
    then true
    else is_at is_call in_callee p || is_at is_new in_callee p

unfoldable pub arrow_parens : NodePath → Bool
unfolding unary_like_parens
arrow_parens p =
    if parent_is is_export p
    then true
    else if parent_is is_binary_expression p || parent_is is_logical p
    then true
    else if parent_is is_unary p
    then true
    else unary_like_parens p

unfoldable pub conditional_parens : NodePath → Bool
unfolding unary_like_parens
conditional_parens p =
    if parent_is is_unary_like p
    then true
    else if parent_is is_binary p
    then true
    else if is_at is_conditional_expression in_test p
    then true
    else unary_like_parens p

unfoldable pub assignment_parens : NodePath → Bool
unfolding conditional_parens
assignment_parens p = if (node_of p).left_is_object_pattern then true else conditional_parens p

-- `result == null ? func(...) : result`: the second rule of a type that has two
abbrev pub and_then_rule : Option Bool → Option Bool → Option Bool
and_then_rule none second = second
and_then_rule (some b) second = some b

-- `expandedParens`: each type with the rule of its name or of its alias. `BinaryExpression` has the
-- rule of the alias `Binary`, and then its own.
unfoldable pub find : NodePath → Option Bool
unfolding nullable_type_parens update_parens object_parens binary_parens binary_expression_parens
    sequence_parens yield_parens class_parens unary_like_parens arrow_parens conditional_parens
    assignment_parens
find p = by_type (node_of p).type
  where
    by_type : NodeType → Option Bool
    by_type nullable_type_annotation = some (nullable_type_parens p)
    by_type function_type_annotation = some (nullable_type_parens p)
    by_type update_expression = some (update_parens p)
    by_type object_expression = some (object_parens p)
    by_type binary_expression =
        and_then_rule (some (binary_parens p)) (some (binary_expression_parens p))
    by_type logical_expression = some (binary_parens p)
    by_type sequence_expression = some (sequence_parens p)
    by_type yield_expression = some (yield_parens p)
    by_type await_expression = some (yield_parens p)
    by_type class_expression = some (class_parens p)
    by_type function_expression = some (class_parens p)
    by_type unary_expression = some (unary_like_parens p)
    by_type spread_element = some (unary_like_parens p)
    by_type spread_property = some (unary_like_parens p)
    by_type rest_property = some (unary_like_parens p)
    by_type arrow_function_expression = some (arrow_parens p)
    by_type conditional_expression = some (conditional_parens p)
    by_type assignment_expression = some (assignment_parens p)
    by_type _ = none

-- `isOrHasCallExpression`
unfoldable pub is_or_has_call_expression : Callee → Bool
is_or_has_call_expression call_node = true
is_or_has_call_expression (member object computed property) =
    is_or_has_call_expression object || not computed && is_or_has_call_expression property
is_or_has_call_expression other_callee = false

-- `needsParens`; `none` is the null that `find` returns for a type without a rule
unfoldable pub needs_parens : NodePath → Option Bool
unfolding find is_or_has_call_expression
needs_parens (root n) = some false
needs_parens (child n k p) =
    if is_at is_new in_callee (child n k p) && is_or_has_call_expression n.shape
    then some true
    else find (child n k p)
