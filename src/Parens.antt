-- ===== src/Parens.antt =====
-- packages/alpastor/src/path: which expressions get parentheses when a tree is printed
-- (needs-parentheses.js), and how the rule of a node is found (index.js).
pub mod First
pub mod Rules
use tacoscript.Prelude.{
  ℕ, Bool, true, false, not, ◌&&◌, ◌||◌, Option, none, some, if◌then◌else◌, ltb, ◌==◌,
}

-- The types that the rules name; the others are `other_node`.
pub data NodeType : Type 0 where
  nullable_type_annotation function_type_annotation array_type_annotation : NodeType
  update_expression member_expression object_expression call_expression new_expression : NodeType
  unary_expression spread_element spread_property rest_property : NodeType
  binary_expression logical_expression variable_declarator : NodeType
  for_statement for_in_statement for_of_statement while_statement if_statement switch_statement :
      NodeType
  sequence_expression expression_statement return_statement throw_statement : NodeType
  yield_expression await_expression class_expression function_expression : NodeType
  arrow_function_expression conditional_expression assignment_expression : NodeType
  export_all_declaration export_default_declaration export_named_declaration other_node : NodeType

-- The field of the parent that holds the node. `first_of_expressions` is `expressions[0]`.
pub data Key : Type 0 where
  object callee left right test discriminant expression declaration body : Key
  first_of_expressions other_key : Key

-- The operators of the table.
pub data Op : Type 0 where
  or_or and_and bar caret amp eq_eq eq_eq_eq not_eq not_eq_eq lt gt lt_eq gt_eq in_ : Op
  instanceof_ shr shl ushr plus minus times over percent pow : Op

-- What `isOrHasCallExpression` looks at.
pub data Callee : Type 0 where
  call_node other_callee : Callee
  member : Callee → Bool → Callee → Callee

-- The fields of a node that the rules read: its operator, whether its left side is an
-- `ObjectPattern`, and its shape as a callee.
pub record Node : Type 0 where
  pub type : NodeType
  pub operator : Option Op
  pub left_is_object_pattern : Bool
  pub shape : Callee

-- A node with the way up to the root: its place in its parent, and the parent's path. A node stands
-- at one place of the tree, so that `parent.callee === node` is a question about the place.
pub data NodePath : Type 0 where
  root : Node → NodePath
  child : Node → Key → NodePath → NodePath

-- `PRECEDENCE`
unfoldable pub precedence : Op → ℕ
precedence or_or = 0
precedence and_and = 1
precedence bar = 2
precedence caret = 3
precedence amp = 4
precedence eq_eq = 5
precedence eq_eq_eq = 5
precedence not_eq = 5
precedence not_eq_eq = 5
precedence lt = 6
precedence gt = 6
precedence lt_eq = 6
precedence gt_eq = 6
precedence in_ = 6
precedence instanceof_ = 6
precedence shr = 7
precedence shl = 7
precedence ushr = 7
precedence plus = 8
precedence minus = 8
precedence times = 9
precedence over = 9
precedence percent = 9
precedence pow = 10

abbrev pub node_of : NodePath → Node
node_of (root n) = n
node_of (child n k p) = n

-- `t.isX(path.parent)`, false where there is no parent
abbrev pub parent_is : (NodeType → Bool) → NodePath → Bool
parent_is is_a (root n) = false
parent_is is_a (child n k p) = is_a (node_of p).type

-- `t.isX(parent) && parent.key === node`
abbrev pub is_at : (NodeType → Bool) → (Key → Bool) → NodePath → Bool
is_at is_a is_key (root n) = false
is_at is_a is_key (child n k p) = is_a (node_of p).type && is_key k

-- The tests of packages/comal-types; `is_binary`, `is_unary_like`, `is_for`, `is_conditional` and
-- `is_export` are those of an alias.
abbrev pub is_call : NodeType → Bool
is_call call_expression = true
is_call _ = false

abbrev pub is_new : NodeType → Bool
is_new new_expression = true
is_new _ = false

abbrev pub is_member : NodeType → Bool
is_member member_expression = true
is_member _ = false

abbrev pub is_unary_like : NodeType → Bool
is_unary_like unary_expression = true
is_unary_like spread_element = true
is_unary_like spread_property = true
is_unary_like rest_property = true
is_unary_like _ = false

abbrev pub is_unary : NodeType → Bool
is_unary unary_expression = true
is_unary _ = false

abbrev pub is_binary : NodeType → Bool
is_binary binary_expression = true
is_binary logical_expression = true
is_binary _ = false

abbrev pub is_logical : NodeType → Bool
is_logical logical_expression = true
is_logical _ = false

abbrev pub is_binary_expression : NodeType → Bool
is_binary_expression binary_expression = true
is_binary_expression _ = false

abbrev pub is_for : NodeType → Bool
is_for for_statement = true
is_for for_in_statement = true
is_for for_of_statement = true
is_for _ = false

abbrev pub is_for_statement : NodeType → Bool
is_for_statement for_statement = true
is_for_statement _ = false

abbrev pub is_for_in : NodeType → Bool
is_for_in for_in_statement = true
is_for_in _ = false

abbrev pub is_export : NodeType → Bool
is_export export_all_declaration = true
is_export export_default_declaration = true
is_export export_named_declaration = true
is_export _ = false

abbrev pub is_export_default : NodeType → Bool
is_export_default export_default_declaration = true
is_export_default _ = false

abbrev pub is_array_type : NodeType → Bool
is_array_type array_type_annotation = true
is_array_type _ = false

abbrev pub is_declarator : NodeType → Bool
is_declarator variable_declarator = true
is_declarator _ = false

abbrev pub is_expression_statement : NodeType → Bool
is_expression_statement expression_statement = true
is_expression_statement _ = false

abbrev pub is_return : NodeType → Bool
is_return return_statement = true
is_return _ = false

abbrev pub is_throw : NodeType → Bool
is_throw throw_statement = true
is_throw _ = false

abbrev pub is_switch : NodeType → Bool
is_switch switch_statement = true
is_switch _ = false

abbrev pub is_while : NodeType → Bool
is_while while_statement = true
is_while _ = false

abbrev pub is_if : NodeType → Bool
is_if if_statement = true
is_if _ = false

abbrev pub is_conditional : NodeType → Bool
is_conditional conditional_expression = true
is_conditional if_statement = true
is_conditional _ = false

abbrev pub is_conditional_expression : NodeType → Bool
is_conditional_expression conditional_expression = true
is_conditional_expression _ = false

abbrev pub is_arrow : NodeType → Bool
is_arrow arrow_function_expression = true
is_arrow _ = false

abbrev pub is_sequence : NodeType → Bool
is_sequence sequence_expression = true
is_sequence _ = false

abbrev pub is_assignment : NodeType → Bool
is_assignment assignment_expression = true
is_assignment _ = false

abbrev pub in_object : Key → Bool
in_object object = true
in_object _ = false

abbrev pub in_callee : Key → Bool
in_callee callee = true
in_callee _ = false

abbrev pub in_left : Key → Bool
in_left left = true
in_left _ = false

abbrev pub in_right : Key → Bool
in_right right = true
in_right _ = false

abbrev pub in_test : Key → Bool
in_test test = true
in_test _ = false

abbrev pub in_discriminant : Key → Bool
in_discriminant discriminant = true
in_discriminant _ = false

abbrev pub in_expression : Key → Bool
in_expression expression = true
in_expression _ = false

abbrev pub in_declaration : Key → Bool
in_declaration declaration = true
in_declaration _ = false

abbrev pub in_body : Key → Bool
in_body body = true
in_body _ = false

abbrev pub in_first_of_expressions : Key → Bool
in_first_of_expressions first_of_expressions = true
in_first_of_expressions _ = false
