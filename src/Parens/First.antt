-- ===== src/Parens/First.antt =====
-- What the loop `isFirstInStatement` decides, and the rule of `in` that is never reached.
use tacoscript.Prelude.{◌≡◌, refl, Bool, true, false, ◌&&◌, ◌||◌, some, if◌then◌else◌}
use tacoscript.Parens.{
  NodeType, binary_expression, variable_declarator, for_statement, for_in_statement,
  for_of_statement, call_expression, sequence_expression, member_expression, conditional_expression,
  if_statement, logical_expression, assignment_expression, expression_statement,
  export_default_declaration, arrow_function_expression, Callee, Key, callee, first_of_expressions,
  object, test, left, expression, declaration, body, in_, Node, NodePath, root, child, node_of,
  is_declarator, is_for,
}
use tacoscript.Parens.Rules.{find, needs_parens, binary_parens, binary_expression_parens}

-- Where a node's text is at the front of its parent's, by the parent's type and the field.
pub data FrontPlace : NodeType → Key → Type 0 where
  of_call : FrontPlace call_expression callee
  of_sequence : FrontPlace sequence_expression first_of_expressions
  of_member : FrontPlace member_expression object
  of_conditional : FrontPlace conditional_expression test
  of_if : FrontPlace if_statement test
  of_binary : FrontPlace binary_expression left
  of_logical : FrontPlace logical_expression left
  of_assignment : FrontPlace assignment_expression left

-- Where a text begins that must not begin like a block, a function or a class.
pub data StartPlace (arrow exports : Bool) : NodeType → Key → Type 0 where
  of_statement : StartPlace arrow exports expression_statement expression
  of_export : exports ≡ true → StartPlace arrow exports export_default_declaration declaration
  of_arrow : arrow ≡ true → StartPlace arrow exports arrow_function_expression body

-- The node stands in a place where a text begins, or at the front of a node that does so.
pub data Begins (arrow exports : Bool) : NodePath → Type 0 where
  start :
      {n : Node} {k : Key} {p : NodePath}
      → StartPlace arrow exports (node_of p).type k
      → Begins arrow exports (child n k p)
  front :
      {n : Node} {k : Key} {p : NodePath}
      → FrontPlace (node_of p).type k
      → Begins arrow exports p
      → Begins arrow exports (child n k p)

module _ (n : Node) where
  -- A node in a field of a node of the type.
  abbrev placed : NodeType → Key → NodePath
  placed t k = child n k (root (record n { type = t }))

module _ (s e d a b l up : Bool) where
  abbrev chain : Bool
  chain =
      if s then true else if e && d then true else if a && b then true else if l then up else false

-- For every `in` expression that initialises a declarator or stands in the head of a `for` loop,
-- the rule written for that place asks for parentheses and `needsParens` answers false.
pub needs_parens_in :
    (pattern : Bool) (shape : Callee) (k : Key) (up : NodePath) (t : NodeType)
    → (node_of up).type ≡ t
    → (is_declarator t || is_for t) ≡ true
    → let p =
        child
          (record {
            type = binary_expression;
            operator = some in_;
            left_is_object_pattern = pattern;
            shape = shape;
          })
          k
          up in
      (binary_expression_parens p ≡ true) × (needs_parens p ≡ some false)
unfolding needs_parens find binary_expression_parens binary_parens
needs_parens_in pattern shape k up variable_declarator e h = rw e (refl, refl)
needs_parens_in pattern shape k up for_statement e h = rw e (refl, refl)
needs_parens_in pattern shape k up for_in_statement e h = rw e (refl, refl)
needs_parens_in pattern shape k up for_of_statement e h = rw e (refl, refl)
needs_parens_in pattern shape k up _ e h = absurd cc
