-- ===== src/Examples/Layout.antt =====
-- Runs of the model at concrete inputs: indentation, parentheses and the printer's buffer.
use tacoscript.Prelude.{
  ◌+◌, ◌*◌, ◌≡◌, ◌≢◌, refl, true, false, not, ◌==◌, Option, none, some, [], ◌∷◌,
}
use tacoscript.Token.{name, kw_if, whitespace}
use tacoscript.Token.Key.{◌===◌}
use tacoscript.Token.Conf.{type_of}
use tacoscript.Text.{Chars}
use tacoscript.Reader.{out_of_fuel}
use tacoscript.Indentation.{
  IndentState, has_indentation_changed, find_indentation, scan_loop, known_round, measure, is_space,
  is_comment_start,
}
use tacoscript.Indentation.Fuel.{has_indentation_changed-ne-out_of_fuel}
use tacoscript.Indentation.Levels.{AllAt, has_indentation_changed-level}
use tacoscript.Parens.{
  NodeType, binary_expression, call_expression, expression_statement, other_node,
  variable_declarator, callee, expression, other_key, Op, in_, other_callee, Node, NodePath, root,
  child,
}
use tacoscript.Parens.Rules.{binary_expression_parens, needs_parens}
use tacoscript.Parens.First.{needs_parens_in}
use tacoscript.Printer.{no_value, text, code, PrintToken, is_keyword_type}
use tacoscript.Printer.Buffer.{Buffer, token, new_buffer, push, do_indent, last, last_of}
use tacoscript.Printer.Balance.{Balanced, indenting, start, step, Reachable-Balanced}
use tacoscript.Printer.Separation.{is_word, push-words}

-- A state in which two spaces are one level, at a line break, at level 1.
abbrev two_spaces : IndentState
two_spaces = record {
  pos = 0;
  in_module = true;
  eol = false;
  eol_pos = 0;
  indentation = 1;
  next_indentation = 1;
  indent_string = some (32 ∷ 32 ∷ []);
  indent_char_code = some 32;
  indent_repeat = 2;
  indent_start = 0;
  indent_end = 0;
  format = none;
}

abbrev deeper : Chars
deeper = 10 ∷ 32 ∷ 32 ∷ 32 ∷ 32 ∷ 97 ∷ []

abbrev after_deeper : IndentState
after_deeper = record two_spaces {
  eol = true;
  indent_start = 1;
  indent_end = 5;
  next_indentation = 2;
}

has_indentation_changed-level_example :
    (5 ≡ 1 + 2 * 2) × AllAt deeper 32 1 (2 * 2) × (true ≡ not (2 == 1))
unfolding has_indentation_changed find_indentation scan_loop known_round measure is_space
    is_comment_start
has_indentation_changed-level_example =
    has_indentation_changed-level deeper 10 1 32 two_spaces after_deeper true refl refl

has_indentation_changed-ne-out_of_fuel_example :
    has_indentation_changed deeper 10 1 two_spaces ≢ out_of_fuel
has_indentation_changed-ne-out_of_fuel_example =
    has_indentation_changed-ne-out_of_fuel deeper 10 1 two_spaces

abbrev node : NodeType → Option Op → Node
node t o = record { type = t; operator = o; left_is_object_pattern = false; shape = other_callee }

-- The callee of a call that is a statement.
abbrev statement_callee : NodePath
statement_callee =
    child (node other_node none) callee
      (child (node call_expression none) expression (root (node expression_statement none)))

abbrev declared_in : NodePath
declared_in =
    child (node binary_expression (some in_)) other_key (root (node variable_declarator none))

needs_parens_in_example :
    (binary_expression_parens declared_in ≡ true) × (needs_parens declared_in ≡ some false)
needs_parens_in_example =
    needs_parens_in false other_callee other_key (root (node variable_declarator none))
      variable_declarator refl refl

abbrev a_name : PrintToken
a_name = token name (text (97 ∷ []))

-- A buffer with one name.
abbrev one_name : Buffer
one_name = record (new_buffer true) { tokens = a_name ∷ [] }

push-words_example :
    push (token kw_if no_value) one_name
    ≡ some (record one_name {
      tokens = token kw_if no_value ∷ token whitespace (code (32 ∷ [])) ∷ a_name ∷ [];
      cache = none;
      cur_line = 1 + 0;
    })
unfolding last last_of is_word is_keyword_type ◌===◌ type_of
push-words_example = push-words a_name (token kw_if no_value) one_name refl refl refl

Reachable-Balanced_example : Balanced (do_indent (new_buffer false))
Reachable-Balanced_example =
    Reachable-Balanced false (do_indent (new_buffer false)) (step start indenting)
