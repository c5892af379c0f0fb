-- ===== src/Examples/Attach.antt =====
-- A run of the attachment of comments: a program with two statements.
use tacoscript.Prelude.{
  ℕ, zero, suc, ◌≡◌, ◌≢◌, refl, Bool, true, false, none, some, List, [], ◌∷◌, if◌then◌else◌, arith,
}
use tacoscript.Text.{Chars}
use tacoscript.Token.Keyword.{same_text}
use tacoscript.Reader.{Result, ok, out_of_fuel}
use tacoscript.Comments.{
  Comment, comment_line, no_element, comment_body, Element, Field, missing, many, program,
  other_type, Node, Store, set_node, count_while, assign_comments, claim, element_at, dereference,
  count_up, assign_to, descend, follow, enter, walk_elements, settle_rest, start_walk, walk_node,
  traverse,
}
use tacoscript.Comments.Parts.{Parts, assign_comments-Parts}
use tacoscript.Comments.Visits.{FieldBelow, bare, Descends, traverse-ne-out_of_fuel, traverse-bare}

-- `# a`, then a statement, then one with `# c` in it, and `# b` behind them.
abbrev comment_a : Comment
comment_a = record { comment_type = comment_line; start = 0; line = 1 }

abbrev comment_b : Comment
comment_b = record { comment_type = comment_line; start = 30; line = 5 }

abbrev comment_c : Comment
comment_c = record { comment_type = comment_line; start = 22; line = 3 }

abbrev comments : List Comment
comments = comment_a ∷ comment_b ∷ comment_c ∷ []

abbrev body : Chars
body = 98 ∷ 111 ∷ []

abbrev comment_element : ℕ → Element
comment_element i = record { element = comment_body; index = i; reference = none }

abbrev child_element : Element
child_element = record {
  element = no_element;
  index = 0;
  reference = some (record { key = body; next = true });
}

abbrev body_of : Field → Chars → Field
body_of f key = if same_text key body then f else missing

abbrev root : Node
root = record {
  node_type = program;
  start = 4;
  end_line = 5;
  leading = [];
  inner = [];
  trailing = [];
  source_elements =
      some (comment_element 0 ∷ child_element ∷ child_element ∷ comment_element 1 ∷ []);
  fields = body_of (many (some 1 ∷ some 2 ∷ []));
}

abbrev statement : ℕ → ℕ → List Element → Node
statement start end_line es = record {
  node_type = other_type;
  start = start;
  end_line = end_line;
  leading = [];
  inner = [];
  trailing = [];
  source_elements = some es;
  fields = λ _. missing;
}

abbrev tree : Store
tree zero = root
tree (suc zero) = statement 4 2 []
tree _ = statement 20 4 (comment_element 2 ∷ [])

abbrev rank : ℕ → ℕ
rank zero = 1
rank _ = 0

abbrev store_of : Result Store → Store
store_of (ok s) = s
store_of _ = tree

abbrev attached : Store
attached = store_of (traverse comments 2 0 tree)

-- The comment before the first statement is its leading one. That in the second statement becomes
-- its trailing one, and is lost when the last comment of the program takes its place.
attached_comments :
    ((attached 1).leading ≡ some comment_a ∷ [])
    × ((attached 2).inner ≡ [])
    × ((attached 2).leading ≡ [])
    × ((attached 2).trailing ≡ some comment_b ∷ [])
unfolding traverse walk_node walk_elements enter follow descend assign_to dereference count_up claim
    element_at settle_rest start_walk set_node assign_comments count_while
attached_comments = (refl, refl, refl, refl)

attached_ok : traverse comments 2 0 tree ≡ ok attached
unfolding traverse walk_node walk_elements enter follow descend assign_to dereference count_up claim
    element_at settle_rest start_walk set_node assign_comments count_while
attached_ok = refl

tree-Descends : Descends rank tree
tree-Descends zero key = by_key (same_text key body)
  where
    by_key : (b : Bool) → FieldBelow rank 1 (if b then many (some 1 ∷ some 2 ∷ []) else missing)
    by_key true = (omega arith, (omega arith, tt))
    by_key false = tt
tree-Descends (suc zero) key = tt
tree-Descends (suc (suc i)) key = tt

assign_comments-Parts_example :
    Parts
      (tree 1)
      (comment_a ∷ comment_c ∷ [])
      (assign_comments (tree 1) (some comment_a ∷ some comment_c ∷ []))
assign_comments-Parts_example = assign_comments-Parts (tree 1) (comment_a ∷ comment_c ∷ [])

traverse-ne-out_of_fuel_example : traverse comments 2 0 tree ≢ out_of_fuel
traverse-ne-out_of_fuel_example =
    traverse-ne-out_of_fuel comments rank tree tree-Descends 2 0 (omega arith)

traverse-bare_example : bare (attached 1) ≡ bare (tree 1)
traverse-bare_example =
    traverse-bare comments rank tree tree-Descends 2 0 (omega arith) attached attached_ok 1
