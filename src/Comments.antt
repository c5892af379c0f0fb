-- ===== src/Comments.antt =====
-- The attachment of comments to the nodes of a tree: packages/horchata/src/postprocessors/comments.js.
-- Nodes are numbered, so that a store of nodes stands for the shared objects: a store gives the node of
-- each number, and an assignment to a node's field makes a new store.
pub mod Parts
pub mod Visits
use tacoscript.Prelude.{
  ℕ, zero, suc, ◌+◌, ◌-◌, Bool, true, false, not, ◌&&◌, Option, none, some, List, [], ◌∷◌, ◌++◌,
  if◌then◌else◌, ltb, leb, ◌==◌, length, take, drop, get_elem?,
}
use tacoscript.Text.{Chars}
use tacoscript.Token.Keyword.{same_text}
use tacoscript.Reader.{Result, ok, type_error, out_of_fuel, ◌>>=◌}

pub data CommentType : Type 0 where
  comment_line comment_block : CommentType

-- A comment: its type, `start`, and `loc.start.line`.
pub record Comment : Type 0 where
  pub comment_type : CommentType
  pub start : ℕ
  pub line : ℕ

-- `reference`, split at the `#`.
pub record Reference : Type 0 where
  pub key : Chars
  pub next : Bool

-- The `element` of a source element: none, "CommentBody", or another.
pub data ElementKind : Type 0 where
  no_element comment_body other_element : ElementKind

-- A source element; `index` is `extra.tokenValue.index`.
pub record Element : Type 0 where
  pub element : ElementKind
  pub index : ℕ
  pub reference : Option Reference

-- The field of a node: missing, another node, or an array, in which `none` is not a node.
pub data Field : Type 0 where
  missing : Field
  one : ℕ → Field
  many : List (Option ℕ) → Field

pub data NodeType : Type 0 where
  program other_type : NodeType

-- A node, with `loc.end.line`. A field of comments that is undefined is empty. An element of one that
-- is undefined is `none`.
pub record Node : Type 0 where
  pub node_type : NodeType
  pub start : ℕ
  pub end_line : ℕ
  pub leading : List (Option Comment)
  pub inner : List (Option Comment)
  pub trailing : List (Option Comment)
  pub source_elements : Option (List Element)
  pub fields : Chars → Field

abbrev pub Store : Type 0
Store = ℕ → Node

unfoldable pub set_node : ℕ → Node → Store → Store
set_node i n s j = if j == i then n else s j

abbrev pub count_one : Option ℕ → Option ℕ
count_one none = none
count_one (some n) = some (suc n)

-- How many of the first comments pass a test, as a loop with a `break` counts them; `none` is the
-- TypeError of a comment that is undefined.
unfoldable pub count_while : (Comment → Bool) → List (Option Comment) → Option ℕ
count_while test [] = some 0
count_while test (none ∷ cs) = none
count_while test (some c ∷ cs) =
    let rest = count_one (count_while test cs) in if test c then rest else some 0

-- A line comment from the line before the node's last one on, which `trailingComments` begin with.
abbrev pub at_end : Node → Comment → Bool
at_end n c = is_line c.comment_type && leb (n.end_line - 1) c.line
  where
    is_line : CommentType → Bool
    is_line comment_line = true
    is_line comment_block = false

abbrev pub inner_count : NodeType → Node → List (Option Comment) → Option ℕ
inner_count program n cs = some (length cs)
inner_count other_type n cs = count_while (λ c. not (at_end n c)) cs

abbrev pub share : ℕ → List (Option Comment) → Node → ℕ → Node
share i cs n j = record n {
  leading = n.leading ++ take i cs;
  inner = n.inner ++ take j (drop i cs);
  trailing = n.trailing ++ drop j (drop i cs);
}

abbrev pub or_type_error : {A : Type 0} → Option A → Result A
or_type_error none = type_error
or_type_error (some a) = ok a

unfoldable pub assign_comments : Node → List (Option Comment) → Result Node
assign_comments n cs = or_type_error (count_while (λ c. ltb c.start n.start) cs) >>= λ i.
    or_type_error (inner_count n.node_type n (drop i cs)) >>= λ j. ok (share i cs n j)

-- What `traverse` keeps: `state.list`, `unclaimedComments`, `lastChild`, and the nodes.
pub record Walk : Type 0 where
  pub counts : Chars → ℕ
  pub unclaimed : List (Option Comment)
  pub last_child : Option ℕ
  pub store : Store

abbrev pub claimed : ElementKind → Option Comment → List (Option Comment) → List (Option Comment)
claimed comment_body c cs = cs ++ (c ∷ [])
claimed no_element c cs = cs
claimed other_element c cs = cs

unfoldable pub claim : List Comment → Element → Walk → Walk
claim comments e w = record w {
  unclaimed = claimed e.element (get_elem? comments e.index) w.unclaimed;
}

-- The element of an array, or `none` where there is no node.
unfoldable pub element_at : List (Option ℕ) → ℕ → Option ℕ
element_at [] i = none
element_at (x ∷ xs) zero = x
element_at (x ∷ xs) (suc i) = element_at xs i

-- The next element of an array, and a field that is one node.
abbrev pub next_of : ℕ → Field → Result (Option ℕ)
next_of i missing = type_error
next_of i (one j) = ok none
next_of i (many js) = ok (element_at js i)

abbrev pub node_of : Field → Result (Option ℕ)
node_of missing = ok none
node_of (one j) = ok (some j)
node_of (many js) = ok none

unfoldable pub dereference : Node → Reference → (Chars → ℕ) → Result (Option ℕ)
dereference n r counts =
    if r.next then next_of (counts r.key) (n.fields r.key) else node_of (n.fields r.key)

unfoldable pub count_up : Reference → (Chars → ℕ) → Chars → ℕ
count_up r counts k = if r.next && same_text k r.key then suc (counts k) else counts k

-- The comments before a child are assigned to it.
unfoldable pub assign_to : ℕ → Walk → Result Walk
assign_to i w = assign_comments (w.store i) w.unclaimed >>= λ n.
    ok (record w { unclaimed = []; store = set_node i n w.store })

-- A child is visited; a value that is no node has no `sourceElements`.
unfoldable pub descend : (ℕ → Store → Result Store) → Option ℕ → Walk → Result Walk
descend visit none w = type_error
descend visit (some i) w =
    assign_to i w >>= λ v. visit i v.store >>= λ s. ok (record v { last_child = some i; store = s })

-- An element with a name of its own is no child to visit.
abbrev pub child_of : (ℕ → Store → Result Store) → ElementKind → Option ℕ → Walk → Result Walk
child_of visit no_element child w = descend visit child w
child_of visit comment_body child w = ok w
child_of visit other_element child w = ok w

unfoldable pub follow :
    (ℕ → Store → Result Store) → Node → ElementKind → Reference → Walk → Result Walk
follow visit n kind r w = dereference n r w.counts >>= λ child.
    child_of visit kind child (record w { counts = count_up r w.counts })

unfoldable pub enter :
    (ℕ → Store → Result Store) → Node → ElementKind → Option Reference → Walk → Result Walk
enter visit n kind none w = ok w
enter visit n kind (some r) w = follow visit n kind r w

unfoldable pub walk_elements :
    List Comment → (ℕ → Store → Result Store) → Node → List Element → Walk → Result Walk
walk_elements comments visit n [] w = ok w
walk_elements comments visit n (e ∷ es) w =
    enter visit n e.element e.reference (claim comments e w) >>= walk_elements comments visit n es

-- The comments behind the last child become its trailing ones; without a child they are the node's.
unfoldable pub settle_rest : ℕ → List (Option Comment) → Option ℕ → Store → Result Store
settle_rest i [] last s = ok s
settle_rest i (c ∷ cs) none s = assign_comments (s i) (c ∷ cs) >>= λ n. ok (set_node i n s)
settle_rest i (c ∷ cs) (some j) s = ok (set_node j (record (s j) { trailing = c ∷ cs }) s)

unfoldable pub start_walk : ℕ → Store → Walk
start_walk i s = record {
  counts = λ _. 0;
  unclaimed = (s i).inner;
  last_child = none;
  store = set_node i (record (s i) { inner = [] }) s;
}

unfoldable pub walk_node :
    List Comment → (ℕ → Store → Result Store) → ℕ → Store → Option (List Element) → Result Store
walk_node comments visit i s none = type_error
walk_node comments visit i s (some es) =
    walk_elements comments visit (s i) es (start_walk i s) >>= λ w.
    settle_rest i w.unclaimed w.last_child w.store

-- `traverse`. Each call goes from a node to a child, with one unit of fuel less.
unfoldable pub traverse : List Comment → ℕ → ℕ → Store → Result Store
traverse comments zero i s = out_of_fuel
traverse comments (suc fuel) i s =
    walk_node comments (λ j t. traverse comments fuel j t) i s (s i).source_elements
