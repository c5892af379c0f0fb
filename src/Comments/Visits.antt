-- ===== src/Comments/Visits.antt =====
-- What `traverse` of packages/horchata/src/postprocessors/comments.js keeps of a tree, and that it ends.
use tacoscript.Prelude.{
  ltb, drop, ℕ, zero, suc, ◌≡◌, ◌≢◌, ◌<◌, refl, ap, sym, ◌∙◌, inl, inr, subst, Option, none, some,
  List, [], ◌∷◌, ◌==◌, ==_iff, arith, All, Bool-cases,
}
use tacoscript.Text.{Chars}
use tacoscript.Reader.{Result, ok, out_of_fuel, ◌>>=◌}
use tacoscript.Reader.Ends.{Ends, value, thrown, Ends-ne-out_of_fuel, Ends-ok, Ends-bind, Ends-if}
use tacoscript.Comments.{
  Comment, Reference, ElementKind, no_element, comment_body, other_element, Element, Field, missing,
  one, many, Node, Store, set_node, assign_comments, Walk, claim, element_at, dereference, next_of,
  node_of, child_of, assign_to, descend, follow, enter, walk_elements, settle_rest, start_walk,
  walk_node, traverse, count_while, inner_count, share, or_type_error,
}

-- A node without its comments.
abbrev pub bare : Node → Node
bare n = record n { leading = []; inner = []; trailing = [] }

-- The nodes of the second store are those of the first but for the comments.
abbrev pub Attached : Store → Store → Type 0
Attached s t = (i : ℕ) → bare (t i) ≡ bare (s i)

-- The comments that are assigned to a node leave it the same otherwise.
assign_comments-bare :
    (n : Node) (cs : List (Option Comment)) → Ends (λ m. bare m ≡ bare n) (assign_comments n cs)
unfolding assign_comments
assign_comments-bare n cs =
    by_counts (count_while (λ c. ltb c.start n.start) cs)
      (λ i. inner_count n.node_type n (drop i cs))
  where
    by_inner :
        (i : ℕ) (o : Option ℕ)
        → Ends (λ m. bare m ≡ bare n) (or_type_error o >>= λ j. ok (share i cs n j))
    by_inner i none = thrown
    by_inner i (some j) = value refl

    by_counts :
        (o : Option ℕ) (f : ℕ → Option ℕ)
        → Ends
            (λ m. bare m ≡ bare n)
            (or_type_error o >>= λ i. or_type_error (f i) >>= λ j. ok (share i cs n j))
    by_counts none f = thrown
    by_counts (some i) f = by_inner i (f i)

-- A node of the store is replaced.
set_node-Attached :
    (s : Store) (i : ℕ) (n : Node) (t : Store)
    → Attached s t
    → bare n ≡ bare (t i)
    → Attached s (set_node i n t)
unfolding set_node
set_node-Attached s i n t h e j = elim (Bool-cases (j == i)) [
  | inl q ↦
      (let same : j ≡ i = (==_iff j i).0 q in rw q (e ∙ ap (λ x. bare (t x)) (sym same) ∙ h j))
  | inr q ↦ rw q (h j)
]

-- A reference leads to a node of lower rank.
abbrev pub IsBelow : (ℕ → ℕ) → ℕ → Option ℕ → Type 0
IsBelow rank r none = Unit
IsBelow rank r (some j) = rank j < r

abbrev pub FieldBelow : (ℕ → ℕ) → ℕ → Field → Type 0
FieldBelow rank r missing = Unit
FieldBelow rank r (one j) = rank j < r
FieldBelow rank r (many js) = All (IsBelow rank r) js

-- The children of every node have lower rank, as in a tree.
abbrev pub Descends : (ℕ → ℕ) → Store → Type 0
Descends rank s = (i : ℕ) (key : Chars) → FieldBelow rank (rank i) ((s i).fields key)

module _ (rank : ℕ → ℕ) (r : ℕ) where
  element_at-IsBelow :
      (js : List (Option ℕ)) (i : ℕ) → All (IsBelow rank r) js → IsBelow rank r (element_at js i)
  unfolding element_at
  element_at-IsBelow [] i h = tt
  element_at-IsBelow (j ∷ js) zero h = h.0
  element_at-IsBelow (j ∷ js) (suc i) h = element_at-IsBelow js i h.1

  next_of-Ends : (i : ℕ) (f : Field) → FieldBelow rank r f → Ends (IsBelow rank r) (next_of i f)
  next_of-Ends i missing h = thrown
  next_of-Ends i (one j) h = value tt
  next_of-Ends i (many js) h = value (element_at-IsBelow js i h)

  node_of-Ends : (f : Field) → FieldBelow rank r f → Ends (IsBelow rank r) (node_of f)
  node_of-Ends missing h = value tt
  node_of-Ends (one j) h = value h
  node_of-Ends (many js) h = value tt

  dereference-Ends :
      (n : Node) (ref : Reference) (counts : Chars → ℕ)
      → ((key : Chars) → FieldBelow rank r (n.fields key))
      → Ends (IsBelow rank r) (dereference n ref counts)
  unfolding dereference
  dereference-Ends n ref counts h =
      Ends-if ref.next (λ _. next_of-Ends _ _ (h ref.key)) (λ _. node_of-Ends _ (h ref.key))

module _ (comments : List Comment) (rank : ℕ → ℕ) (s : Store) (down : Descends rank s) where
  -- The nodes of a walk are those of the store but for the comments.
  abbrev Holds : Walk → Type 0
  Holds w = Attached s w.store

  abbrev Visits : ℕ → (ℕ → Store → Result Store) → Type 0
  Visits r visit = (j : ℕ) (t : Store) → rank j < r → Attached s t → Ends (Attached s) (visit j t)

  claim-Holds : (e : Element) (w : Walk) → Holds w → Holds (claim comments e w)
  unfolding claim
  claim-Holds e w h = h

  assign_to-Ends : (i : ℕ) (w : Walk) → Holds w → Ends Holds (assign_to i w)
  unfolding assign_to
  assign_to-Ends i w h =
      Ends-bind _ (assign_comments-bare (w.store i) w.unclaimed)
        (λ n e. value (set_node-Attached s i n w.store h e))

  module _ (r : ℕ) (visit : ℕ → Store → Result Store) (v : Visits r visit) where
    descend-Ends :
        (child : Option ℕ) (w : Walk)
        → IsBelow rank r child
        → Holds w
        → Ends Holds (descend visit child w)
    unfolding descend
    descend-Ends none w b h = thrown
    descend-Ends (some i) w b h =
        Ends-bind _ (assign_to-Ends i w h) (λ u k. Ends-bind _ (v i _ b k) (λ t a. value a))

    child_of-Ends :
        (kind : ElementKind) (child : Option ℕ) (w : Walk)
        → IsBelow rank r child
        → Holds w
        → Ends Holds (child_of visit kind child w)
    child_of-Ends no_element child w b h = descend-Ends child w b h
    child_of-Ends comment_body child w b h = value h
    child_of-Ends other_element child w b h = value h

    module _ (n : Node) (below : (key : Chars) → FieldBelow rank r (n.fields key)) where
      enter-Ends :
          (kind : ElementKind) (ref : Option Reference) (w : Walk)
          → Holds w
          → Ends Holds (enter visit n kind ref w)
      unfolding enter follow
      enter-Ends kind none w h = value h
      enter-Ends kind (some ref) w h =
          Ends-bind _ (dereference-Ends rank r n ref w.counts below)
            (λ child b. child_of-Ends kind child _ b h)

      walk_elements-Ends :
          (es : List Element) (w : Walk)
          → Holds w
          → Ends Holds (walk_elements comments visit n es w)
      unfolding walk_elements
      walk_elements-Ends [] w h = value h
      walk_elements-Ends (e ∷ es) w h =
          Ends-bind _ (enter-Ends e.element e.reference _ (claim-Holds e w h))
            (λ u k. walk_elements-Ends es u k)

  settle_rest-Ends :
      (i : ℕ) (cs : List (Option Comment)) (last : Option ℕ) (t : Store)
      → Attached s t
      → Ends (Attached s) (settle_rest i cs last t)
  unfolding settle_rest
  settle_rest-Ends i [] last t h = value h
  settle_rest-Ends i (c ∷ cs) none t h =
      Ends-bind _ (assign_comments-bare (t i) (c ∷ cs))
        (λ n e. value (set_node-Attached s i n t h e))
  settle_rest-Ends i (c ∷ cs) (some j) t h = value (set_node-Attached s j _ t h refl)

  start_walk-Holds : (i : ℕ) (t : Store) → Attached s t → Holds (start_walk i t)
  unfolding start_walk
  start_walk-Holds i t h = set_node-Attached s i _ t h refl

  walk_node-Ends :
      (visit : ℕ → Store → Result Store) (i : ℕ) (t : Store) (es : Option (List Element))
      → Visits (rank i) visit
      → Attached s t
      → Ends (Attached s) (walk_node comments visit i t es)
  unfolding walk_node
  walk_node-Ends visit i t none v h = thrown
  walk_node-Ends visit i t (some es) v h =
      Ends-bind _
        (walk_elements-Ends (rank i) visit v (t i)
          (λ key.
            subst (λ f. FieldBelow rank (rank i) (f key)) (sym (ap (λ n. n.fields) (h i)))
              (down i key))
          es _ (start_walk-Holds i t h))
        (λ w k. settle_rest-Ends i w.unclaimed w.last_child w.store k)

  pub traverse-Attached :
      (fuel i : ℕ) (t : Store)
      → rank i < fuel
      → Attached s t
      → Ends (Attached s) (traverse comments fuel i t)
  unfolding traverse
  traverse-Attached zero i t lt h = absurd (omega arith)
  traverse-Attached (suc fuel) i t lt h =
      walk_node-Ends _ i t (t i).source_elements
        (λ j u b k. traverse-Attached fuel j u (omega arith) k) h

module _ (comments : List Comment) (rank : ℕ → ℕ) (s : Store) (down : Descends rank s) (fuel i : ℕ)
    (lt : rank i < fuel) where
  visited : Ends (Attached s) (traverse comments fuel i s)
  visited = traverse-Attached comments rank s down fuel i s lt (λ j. refl)

  -- Where the children of every node have a lower rank than the node, as in a tree, more fuel than the
  -- rank of the first node is enough to end the traversal, with a store or a TypeError.
  pub traverse-ne-out_of_fuel : traverse comments fuel i s ≢ out_of_fuel
  traverse-ne-out_of_fuel = Ends-ne-out_of_fuel visited

  -- The traversal of a tree changes nothing but the comments of its nodes: type, position, source
  -- elements and fields of every node are the same behind it.
  pub traverse-bare :
      (t : Store) → traverse comments fuel i s ≡ ok t → (j : ℕ) → bare (t j) ≡ bare (s j)
  traverse-bare t e j = Ends-ok visited e j
