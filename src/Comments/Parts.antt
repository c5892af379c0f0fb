-- ===== src/Comments/Parts.antt =====
-- How `assignComments` of packages/horchata/src/postprocessors/comments.js shares out the comments.
use tacoscript.Prelude.{
  ℕ, suc, ◌≡◌, ◌<◌, ◌≤◌, refl, ap, sym, ◌∙◌, inl, inr, Bool, true, false, not, some, List, [], ◌∷◌,
  ◌++◌, if◌then◌else◌, ltb, take, drop, length, map, append-nil, arith, ltb→lt, subst, All,
  Bool-cases,
}
use tacoscript.Reader.{Result, ok}
use tacoscript.Comments.{
  Comment, Node, NodeType, program, other_type, count_while, at_end, inner_count, share,
  assign_comments,
}

-- What a test says of the first element, if there is one.
abbrev pub First : (Comment → Type 0) → List Comment → Type 0
First P [] = Unit
First P (c ∷ cs) = P c

module _ (test : Comment → Bool) where
  -- The comments that a loop with a `break` passes by, and those behind them.
  abbrev passed : List Comment → List Comment
  passed [] = []
  passed (c ∷ cs) = if test c then c ∷ passed cs else []

  abbrev behind : List Comment → List Comment
  behind [] = []
  behind (c ∷ cs) = if test c then behind cs else c ∷ cs

  passed-All : (cs : List Comment) → All (λ c. test c ≡ true) (passed cs)
  passed-All [] = tt
  passed-All (c ∷ cs) = elim (Bool-cases (test c)) [
    | inl h ↦ rw h (h, passed-All cs)
    | inr h ↦ rw h tt
  ]

  behind-First : (cs : List Comment) → First (λ c. test c ≡ false) (behind cs)
  behind-First [] = tt
  behind-First (c ∷ cs) = elim (Bool-cases (test c)) [
    | inl h ↦ rw h (behind-First cs)
    | inr h ↦ rw h h
  ]

  passed-behind : (cs : List Comment) → passed cs ++ behind cs ≡ cs
  passed-behind [] = refl
  passed-behind (c ∷ cs) = elim (Bool-cases (test c)) [
    | inl h ↦ rw h (ap (◌∷◌ c) (passed-behind cs))
    | inr h ↦ rw h refl
  ]

  -- The loop counts the comments that it passes by.
  count_while-passed :
      (cs : List Comment) → count_while test (map some cs) ≡ some (length (passed cs))
  unfolding count_while
  count_while-passed [] = refl
  count_while-passed (c ∷ cs) = elim (Bool-cases (test c)) [
    | inl h ↦ rw (h, count_while-passed cs) refl
    | inr h ↦ rw h refl
  ]

  First-map :
      {P : Comment → Type 0} (cs : List Comment)
      → First (λ c. test c ≡ false) cs
      → ((c : Comment) → test c ≡ false → P c)
      → First P cs
  First-map [] h k = tt
  First-map (c ∷ cs) h k = k c h

  All-map :
      {P : Comment → Type 0} (cs : List Comment)
      → All (λ c. test c ≡ true) cs
      → ((c : Comment) → test c ≡ true → P c)
      → All P cs
  All-map [] h k = tt
  All-map (c ∷ cs) h k = (k c h.0, All-map cs h.1 k)

-- The comments behind the leading ones: all of them are inner ones of a program, and those of
-- another node are trailing ones from the first that is at its end.
abbrev pub Split : NodeType → Node → List Comment → List Comment → Type 0
Split program n b c = c ≡ []
Split other_type n b c = All (λ x. at_end n x ≡ false) b × First (λ x. at_end n x ≡ true) c

-- A node that gets the comments `a`, `b` and `c` of `cs` as leading, inner and trailing ones.
pub data Parts (n : Node) (cs : List Comment) : Result Node → Type 0 where
  parts :
      {r : Node} (a b c : List Comment)
      → r.leading ≡ n.leading ++ map some a
      → r.inner ≡ n.inner ++ map some b
      → r.trailing ≡ n.trailing ++ map some c
      → a ++ (b ++ c) ≡ cs
      → All (λ x. x.start < n.start) a
      → First (λ x. n.start ≤ x.start) (b ++ c)
      → Split n.node_type n b c
      → Parts n cs (ok r)

-- The inner comments of a node, and the trailing ones behind them.
abbrev inners : NodeType → Node → List Comment → List Comment
inners program n cs = cs
inners other_type n cs = passed (λ c. not (at_end n c)) cs

abbrev trailers : NodeType → Node → List Comment → List Comment
trailers program n cs = []
trailers other_type n cs = behind (λ c. not (at_end n c)) cs

inners-trailers :
    (t : NodeType) (n : Node) (cs : List Comment) → inners t n cs ++ trailers t n cs ≡ cs
inners-trailers program n cs = append-nil cs
inners-trailers other_type n cs = passed-behind _ cs

inner_count-inners :
    (t : NodeType) (n : Node) (cs : List Comment)
    → inner_count t n (map some cs) ≡ some (length (inners t n cs))
inner_count-inners program n cs = ap some (length-map cs)
  where
    length-map : (cs : List Comment) → length (map some cs) ≡ length cs
    length-map [] = refl
    length-map (c ∷ cs) = ap suc (length-map cs)
inner_count-inners other_type n cs = count_while-passed _ cs

inners-Split :
    (t : NodeType) (n : Node) (cs : List Comment) → Split t n (inners t n cs) (trailers t n cs)
inners-Split program n cs = refl
inners-Split other_type n cs = (
  All-map _ _ (passed-All _ cs) (λ c h. not-true _ h),
  First-map _ _ (behind-First _ cs) (λ c h. not-false _ h),
)
  where
    not-true : (b : Bool) → not b ≡ true → b ≡ false
    not-true b h = grind arith

    not-false : (b : Bool) → not b ≡ false → b ≡ true
    not-false b h = grind arith

-- The front of a list by the length of its first part.
take-length : (a b : List Comment) → take (length a) (map some (a ++ b)) ≡ map some a
take-length [] b = refl
take-length (c ∷ a) b = ap (◌∷◌ (some c)) (take-length a b)

drop-length : (a b : List Comment) → drop (length a) (map some (a ++ b)) ≡ map some b
drop-length [] b = refl
drop-length (c ∷ a) b = drop-length a b

share-Parts :
    (n : Node) (a b c : List Comment)
    → All (λ x. x.start < n.start) a
    → First (λ x. n.start ≤ x.start) (b ++ c)
    → Split n.node_type n b c
    → Parts n (a ++ (b ++ c)) (ok (share (length a) (map some (a ++ (b ++ c))) n (length b)))
share-Parts n a b c h k s =
    let behind_a = drop-length a (b ++ c) in
    parts a b c (ap (λ l. n.leading ++ l) (take-length a (b ++ c)))
      (ap (λ l. n.inner ++ l) (ap (take (length b)) behind_a ∙ take-length b c))
      (ap (λ l. n.trailing ++ l) (ap (drop (length b)) behind_a ∙ drop-length b c)) refl h k s

-- Comments that are all there are assigned without an error, and none is lost, doubled or moved past
-- another: the node gets the comments in three successive parts behind those that it has. The
-- leading ones start before the node, and the first behind them does not. A program has no trailing
-- ones from this; on another node they begin at the first line comment from the line before its
-- last one on.
pub assign_comments-Parts :
    (n : Node) (cs : List Comment) → Parts n cs (assign_comments n (map some cs))
unfolding assign_comments
assign_comments-Parts n cs =
    let before : Comment → Bool = λ c. ltb c.start n.start in
    let a : List Comment = passed before cs in
    let rest : List Comment = behind before cs in
    let b : List Comment = inners n.node_type n rest in
    let c : List Comment = trailers n.node_type n rest in
    let tail : b ++ c ≡ rest = inners-trailers n.node_type n rest in
    let whole : a ++ (b ++ c) ≡ cs = ap (λ r. a ++ r) tail ∙ passed-behind before cs in
    let dropped : drop (length a) (map some cs) ≡ map some rest =
      ap (λ l. drop (length a) (map some l)) (sym (passed-behind before cs)) ∙ drop-length a rest in
    let counted : inner_count n.node_type n (drop (length a) (map some cs)) ≡ some (length b) =
      ap (inner_count n.node_type n) dropped ∙ inner_count-inners n.node_type n rest in
    rw (count_while-passed before cs, counted)
      (subst (λ l. Parts n l (ok (share (length a) (map some l) n (length b)))) whole
        (share-Parts n a b c (All-map before _ (passed-All before cs) (λ x h. ltb→lt _ _ h))
          (subst (First (λ x. n.start ≤ x.start)) (sym tail)
            (First-map before rest (behind-First before cs) (λ x h. not-before _ _ h)))
          (inners-Split n.node_type n rest)))
  where
    not-before : (a b : ℕ) → ltb a b ≡ false → b ≤ a
    not-before a b h = ground arith
