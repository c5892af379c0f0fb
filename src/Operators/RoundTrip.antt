-- ===== src/Operators/RoundTrip.antt =====
-- The parser returns the tree whose tokens it reads, where the tree needs no more parentheses.
use tacoscript.Prelude.{
  ℕ, zero, suc, ◌+◌, ◌≤◌, ◌<◌, ◌≡◌, refl, sym, ap, subst, ◌∙◌, Bool, true, false, not, Option, none,
  some, List, [], ◌∷◌, ◌++◌, append_assoc, if◌then◌else◌, length-append, length, arith,
}
use tacoscript.Token.Conf.{type_of}
use tacoscript.Reader.{ok}
use tacoscript.Operators.{
  Tok, Expr, operand, binary, above, prec, goes_on, right_min, Operands, is_illegal, parse_operator,
  parse_operators,
}
use tacoscript.Operators.Order.{above_trans, above_ends}

pub not-false : (b : Bool) → not b ≡ true → b ≡ false
not-false true h = cc
not-false false h = refl

module _ (o : Operands) (is_for : Bool) (printed : o.Operand → List Tok) where
  -- The operand that a tree begins with, and the tokens behind it.
  abbrev pub first : Expr o.Operand → o.Operand
  first (operand n) = n
  first (binary t l r) = first l

  abbrev pub behind_first : Expr o.Operand → List Tok
  behind_first (operand n) = []
  behind_first (binary t l r) = behind_first l ++ t ∷ (printed (first r) ++ behind_first r)

  -- The tokens of a tree, without parentheses but those of its operands.
  abbrev pub print : Expr o.Operand → List Tok
  print e = printed (first e) ++ behind_first e

  -- The operator ends the tree on its left.
  abbrev pub closes : Tok → Expr o.Operand → Bool
  closes t (operand n) = true
  closes t (binary u l r) = not (goes_on is_for (right_min is_for u) t)

  -- The tree's own operator binds tighter than the precedence.
  abbrev pub opens : Option ℕ → Expr o.Operand → Bool
  opens m (operand n) = true
  opens m (binary u l r) = goes_on is_for m u

  -- Each operator binds at most as tight as that of its left tree and less than that of its right
  -- tree, or the other way round at a right associative one.
  pub data Arranged : Expr o.Operand → Type 0 where
    leaf : {n : o.Operand} → Arranged (operand n)
    node :
        {t : Tok} {l r : Expr o.Operand}
        → goes_on is_for none t ≡ true
        → is_illegal o is_for t l ≡ false
        → closes t l ≡ true
        → opens (right_min is_for t) r ≡ true
        → Arranged l
        → Arranged r
        → Arranged (binary t l r)

  -- The tokens do not go on with an operator above the precedence.
  abbrev pub stops : Option ℕ → List Tok → Bool
  stops m [] = true
  stops m (t ∷ ts) = not (goes_on is_for m t)

  -- A run of the parser, without fuel: the node so far and its tokens, and the tree and the rest.
  data Parses : Option ℕ → Expr o.Operand → List Tok → Expr o.Operand → List Tok → Type 0 where
    stop :
        {m : Option ℕ} {e : Expr o.Operand} {ts : List Tok} → stops m ts ≡ true → Parses m e ts e ts
    go :
        {m : Option ℕ} {e r e' : Expr o.Operand} {t : Tok} {n : o.Operand} {ts us vs : List Tok}
        → goes_on is_for m t ≡ true
        → is_illegal o is_for t e ≡ false
        → o.read (printed n ++ ts) ≡ ok (n, ts)
        → Parses (right_min is_for t) (operand n) ts r us
        → Parses m (binary t e r) us e' vs
        → Parses m e (t ∷ (printed n ++ ts)) e' vs

  Parses-length :
      {m : Option ℕ} {e e' : Expr o.Operand} {ts us : List Tok}
      → Parses m e ts e' us
      → length us ≤ length ts
  Parses-length (stop h) = omega arith
  Parses-length (go {n = n} {ts = ts} h i q a b) =
      omega (arith, Parses-length a, Parses-length b, length-append (printed n) ts)

  parse_operator-stops :
      (fuel : ℕ) (m : Option ℕ) (e : Expr o.Operand) (ts : List Tok)
      → stops m ts ≡ true
      → parse_operator o is_for (suc fuel) m e ts ≡ ok (e, ts)
  unfolding parse_operator
  parse_operator-stops fuel m e [] h = refl
  parse_operator-stops fuel m e (t ∷ ts) h = rw (not-false (goes_on is_for m t) h) refl

  -- A run is what the parser does, with more fuel than there are tokens.
  parse_operator-Parses :
      (fuel : ℕ) {m : Option ℕ} {e e' : Expr o.Operand} {ts us : List Tok}
      → Parses m e ts e' us
      → length ts < fuel
      → parse_operator o is_for fuel m e ts ≡ ok (e', us)
  unfolding parse_operator
  parse_operator-Parses zero p lt = absurd (omega arith)
  parse_operator-Parses (suc fuel) (stop {m} {e} {ts} h) lt = parse_operator-stops fuel m e ts h
  parse_operator-Parses (suc fuel) (go {n = n} {ts = ts} h i q a b) lt =
      rw (h, i, q, parse_operator-Parses fuel a (omega (arith, length-append (printed n) ts)))
        (parse_operator-Parses fuel b
          (omega (arith, length-append (printed n) ts, Parses-length a)))

  -- What follows the tree does not go on inside it.
  abbrev pub ends : Expr o.Operand → List Tok → Bool
  ends (operand n) ts = true
  ends (binary t l r) ts = stops (right_min is_for t) ts

  pub behind_first-append :
      (t : Tok) (l r : Expr o.Operand) (ts : List Tok)
      → behind_first (binary t l r) ++ ts
        ≡ behind_first l ++ t ∷ (printed (first r) ++ (behind_first r ++ ts))
  behind_first-append t l r ts =
      append_assoc (behind_first l) (t ∷ (printed (first r) ++ behind_first r)) ts
      ∙ ap (λ us. behind_first l ++ t ∷ us) (append_assoc (printed (first r)) (behind_first r) ts)

  closes-ends :
      (t : Tok) (l : Expr o.Operand) (ts : List Tok) → closes t l ≡ true → ends l (t ∷ ts) ≡ true
  closes-ends t (operand n) ts h = refl
  closes-ends t (binary u l r) ts h = h

  opens-none : (e : Expr o.Operand) → Arranged e → opens none e ≡ true
  opens-none (operand n) a = refl
  opens-none (binary t l r) (node g i c p a b) = g

  opens-left :
      (t : Tok) (l : Expr o.Operand) (m : Option ℕ)
      → Arranged l
      → closes t l ≡ true
      → goes_on is_for m t ≡ true
      → opens m l ≡ true
  opens-left t (operand n) m a c h = refl
  opens-left t (binary u l r) m (node g i c' p a b) c h =
      above_trans (type_of u.type).right_associative (prec is_for t) (prec is_for u) m g
        (not-false _ c) h

  ends-stops : (e : Expr o.Operand) (ts : List Tok) → stops none ts ≡ true → ends e ts ≡ true
  ends-stops (operand n) ts h = refl
  ends-stops (binary t l r) [] h = refl
  ends-stops (binary t l r) (u ∷ ts) h = weaker (prec is_for u) (right_min is_for t) h
    where
      weaker : (p m : Option ℕ) → not (above p none) ≡ true → not (above p m) ≡ true
      weaker none m h = refl
      weaker (some p) m h = absurd cc

  ends-right :
      (t : Tok) (r : Expr o.Operand) (ts : List Tok)
      → opens (right_min is_for t) r ≡ true
      → stops (right_min is_for t) ts ≡ true
      → ends r ts ≡ true
  ends-right t (operand n) ts h k = refl
  ends-right t (binary u l r) [] h k = refl
  ends-right t (binary u l r) (v ∷ ts) h k = ap not (
      above_ends (type_of t.type).right_associative (type_of u.type).right_associative
        (prec is_for t) (prec is_for u) (prec is_for v) h (not-false _ k))

  -- A predicate holds of all operands of a tree.
  abbrev pub OfOperands : (o.Operand → Type 0) → Expr o.Operand → Type 0
  OfOperands P (operand n) = P n
  OfOperands P (binary t l r) = OfOperands P l × OfOperands P r

  OfOperands-first : (P : o.Operand → Type 0) (e : Expr o.Operand) → OfOperands P e → P (first e)
  OfOperands-first P (operand n) h = h
  OfOperands-first P (binary t l r) h = OfOperands-first P l h.0

  module _ (Proper : o.Operand → Type 0) (Follow : List Tok → Type 0)
      (reads : (n : o.Operand) (ts : List Tok)
        → Proper n
        → Follow ts
        → o.read (printed n ++ ts) ≡ ok (n, ts))
      (operator-Follow : (t : Tok) (ts : List Tok)
        → goes_on is_for none t ≡ true
        → Follow (t ∷ ts)) where
    behind_first-Follow :
        (e : Expr o.Operand) (ts : List Tok)
        → Arranged e
        → Follow ts
        → Follow (behind_first e ++ ts)
    behind_first-Follow (operand n) ts a h = h
    behind_first-Follow (binary t l r) ts (node g i c p a b) h =
        subst Follow (sym (behind_first-append t l r ts))
          (behind_first-Follow l _ a (operator-Follow t _ g))

    -- A run from the tree and what follows it is one from the tree's first operand and all its
    -- other tokens.
    arranged-Parses :
        (e : Expr o.Operand) {m : Option ℕ} {ts us : List Tok} {e' : Expr o.Operand}
        → Arranged e
        → opens m e ≡ true
        → ends e ts ≡ true
        → OfOperands Proper e
        → Follow ts
        → Parses m e ts e' us
        → Parses m (operand (first e)) (behind_first e ++ ts) e' us
    arranged-Parses (operand n) a h k w f p = p
    arranged-Parses (binary t l r) {m} {ts} {us} {e'} (node g i c q a b) h k w f p =
        subst (λ vs. Parses m (operand (first l)) vs e' us) (sym (behind_first-append t l r ts))
          (arranged-Parses l a (opens-left t l m a c h) (closes-ends t l _ c) w.0
            (operator-Follow t _ g)
            (go h i
              (reads (first r) (behind_first r ++ ts) (OfOperands-first Proper r w.1)
                (behind_first-Follow r ts b f))
              (arranged-Parses r b q (ends-right t r ts q k) w.1 f (stop k)) p))

    -- For any way to read operands that reads each proper one back from its tokens before what may follow
    -- one, as an operator may, and of which some, as the first operand, leave a shorthand default behind:
    -- the tokens of a tree of proper operands that is arranged by the operators' precedence and associativity, before
    -- tokens that begin with no operator, are read as that tree, and what follows them is left; but
    -- where the first operand leaves a shorthand default, it is returned alone, and the rest is left.
    pub parse_operators-print :
        (shorthand : o.Operand → Bool)
        (reads_first : (n : o.Operand) (ts : List Tok)
          → Proper n
          → Follow ts
          → o.read_first (printed n ++ ts) ≡ ok (n, shorthand n, ts))
        (e : Expr o.Operand) (ts : List Tok)
        → Arranged e
        → stops none ts ≡ true
        → OfOperands Proper e
        → Follow ts
        → parse_operators o is_for (print e ++ ts) ≡ (
            if shorthand (first e)
            then ok (operand (first e), behind_first e ++ ts)
            else ok (e, ts))
    unfolding parse_operators
    parse_operators-print shorthand reads_first e ts a h w f =
        rw
          (
            append_assoc (printed (first e)) (behind_first e) ts,
            reads_first (first e) (behind_first e ++ ts) (OfOperands-first Proper e w)
                (behind_first-Follow e ts a f),
            parse_operator-Parses (length (behind_first e ++ ts) + 1)
                (arranged-Parses e a (opens-none e a) (ends-stops e ts h) w f (stop h))
                (omega arith),
          )
          refl
