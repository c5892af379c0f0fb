-- ===== src/Operators/Sound.antt =====
-- Every tree that the operator parser returns is arranged, and its tokens are those that were read.
use tacoscript.Prelude.{
  ℕ, zero, suc, ◌+◌, ◌≡◌, refl, sym, ap, subst, ◌∙◌, inl, inr, ◌⊎◌, Bool, true, false, not, Option,
  none, some, List, [], ◌∷◌, ◌++◌, append_assoc, if◌then◌else◌, length,
}
use tacoscript.Reader.{Result, ok, raise, type_error, out_of_fuel, ◌>>=◌, Message}
use tacoscript.Operators.{
  Tok, Expr, operand, binary, above, prec, goes_on, right_min, Operands, is_illegal, parse_operator,
  parse_operators,
}
use tacoscript.Operators.RoundTrip.{
  first, behind_first, print, closes, opens, Arranged, leaf, node, stops, ends, behind_first-append,
}

above-none : (p m : Option ℕ) → above p m ≡ true → above p none ≡ true
above-none none m h = cc
above-none (some p) m h = refl

ok-injective : {A : Type 0} {a b : A} → ok a ≡ ok b → a ≡ b
ok-injective e = cc

module _ (o : Operands) (is_for : Bool) (printed : o.Operand → List Tok) where
  -- What a result must be for a call with a node, its least precedence and the tokens behind it.
  data Built (m : Option ℕ) (text : List Tok) : Result (Expr o.Operand × List Tok) → Type 0 where
    built :
        {e : Expr o.Operand} {us : List Tok}
        → Arranged o is_for printed e
        → opens o is_for printed m e ≡ true
        → stops o is_for printed m us ≡ true
        → text ≡ print o is_for printed e ++ us
        → Built m text (ok (e, us))
    raised : {p : Option ℕ} {k : Message} → Built m text (raise p k)
    thrown : Built m text type_error
    unfinished : Built m text out_of_fuel

  Built-if :
      {m : Option ℕ} {text : List Tok} (b : Bool) {x y : Result (Expr o.Operand × List Tok)}
      → (b ≡ true → Built m text x)
      → (b ≡ false → Built m text y)
      → Built m text (if b then x else y)
  Built-if true h k = h refl
  Built-if false h k = k refl

  ends-closes :
      (t : Tok) (e : Expr o.Operand) (ts : List Tok)
      → ends o is_for printed e (t ∷ ts) ≡ true
      → closes o is_for printed t e ≡ true
  ends-closes t (operand n) ts h = refl
  ends-closes t (binary u l r) ts h = h

  Built-bind :
      {m m' : Option ℕ} {text text' : List Tok} {r : Result (Expr o.Operand × List Tok)}
      (f : Expr o.Operand × List Tok → Result (Expr o.Operand × List Tok))
      → Built m' text' r
      → ((e : Expr o.Operand) (us : List Tok)
          → Arranged o is_for printed e
          → opens o is_for printed m' e ≡ true
          → stops o is_for printed m' us ≡ true
          → text' ≡ print o is_for printed e ++ us
          → Built m text (f (e, us)))
      → Built m text (r >>= f)
  Built-bind f (built {e} {us} a h k q) g = g e us a h k q
  Built-bind f raised g = raised
  Built-bind f thrown g = thrown
  Built-bind f unfinished g = unfinished

  -- The text of a node, an operator and a right tree.
  print-binary :
      (t : Tok) (e r : Expr o.Operand) (ts us : List Tok)
      → ts ≡ print o is_for printed r ++ us
      → print o is_for printed (binary t e r) ++ us ≡ print o is_for printed e ++ t ∷ ts
  print-binary t e r ts us q =
      append_assoc (printed (first o is_for printed e))
        (behind_first o is_for printed (binary t e r)) us
      ∙ ap (λ vs. printed (first o is_for printed e) ++ vs)
          (behind_first-append o is_for printed t e r us)
      ∙ sym (append_assoc (printed (first o is_for printed e)) (behind_first o is_for printed e) _)
      ∙ ap (λ vs. print o is_for printed e ++ t ∷ vs)
          (sym (
            q
            ∙ append_assoc (printed (first o is_for printed r)) (behind_first o is_for printed r)
                us))

  -- What is left begins with no operator, or behind a first operand with a shorthand default.
  abbrev pub Left : List Tok → Expr o.Operand → List Tok → Type 0
  Left ts e us =
      (stops o is_for printed none us ≡ true)
      ⊎ ((n : o.Operand) × (e ≡ operand n) × (o.read_first ts ≡ ok (n, true, us)))

  module _
      (reads : (ts us : List Tok) (n : o.Operand)
        → o.read ts ≡ ok (n, us)
        → ts ≡ printed n ++ us) where
    read-Built :
        {m : Option ℕ} {text : List Tok} (ts : List Tok) (r : Result (o.Operand × List Tok))
        (f : o.Operand × List Tok → Result (Expr o.Operand × List Tok))
        → o.read ts ≡ r
        → ((n : o.Operand) (us : List Tok) → ts ≡ printed n ++ us → Built m text (f (n, us)))
        → Built m text (r >>= f)
    read-Built ts (ok (n, us)) f q g = g n us (reads ts us n q)
    read-Built ts (raise p k) f q g = raised
    read-Built ts type_error f q g = thrown
    read-Built ts out_of_fuel f q g = unfinished

    -- The node so far is arranged, and the next token ends it.
    parse_operator-Built :
        (fuel : ℕ) (m : Option ℕ) (e : Expr o.Operand) (ts : List Tok)
        → Arranged o is_for printed e
        → opens o is_for printed m e ≡ true
        → ends o is_for printed e ts ≡ true
        → Built m (print o is_for printed e ++ ts) (parse_operator o is_for fuel m e ts)
    unfolding parse_operator
    parse_operator-Built zero m e ts a h k = unfinished
    parse_operator-Built (suc fuel) m e [] a h k = built a h refl refl
    parse_operator-Built (suc fuel) m e (t ∷ ts) a h k =
        Built-if (goes_on is_for m t)
          (λ g.
            Built-if (is_illegal o is_for t e) (λ _. raised)
              (λ i. read-Built ts (o.read ts) _ refl (λ n us same.
                Built-bind _
                  (parse_operator-Built fuel (right_min is_for t) (operand n) us leaf refl refl)
                  (λ r vs b h' k' same'.
                    subst (λ text. Built m text (parse_operator o is_for fuel m (binary t e r) vs))
                      (print-binary t e r ts vs
                        (same ∙ sym (append_assoc (printed n) [] us) ∙ same'))
                      (parse_operator-Built fuel m (binary t e r) vs
                        (node (above-none (prec is_for t) m g) i (ends-closes t e ts k) h' a b) g
                        k')))))
          (λ g. built a h (ap not g) refl)

    -- What the parser returns: an arranged tree, or a first operand with a shorthand default.
    data Returns (ts : List Tok) : Result (Expr o.Operand × List Tok) → Type 0 where
      tree : {r : Result (Expr o.Operand × List Tok)} → Built none ts r → Returns ts r
      alone :
          {n : o.Operand} {us : List Tok}
          → o.read_first ts ≡ ok (n, true, us)
          → ts ≡ printed n ++ us
          → Returns ts (ok (operand n, us))

    module _
        (reads_first : (ts us : List Tok) (n : o.Operand) (b : Bool)
          → o.read_first ts ≡ ok (n, b, us)
          → ts ≡ printed n ++ us) where
      by_shorthand :
          (ts us : List Tok) (n : o.Operand) (b : Bool)
          → o.read_first ts ≡ ok (n, b, us)
          → Returns ts (
              if b
              then ok (operand n, us)
              else parse_operator o is_for (length us + 1) none (operand n) us)
      by_shorthand ts us n true q = alone q (reads_first ts us n true q)
      by_shorthand ts us n false q = tree (
          subst
            (λ text. Built none text (parse_operator o is_for (length us + 1) none (operand n) us))
            (append_assoc (printed n) [] us ∙ sym (reads_first ts us n false q))
            (parse_operator-Built (length us + 1) none (operand n) us leaf refl refl))

      first-Returns :
          (ts : List Tok) (r : Result (o.Operand × Bool × List Tok))
          (f : o.Operand × Bool × List Tok → Result (Expr o.Operand × List Tok))
          → o.read_first ts ≡ r
          → ((n : o.Operand) (b : Bool) (us : List Tok)
              → o.read_first ts ≡ ok (n, b, us)
              → Returns ts (f (n, b, us)))
          → Returns ts (r >>= f)
      first-Returns ts (ok (n, b, us)) f q g = g n b us q
      first-Returns ts (raise p k) f q g = tree raised
      first-Returns ts type_error f q g = tree thrown
      first-Returns ts out_of_fuel f q g = tree unfinished

      parse_operators-Returns : (ts : List Tok) → Returns ts (parse_operators o is_for ts)
      unfolding parse_operators
      parse_operators-Returns ts =
          first-Returns ts (o.read_first ts) _ refl (λ n b us q. by_shorthand ts us n b q)

      Returns-ok :
          {ts us : List Tok} {e : Expr o.Operand} {r : Result (Expr o.Operand × List Tok)}
          → Returns ts r
          → r ≡ ok (e, us)
          → Arranged o is_for printed e × (ts ≡ print o is_for printed e ++ us) × Left ts e us
      Returns-ok {ts} (tree (built a h k s)) q =
          subst
            (λ (e', vs).
              Arranged o is_for printed e' × (ts ≡ print o is_for printed e' ++ vs) × Left ts e' vs)
            (ok-injective q) (a, s, inl k)
      Returns-ok (tree raised) q = absurd cc
      Returns-ok (tree thrown) q = absurd cc
      Returns-ok (tree unfinished) q = absurd cc
      Returns-ok {ts} (alone {n} {us = vs} e s) q =
          subst
            (λ (e', vs).
              Arranged o is_for printed e' × (ts ≡ print o is_for printed e' ++ vs) × Left ts e' vs)
            (ok-injective q) (leaf, s ∙ sym (append_assoc (printed n) [] vs), inr (n, refl, e))

      -- For any way to read operands that takes off the tokens of the operand that it returns: where
      -- the parser returns a tree, the tree is arranged by precedence and associativity, its tokens
      -- are those that were read, and what is left begins with no operator, unless the tree is a
      -- first operand that leaves a shorthand default behind.
      pub parse_operators-Arranged :
          (ts us : List Tok) (e : Expr o.Operand)
          → parse_operators o is_for ts ≡ ok (e, us)
          → Arranged o is_for printed e × (ts ≡ print o is_for printed e ++ us) × Left ts e us
      parse_operators-Arranged ts us e q = Returns-ok (parse_operators-Returns ts) q
