-- ===== src/Operators/Unary/Laws.antt =====
-- Operands with prefix and postfix operators are read back from their tokens.
use tacoscript.Prelude.{
  ℕ, ◌≡◌, ◌∙◌, sym, ap, refl, subst, Bool, true, false, not, ◌&&◌, Option, none, some, List, [],
  ◌∷◌, ◌++◌, append_assoc, if◌then◌else◌,
}
use tacoscript.Token.{TokType, inc_dec, kw_in}
use tacoscript.Token.Key.{◌===◌}
use tacoscript.Token.Conf.{type_of}
use tacoscript.Reader.{ok, ◌>>=◌}
use tacoscript.Operators.{Tok, goes_on, prec, above}
use tacoscript.Operators.RoundTrip.{not-false}
use tacoscript.Operators.Unary.{
  ReadContext, CallType, no_call_type, Subscripts, Unary, base, prefixed, postfixed,
  parse_postfixes, behind_subscripts, finish_prefix, parse_maybe_unary, bare_context, bare_operands,
}

-- The tokens do not begin with a prefix operator, or with a postfix operator.
abbrev pub no_prefix : List Tok → Bool
no_prefix [] = true
no_prefix (t ∷ ts) = not (type_of t.type).prefix

abbrev pub no_postfix : List Tok → Bool
no_postfix [] = true
no_postfix (t ∷ ts) = not (type_of t.type).postfix

postfix-binop : (t : TokType) (p : ℕ) → (type_of t).binop ≡ some p → (type_of t).postfix ≡ false
unfolding type_of
postfix-binop inc_dec p e = absurd cc
postfix-binop _ p e = refl

module _ {Base : Type 0} where
  -- Postfix operators on what subscripts make.
  pub data Posts : Unary Base → Type 0 where
    no_posts : {n : Base} → Posts (base n)
    more_posts :
        {t : Tok} {u : Unary Base}
        → (type_of t.type).postfix ≡ true
        → Posts u
        → Posts (postfixed t u)

  -- Prefix operators on that.
  pub data Proper : Unary Base → Type 0 where
    plain : {u : Unary Base} → Posts u → Proper u
    more :
        {t : Tok} {u : Unary Base}
        → (type_of t.type).prefix ≡ true
        → Proper u
        → Proper (prefixed t u)

module _ {Base : Type 0} (printed : Base → List Tok) where
  abbrev pub print_unary : Unary Base → List Tok
  print_unary (base n) = printed n
  print_unary (prefixed t u) = t ∷ print_unary u
  print_unary (postfixed t u) = print_unary u ++ t ∷ []

abbrev base_of : {Base : Type 0} → Unary Base → Base
base_of (base n) = n
base_of (prefixed t u) = base_of u
base_of (postfixed t u) = base_of u

-- The postfix operators behind the subscripts.
abbrev posts : {Base : Type 0} → Unary Base → List Tok
posts (base n) = []
posts (prefixed t u) = []
posts (postfixed t u) = posts u ++ t ∷ []

parse_postfixes-stop :
    {Base : Type 0} (u : Unary Base) (ts : List Tok)
    → no_postfix ts ≡ true
    → parse_postfixes u ts ≡ (u, ts)
unfolding parse_postfixes
parse_postfixes-stop u [] h = refl
parse_postfixes-stop u (t ∷ ts) h = rw (not-false (type_of t.type).postfix h) refl

parse_postfixes-posts :
    {Base : Type 0} (u : Unary Base) (ts : List Tok)
    → Posts u
    → parse_postfixes (base (base_of u)) (posts u ++ ts) ≡ parse_postfixes u ts
unfolding parse_postfixes
parse_postfixes-posts (base n) ts p = refl
parse_postfixes-posts (prefixed t u) ts p = elim p [ ]
parse_postfixes-posts (postfixed t u) ts (more_posts h p) =
    ap (parse_postfixes (base (base_of u))) (append_assoc (posts u) (t ∷ []) ts)
    ∙ parse_postfixes-posts u (t ∷ ts) p
    ∙ rw h refl

module _ (o : Subscripts) (printed : o.Base → List Tok) where
  print-posts :
      (u : Unary o.Base) (ts : List Tok)
      → Posts u
      → print_unary printed u ++ ts ≡ printed (base_of u) ++ (posts u ++ ts)
  print-posts (base n) ts p = refl
  print-posts (prefixed t u) ts p = elim p [ ]
  print-posts (postfixed t u) ts (more_posts h p) =
      append_assoc (print_unary printed u) (t ∷ []) ts
      ∙ print-posts u (t ∷ ts) p
      ∙ ap (λ us. printed (base_of u) ++ us) (sym (append_assoc (posts u) (t ∷ []) ts))

  subscripts_first :
      (ctx : ReadContext) (ts : List Tok)
      → no_prefix ts ≡ true
      → parse_maybe_unary o ctx ts ≡ (o.read_subscripts ctx ts >>= behind_subscripts o ctx)
  unfolding parse_maybe_unary
  subscripts_first ctx [] h = refl
  subscripts_first ctx (t ∷ ts) h = rw (not-false (type_of t.type).prefix h) refl

  module _ (Follow : List Tok → Type 0)
      (reads : (c : CallType) (n : o.Base) (ts : List Tok)
        → Follow ts
        → o.read_subscripts (bare_context c) (printed n ++ ts) ≡ ok (n, 0, ts))
      (fronts : (n : o.Base) (ts : List Tok) → no_prefix (printed n ++ ts) ≡ true)
      (postfix-Follow : (t : Tok) (ts : List Tok)
        → (type_of t.type).postfix ≡ true
        → Follow (t ∷ ts)) where
    posts-Follow : (u : Unary o.Base) (ts : List Tok) → Posts u → Follow ts → Follow (posts u ++ ts)
    posts-Follow (base n) ts p f = f
    posts-Follow (prefixed t u) ts p f = elim p [ ]
    posts-Follow (postfixed t u) ts (more_posts h p) f =
        subst Follow (sym (append_assoc (posts u) (t ∷ []) ts))
          (posts-Follow u (t ∷ ts) p (postfix-Follow t ts h))

    parse_maybe_unary-Posts :
        (c : CallType) (u : Unary o.Base) (ts : List Tok)
        → Posts u
        → Follow ts
        → no_postfix ts ≡ true
        → parse_maybe_unary o (bare_context c) (print_unary printed u ++ ts) ≡ ok (u, 0, ts)
    unfolding behind_subscripts
    parse_maybe_unary-Posts c u ts p f h =
        ap (parse_maybe_unary o (bare_context c)) (print-posts u ts p)
        ∙ subscripts_first (bare_context c) _ (fronts (base_of u) (posts u ++ ts))
        ∙ ap (λ r. r >>= behind_subscripts o (bare_context c))
            (reads c (base_of u) (posts u ++ ts) (posts-Follow u ts p f))
        ∙ ap (λ (v, us). ok (v, 0, us)) (parse_postfixes-posts u ts p ∙ parse_postfixes-stop u ts h)

    parse_maybe_unary-print :
        (c : CallType) (u : Unary o.Base) (ts : List Tok)
        → Proper u
        → Follow ts
        → no_postfix ts ≡ true
        → parse_maybe_unary o (bare_context c) (print_unary printed u ++ ts) ≡ ok (u, 0, ts)
    unfolding parse_maybe_unary finish_prefix
    parse_maybe_unary-print c u ts (plain p) f h = parse_maybe_unary-Posts c u ts p f h
    parse_maybe_unary-print c (prefixed t u) ts (more q p) f h =
        rw (q, parse_maybe_unary-print c u ts p f h) refl

    -- What may follow an operand.
    abbrev pub Behind : List Tok → Type 0
    Behind ts = Follow ts × (no_postfix ts ≡ true)

    operator-no_postfix :
        (is_for : Bool) (t : Tok) → goes_on is_for none t ≡ true → (type_of t.type).postfix ≡ false
    unfolding prec
    operator-no_postfix is_for t h =
        by_binop (is_for && (t.type === kw_in)) (type_of t.type).binop refl h
      where
        by_binop :
            (b : Bool) (o : Option ℕ)
            → (type_of t.type).binop ≡ o
            → above (if b then none else o) none ≡ true
            → (type_of t.type).postfix ≡ false
        by_binop true o e k = absurd cc
        by_binop false none e k = absurd cc
        by_binop false (some p) e k = postfix-binop t.type p e

    pub operator-Behind :
        (is_for : Bool)
        → ((t : Tok) (ts : List Tok) → goes_on is_for none t ≡ true → Follow (t ∷ ts))
        → (t : Tok) (ts : List Tok) → goes_on is_for none t ≡ true
        → Behind (t ∷ ts)
    operator-Behind is_for f t ts g = (f t ts g, ap not (operator-no_postfix is_for t g))

    pub read-print :
        (c : CallType) (u : Unary o.Base) (ts : List Tok)
        → Proper u
        → Behind ts
        → (bare_operands o c).read (print_unary printed u ++ ts) ≡ ok (u, ts)
    read-print c u ts p g = rw (parse_maybe_unary-print no_call_type u ts p g.0 g.1) refl

    pub read_first-print :
        (c : CallType) (u : Unary o.Base) (ts : List Tok)
        → Proper u
        → Behind ts
        → (bare_operands o c).read_first (print_unary printed u ++ ts) ≡ ok (u, false, ts)
    read_first-print c u ts p g = rw (parse_maybe_unary-print c u ts p g.0 g.1) refl
