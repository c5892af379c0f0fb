-- ===== src/Operators/Unary/Taken.antt =====
-- Operands with prefix and postfix operators take off their own tokens.
use tacoscript.Prelude.{
  ℕ, ◌≡◌, ◌∙◌, sym, ap, refl, Bool, true, false, Option, List, [], ◌∷◌, ◌++◌, append_assoc,
  if◌then◌else◌,
}
use tacoscript.Token.Conf.{type_of}
use tacoscript.Reader.{Result, ok, raise, type_error, out_of_fuel, ◌>>=◌, Message}
use tacoscript.Operators.{Tok}
use tacoscript.Operators.Unary.{
  ReadContext, no_call_type, bare_context, is_set, start_of, Subscripts, Unary, base, postfixed,
  parse_postfixes, behind_subscripts, finish_prefix, parse_maybe_unary, unary_operands,
}
use tacoscript.Operators.Unary.Laws.{print_unary}

module _ (o : Subscripts) (printed : o.Base → List Tok) where
  -- An operand that is returned has the tokens that were read.
  data Takes (ts : List Tok) : Result (Unary o.Base × ℕ × List Tok) → Type 0 where
    takes :
        {u : Unary o.Base} {s : ℕ} {us : List Tok}
        → ts ≡ print_unary printed u ++ us
        → Takes ts (ok (u, s, us))
    raised : {p : Option ℕ} {k : Message} → Takes ts (raise p k)
    thrown : Takes ts type_error
    unfinished : Takes ts out_of_fuel

  parse_postfixes-tokens :
      (u : Unary o.Base) (ts : List Tok)
      → let (v, us) = parse_postfixes u ts in
        print_unary printed u ++ ts ≡ print_unary printed v ++ us
  unfolding parse_postfixes
  parse_postfixes-tokens u [] = refl
  parse_postfixes-tokens u (t ∷ ts) =
      by_test (type_of t.type).postfix (parse_postfixes (postfixed t u) ts) (
        sym (append_assoc (print_unary printed u) (t ∷ []) ts)
        ∙ parse_postfixes-tokens (postfixed t u) ts)
    where
      by_test :
          (b : Bool) (r : Unary o.Base × List Tok)
          → print_unary printed u ++ t ∷ ts ≡ print_unary printed r.0 ++ r.1
          → print_unary printed u ++ t ∷ ts
            ≡ print_unary printed (if b then r else (u, t ∷ ts)).0
              ++ (if b then r else (u, t ∷ ts)).1
      by_test true r h = h
      by_test false r h = refl

  Takes-if :
      {ts : List Tok} (b : Bool) {x y : Result (Unary o.Base × ℕ × List Tok)}
      → Takes ts x
      → Takes ts y
      → Takes ts (if b then x else y)
  Takes-if true h k = h
  Takes-if false h k = k

  module _
      (takes_base : (ctx : ReadContext) (ts us : List Tok) (n : o.Base) (s : ℕ)
        → o.read_subscripts ctx ts ≡ ok (n, s, us)
        → ts ≡ printed n ++ us) where
    behind-Takes :
        (ctx : ReadContext) (ts : List Tok) (r : Result (o.Base × ℕ × List Tok))
        → o.read_subscripts ctx ts ≡ r
        → Takes ts (r >>= behind_subscripts o ctx)
    unfolding behind_subscripts
    behind-Takes ctx ts (ok (n, s, us)) q =
        let same : ts ≡ printed n ++ us = takes_base ctx ts us n s q in
        Takes-if (is_set ctx.shorthand s) (takes same)
          (takes (same ∙ parse_postfixes-tokens (base n) us))
    behind-Takes ctx ts (raise p k) q = raised
    behind-Takes ctx ts type_error q = thrown
    behind-Takes ctx ts out_of_fuel q = unfinished

    prefix-Takes :
        (ctx : ReadContext) (t : Tok) (ts : List Tok) {r : Result (Unary o.Base × ℕ × List Tok)}
        → Takes ts r
        → Takes (t ∷ ts) (r >>= finish_prefix o ctx t)
    unfolding finish_prefix
    prefix-Takes ctx t ts (takes h) =
        Takes-if (is_set ctx.shorthand (start_of ctx.shorthand)) raised
          (takes (ap (λ us. t ∷ us) h))
    prefix-Takes ctx t ts raised = raised
    prefix-Takes ctx t ts thrown = thrown
    prefix-Takes ctx t ts unfinished = unfinished

    parse_maybe_unary-Takes :
        (ctx : ReadContext) (ts : List Tok) → Takes ts (parse_maybe_unary o ctx ts)
    unfolding parse_maybe_unary
    parse_maybe_unary-Takes ctx [] = behind-Takes ctx [] _ refl
    parse_maybe_unary-Takes ctx (t ∷ ts) =
        Takes-if (type_of t.type).prefix
          (prefix-Takes ctx t ts (parse_maybe_unary-Takes (bare_context ctx.call_type) ts))
          (behind-Takes ctx (t ∷ ts) _ refl)

    -- The tokens of a value that is made of what is returned.
    Takes-ok :
        {A : Type 0} {ts : List Tok} {r : Result (Unary o.Base × ℕ × List Tok)}
        (f : Unary o.Base × ℕ × List Tok → A) (tokens : A → List Tok) (a : A)
        → ((u : Unary o.Base) (s : ℕ) (us : List Tok)
            → tokens (f (u, s, us)) ≡ print_unary printed u ++ us)
        → Takes ts r
        → (r >>= λ v. ok (f v)) ≡ ok a
        → ts ≡ tokens a
    Takes-ok f tokens a g (takes {u} {s} {us} h) q = h ∙ sym (g u s us) ∙ ap tokens (ok-injective q)
      where
        ok-injective : {A : Type 0} {x y : A} → ok x ≡ ok y → x ≡ y
        ok-injective e = cc
    Takes-ok f tokens a g raised q = absurd cc
    Takes-ok f tokens a g thrown q = absurd cc
    Takes-ok f tokens a g unfinished q = absurd cc

    pub read_first-takes :
        (ctx : ReadContext) (ts us : List Tok) (u : Unary o.Base) (b : Bool)
        → (unary_operands o ctx).read_first ts ≡ ok (u, b, us)
        → ts ≡ print_unary printed u ++ us
    read_first-takes ctx ts us u b q =
        Takes-ok (λ (v, s, vs). (v, is_set ctx.shorthand s, vs))
          (λ (v, c, vs). print_unary printed v ++ vs) (u, b, us) (λ v s vs. refl)
          (parse_maybe_unary-Takes ctx ts) q

    pub read-takes :
        (ctx : ReadContext) (ts us : List Tok) (u : Unary o.Base)
        → (unary_operands o ctx).read ts ≡ ok (u, us)
        → ts ≡ print_unary printed u ++ us
    read-takes ctx ts us u q =
        Takes-ok (λ (v, s, vs). (v, vs)) (λ (v, vs). print_unary printed v ++ vs) (u, us)
          (λ v s vs. refl) (parse_maybe_unary-Takes (bare_context no_call_type) ts) q
