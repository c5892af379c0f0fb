-- ===== src/Examples/Tree.antt =====
-- Runs of the operator parser: `a + -b * c++`, with names for what stands between the operators.
use tacoscript.Prelude.{
  ℕ, ◌≡◌, refl, ap, ◌∙◌, Bool, true, false, none, some, List, [], ◌∷◌, ◌++◌, if◌then◌else◌,
}
use tacoscript.Token.{name, plus_min, star, inc_dec}
use tacoscript.Token.Conf.{type_of}
use tacoscript.Token.Key.{◌===◌, ===_iff, index}
use tacoscript.Text.{Chars}
use tacoscript.Reader.{Result, ok, raise, ◌>>=◌, unexpected_character}
use tacoscript.Operators.{Tok, Expr, operand, binary, prec, parse_operator, parse_operators}
use tacoscript.Operators.Sound.{Left, parse_operators-Arranged}
use tacoscript.Operators.RoundTrip.{print, Arranged, leaf, node, parse_operators-print}
use tacoscript.Operators.Unary.{
  ReadContext, CallType, no_call_type, Subscripts, Unary, base, prefixed, postfixed, unary_operands,
  bare_operands, bare_context, parse_maybe_unary, parse_postfixes, behind_subscripts,
}
use tacoscript.Operators.Unary.Laws.{
  print_unary, no_prefix, no_posts, more_posts, Proper, plain, more, Behind, operator-Behind,
  read-print, read_first-print,
}
use tacoscript.Operators.Unary.Taken.{read_first-takes, read-takes}

abbrev named : Chars → Tok
named v = record { type = name; value = v }

abbrev name_tokens : Chars → List Tok
name_tokens v = named v ∷ []

-- A name, whatever the context.
read_name : List Tok → Result (Chars × ℕ × List Tok)
read_name [] = raise none unexpected_character
read_name (t ∷ ts) =
    if t.type === name then ok (t.value, 0, ts) else raise none unexpected_character

abbrev names : Subscripts
names = record { Base = Chars; read_subscripts = λ _ ts. read_name ts; is_bare_unary = λ _. false }

-- The same, where each name leaves a shorthand default at position 1.
abbrev patterns : Subscripts
patterns = record {
  Base = Chars;
  read_subscripts = λ _ ts. read_name ts >>= λ (v, s, us). ok (v, 1, us);
  is_bare_unary = λ _. false;
}

abbrev plus : Tok
plus = record { type = plus_min; value = b'+' ∷ [] }

abbrev minus : Tok
minus = record { type = plus_min; value = b'-' ∷ [] }

abbrev times : Tok
times = record { type = star; value = b'*' ∷ [] }

abbrev increment : Tok
increment = record { type = inc_dec; value = b'+' ∷ b'+' ∷ [] }

abbrev sum_tokens : List Tok
sum_tokens =
    named (b'a' ∷ [])
    ∷ plus
    ∷ minus
    ∷ named (b'b' ∷ [])
    ∷ times
    ∷ named (b'c' ∷ [])
    ∷ increment
    ∷ []

abbrev sum_of_product : Expr (Unary Chars)
sum_of_product = binary plus (operand (base (b'a' ∷ []))) (
    binary times (operand (prefixed minus (base (b'b' ∷ []))))
      (operand (postfixed increment (base (b'c' ∷ [])))))

-- Behind a first operand with a shorthand default no operator is read.
shorthand_alone :
    parse_operators
      (unary_operands patterns (record { call_type = no_call_type; shorthand = some 0 }))
      false
      sum_tokens
    ≡ ok (
      operand (base (b'a' ∷ [])),
      plus ∷ minus ∷ named (b'b' ∷ []) ∷ times ∷ named (b'c' ∷ []) ∷ increment ∷ [],
    )
unfolding parse_operators parse_operator parse_maybe_unary parse_postfixes behind_subscripts
    read_name ◌===◌ index type_of
shorthand_alone = refl

no_prefix_name : (n : Chars) (ts : List Tok) → no_prefix (named n ∷ ts) ≡ true
unfolding type_of
no_prefix_name n ts = refl

reads_name :
    (c : CallType) (n : Chars) (ts : List Tok) → Unit {0} → read_name (named n ∷ ts) ≡ ok (n, 0, ts)
unfolding read_name ◌===◌ index
reads_name c n ts u = refl

parse_operators-print_example :
    parse_operators (bare_operands names no_call_type) false sum_tokens ≡ ok (sum_of_product, [])
unfolding prec type_of ◌===◌ index
parse_operators-print_example =
    parse_operators-print (bare_operands names no_call_type) false (print_unary name_tokens) Proper
      (Behind names name_tokens (λ _. Unit {0}) reads_name no_prefix_name (λ _ _ _. tt))
      (read-print names name_tokens (λ _. Unit {0}) reads_name no_prefix_name (λ _ _ _. tt)
        no_call_type)
      (operator-Behind names name_tokens (λ _. Unit {0}) reads_name no_prefix_name (λ _ _ _. tt)
        false (λ _ _ _. tt))
      (λ _. false)
      (read_first-print names name_tokens (λ _. Unit {0}) reads_name no_prefix_name (λ _ _ _. tt)
        no_call_type)
      sum_of_product [] (node refl refl refl refl leaf (node refl refl refl refl leaf leaf)) refl
      (plain no_posts, (more refl (plain no_posts), plain (more_posts refl no_posts))) (tt, refl)

ok-injective : {a b : Chars × ℕ × List Tok} → ok a ≡ ok b → a ≡ b
ok-injective e = cc

name_if : Bool → Tok → List Tok → Result (Chars × ℕ × List Tok)
name_if b t ts = if b then ok (t.value, 0, ts) else raise none unexpected_character

read_name-front :
    (ctx : ReadContext) (ts us : List Tok) (n : Chars) (s : ℕ)
    → read_name ts ≡ ok (n, s, us)
    → ts ≡ named n ∷ us
unfolding read_name name_if
read_name-front ctx [] us n s e = absurd cc
read_name-front ctx (t ∷ ts) us n s e = by_test (t.type === name) refl e
  where
    by_test :
        (b : Bool) → (t.type === name) ≡ b → name_if b t ts ≡ ok (n, s, us) → t ∷ ts ≡ named n ∷ us
    by_test true h e =
        let p : t.type ≡ name = (===_iff t.type name).0 h in
        (λ i. record { type = p i; value = t.value } ∷ ts)
        ∙ ap (λ (v, _, vs). named v ∷ vs) (ok-injective e)
    by_test false h e = absurd cc

parse_operators-Arranged_example :
    Arranged (bare_operands names no_call_type) false (print_unary name_tokens) sum_of_product
    × (sum_tokens
        ≡ print (bare_operands names no_call_type) false (print_unary name_tokens) sum_of_product
          ++ [])
    × Left
        (bare_operands names no_call_type)
        false
        (print_unary name_tokens)
        sum_tokens
        sum_of_product
        []
parse_operators-Arranged_example =
    parse_operators-Arranged (bare_operands names no_call_type) false (print_unary name_tokens)
      (read-takes names name_tokens read_name-front (bare_context no_call_type))
      (read_first-takes names name_tokens read_name-front (bare_context no_call_type)) sum_tokens []
      sum_of_product parse_operators-print_example
