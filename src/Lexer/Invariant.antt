-- ===== src/Lexer/Invariant.antt =====
-- The loop of the lexer ends, and keeps the tokens of the layout in step with the level.
use tacoscript.Prelude.{
  ℕ, zero, suc, ◌+◌, ◌<◌, ◌≡◌, ◌≢◌, ◌∙◌, inl, inr, refl, sym, ap, Bool, true, false, Option, ◌∷◌,
  ◌++◌, length, arith, Bool-cases, false≢true,
}
use tacoscript.Token.{TokType, is_layout, newline, indent, dedent}
use tacoscript.Token.Key.{◌===◌, ===_iff}
use tacoscript.Reader.{Result, ok, ◌>>=◌}
use tacoscript.Reader.Ends.{Ends, value, Ends-bind, Ends-map}
use tacoscript.Lexer.{State, Setup, Token}
use tacoscript.Lexer.Comment.{skip_line_comment}
use tacoscript.Lexer.Skip.Frame.{
  Same-le, skip_line_comment-le, Same, same, skip_line_comment-Same, skip_non_tokens-Ends,
}
use tacoscript.Lexer.Fetch.{Next}
use tacoscript.Lexer.Fits.{
  Waiting, Fits, a_token, an_indent, a_dedent, a_change, a_break, a_comment, an_end,
  next_token_of-Ends,
}
use tacoscript.Lexer.Stored.{
  Steady, plain-Steady, Stored, stored, store-InStep, InStep, in_step, Read, read_token,
  read_nothing, OnTop, on_top, Kept-tokens, Kept-le, Kept-Settled, InStep-Settled, Kept-InStep,
  steady-InStep, single-OnTop, newline-OnTop,
}
use tacoscript.Lexer.Run.{returned, run_next, read_tokens}

-- The fuel is enough: a token of the layout that is due needs no more reading behind it.
abbrev pub Enough : ℕ → State → Type 0
Enough fuel s = (0 < fuel) × (Waiting s → length s.cursor.rest + 1 < fuel)

plain-newline : (t : TokType) → is_layout t ≡ false → (t === newline) ≡ false
plain-newline t h = elim (Bool-cases (t === newline)) [
  | inl e ↦ absurd (false≢true (sym h ∙ ap is_layout ((===_iff t newline).0 e)))
  | inr e ↦ e
]

OnTop-Read : {s : State} (b : Bool) (r : Token × State) → OnTop s r → Read s (returned b r)
OnTop-Read true r (on_top us y z b) = read_token us y z b
OnTop-Read false r (on_top us y z b) = read_nothing b

Read-tokens : {s t : State} (q : Option Token × State) → t.tokens ≡ s.tokens → Read t q → Read s q
Read-tokens q e (read_token {u = u} us y z b) = read_token us (y ∙ ap (λ ts. us ++ u ∷ ts) e) z b
Read-tokens q e (read_nothing b) = read_nothing b

newline-Steady : Steady newline
newline-Steady = (refl, refl, λ n. refl)

not_due :
    (s' s₁ : State)
    → s'.indents.next_indentation ≢ s'.indents.indentation
    → s₁.indents.indentation ≡ s'.indents.indentation
    → s₁.indents.next_indentation ≡ s'.indents.next_indentation
    → s₁.lex.type ≡ newline
    → Waiting s₁
    → ⊥
not_due s' s₁ d z n m (inl h) = d (sym n ∙ h ∙ z)
not_due s' s₁ d z n m (inr h) = h m

-- Behind a comment, less is left.
comment-lt :
    (e : Setup) (k : ℕ) (s' : State) {t : State}
    → 0 < k
    → 0 < length s'.cursor.rest
    → Same (skip_line_comment e k s') t
    → length t.cursor.rest < length s'.cursor.rest
comment-lt e k s' p l m = omega (arith, Same-le m, skip_line_comment-le e k s')

Same-tokens : {s t : State} → Same s t → t.tokens ≡ s.tokens
Same-tokens (same a b c d e f g l) = a

Same-InStep : {s t : State} → Same s t → InStep s → InStep t
Same-InStep (same a b c d e f g l) (in_step x h) =
    in_step (rw (a, b) x) (λ k. let (z, n) = h (sym d ∙ k) in (b ∙ z, c ∙ n))

module _ (fuel : ℕ) (e : Setup) (read : State → Result (Option Token × State))
    (reads : (t : State) → InStep t → Enough fuel t → Ends (Read t) (read t)) (s : State)
    (b : InStep s) (enough : Enough (suc fuel) s) where
  finished-Read :
      (c : Bool) {r : Result (Token × State)}
      → Ends (OnTop s) r
      → Ends (Read s) (r >>= λ v. ok (returned c v))
  finished-Read c h = Ends-bind _ h (λ v k. value (OnTop-Read c v k))

  -- Behind a line break for a change of the level, no line break is read.
  changed-Enough :
      {s' s₁ : State} {u : Token}
      → Waiting s
      → s'.indents.next_indentation ≢ s'.indents.indentation
      → Stored newline s' (u, s₁)
      → Enough fuel s₁
  changed-Enough {s'} {s₁} w d (stored x y z c n m q) =
      (omega (arith, enough.1 w), λ h. absurd (not_due s' s₁ d z n m h))

  break-Enough :
      {s' s₁ : State} {u : Token}
      → Waiting s
      → length s'.cursor.rest < length s.cursor.rest
      → Stored newline s' (u, s₁)
      → Enough fuel s₁
  break-Enough w l (stored x y z c n m q) =
      (omega (arith, enough.1 w), λ h. omega (arith, enough.1 w, ap (λ v. length v.rest) q))

  run_next-Ends : (n : Next) → Fits s n → Ends (Read s) (run_next e read n)
  run_next-Ends n (a_token {b = c} {t} {v} {s'} h k) = finished-Read c (
      single-OnTop e read t v s' (plain-newline t h) k
        (λ u s₁ st. steady-InStep t (plain-Steady t h) k b st))
  run_next-Ends n (an_indent {v} {s'} h k) = finished-Read true (
      single-OnTop e read indent v s' (unfold ◌===◌ in refl) k
        (λ u s₁ st. store-InStep indent k b st (λ q. absurd (h q)) (omega arith)))
  run_next-Ends n (a_dedent {v} {s'} h k) = finished-Read true (
      single-OnTop e read dedent v s' (unfold ◌===◌ in refl) k (λ u s₁ st.
        store-InStep dedent k b st (λ q. omega (arith, (Kept-Settled k q).0)) (omega arith)))
  run_next-Ends n (a_change {v} {s'} w d k) = finished-Read true (
      newline-OnTop e read v s' k
        (λ u s₁ st. reads s₁ (steady-InStep newline newline-Steady k b st) (changed-Enough w d st)))
  run_next-Ends n (a_break {v} {s'} w l k) = finished-Read true (
      newline-OnTop e read v s' k
        (λ u s₁ st. reads s₁ (steady-InStep newline newline-Steady k b st) (break-Enough w l st)))
  run_next-Ends n (a_comment {k = c} {s'} w p l k) =
      Ends-bind _ (skip_non_tokens-Ends e (length e.input) (skip_line_comment e c s')) (λ t m.
        let bal = Same-InStep m (Same-InStep (skip_line_comment-Same e c s') (Kept-InStep k b)) in
        Ends-map
          (reads t bal (
            omega (arith, enough.1 w),
            λ h. omega (arith, enough.1 w, comment-lt e c s' p l m, Kept-le k),
          ))
          (λ q rd.
            Read-tokens q
              (Same-tokens m ∙ Same-tokens (skip_line_comment-Same e c s') ∙ Kept-tokens k) rd))
  run_next-Ends n (an_end k) = value (read_nothing (Kept-InStep k b))

-- From such a state, with enough fuel, `readNextToken` ends, and what it returns is as `Read`
-- says.
pub read_tokens-Ends :
    (fuel : ℕ) (e : Setup) (s : State)
    → InStep s
    → Enough fuel s
    → Ends (Read s) (read_tokens fuel e s)
unfolding read_tokens
read_tokens-Ends zero e s b h = absurd (omega (arith, h.0))
read_tokens-Ends (suc fuel) e s b h =
    Ends-bind _ (next_token_of-Ends e s (InStep-Settled b))
      (λ n f. run_next-Ends fuel e (read_tokens fuel e) (λ t. read_tokens-Ends fuel e t) s b h n f)
