-- ===== src/Lexer/Joining.antt =====
-- A line that is continued: the line break before it is taken from the tokens.
use tacoscript.Prelude.{
  ℕ, ◌≡◌, ◌⊎◌, ◌∙◌, inl, inr, refl, sym, ap, true, false≢true, Option, some, List, [], ◌∷◌, ◌++◌,
}
use tacoscript.Token.{newline}
use tacoscript.Token.Key.{===_iff}
use tacoscript.Token.Conf.{type_of}
use tacoscript.Reader.{Result, ok}
use tacoscript.Reader.Ends.{Ends-ok}
use tacoscript.Lexer.{State, Setup, Token, TokenValue}
use tacoscript.Lexer.Stored.{
  Stored-tokens, finish-Ends, InStep, Read, read_token, newline-continues, pop_both-top,
}
use tacoscript.Lexer.Invariant.{Enough, read_tokens-Ends}
use tacoscript.Lexer.Run.{finish, finish_token, join_line, replace_newline, pop_both, read_tokens}

-- The token with `meta.continuedPreviousLine`.
abbrev pub continued : Token → Token
continued w = record w { continued = true }

-- What the pops leave, where the token stands right above the line break.
abbrev pub Joined : Token → State → Result (Token × State) → Type 0
Joined w s r = (s₄ : State) × (r ≡ ok (continued w, s₄)) × (s₄.tokens ≡ continued w ∷ s.tokens)

module _ (e : Setup) (s : State) (u w : Token) (s₃ : State) where
  replaced-Joined :
      s₃.tokens ≡ w ∷ u ∷ s.tokens → Joined w s (replace_newline e u w s₃ (pop_both w u s₃.tokens))
  replaced-Joined y = rw (y, pop_both-top w u s.tokens) (_, refl, refl)

  -- The token that continues the line is no line break, so nothing was read behind it.
  on_newline :
      (s₁ : State) (us : List Token)
      → (type_of w.type).continues_previous_line ≡ true
      → s₁.tokens ≡ u ∷ s.tokens
      → (us ≡ []) ⊎ (w.type ≡ newline)
      → s₃.tokens ≡ us ++ w ∷ s₁.tokens
      → s₃.tokens ≡ w ∷ u ∷ s.tokens
  on_newline s₁ us c x (inl k) y = y ∙ ap (λ vs. vs ++ w ∷ s₁.tokens) k ∙ ap (λ ts. w ∷ ts) x
  on_newline s₁ us c x (inr k) y = absurd (false≢true (sym (newline-continues w.type k) ∙ c))

  join_line-Joined :
      {s₁ : State}
      → (type_of w.type).continues_previous_line ≡ true
      → s₁.tokens ≡ u ∷ s.tokens
      → Read s₁ (some w, s₃)
      → Joined w s (join_line e u (some w, s₃))
  join_line-Joined {s₁} c x (read_token us y z b) =
      rw c (replaced-Joined (on_newline s₁ us c x z y))

  finish_token-join :
      (read : State → Result (Option Token × State)) (v : TokenValue) (s₁ : State)
      → finish newline v s ≡ ok (u, s₁)
      → read s₁ ≡ ok (some w, s₃)
      → Joined w s (join_line e u (some w, s₃))
      → Joined w s (finish_token e read newline v s)
  unfolding finish_token
  finish_token-join read v s₁ f r j = rw (f, (===_iff newline newline).1 refl, r) j

-- Where a line break is finished in a state that is in step, with enough fuel, and the look behind it
-- returns a token that continues the line before it, the line break is removed from the tokens: that
-- token is returned, marked as continued, and stands right above the tokens from before the line
-- break. The two assertions about the tokens that are removed hold.
pub finish_token-Joined :
    (fuel : ℕ) (e : Setup) (s : State) (v : TokenValue) (u : Token) (s₁ : State) (w : Token)
    (s₃ : State)
    → InStep s₁
    → Enough fuel s₁
    → finish newline v s ≡ ok (u, s₁)
    → read_tokens fuel e s₁ ≡ ok (some w, s₃)
    → (type_of w.type).continues_previous_line ≡ true
    → Joined w s (finish_token e (read_tokens fuel e) newline v s)
finish_token-Joined fuel e s v u s₁ w s₃ b h f r c =
    finish_token-join e s u w s₃ (read_tokens fuel e) v s₁ f r (
      join_line-Joined e s u w s₃ c (Stored-tokens (Ends-ok (finish-Ends newline v s) f))
        (Ends-ok (read_tokens-Ends fuel e s₁ b h) r))
