-- ===== src/Lexer/Closing.antt =====
-- At the end of the input the lexer closes the open blocks: a line break and a dedent for each.
pub mod Finish
use tacoscript.Prelude.{
  ℕ, zero, suc, ◌+◌, ◌-◌, ◌<◌, ◌≡◌, ◌≢◌, ◌⊎◌, ◌∙◌, inl, inr, refl, sym, ap, Bool, true, false, not,
  ◌&&◌, false≢true, Option, none, some, List, [], ◌∷◌, map, if◌then◌else◌, ltb, ◌==◌, ==_iff,
  lt→ltb, length, arith, Bool-cases, if-true, if-false, if-either, subst, get_elem?, ◌≤◌,
}
use tacoscript.Token.{TokType, newline, dedent, eof}
use tacoscript.Token.Key.{◌===◌, ===_iff}
use tacoscript.Token.Conf.{type_of}
use tacoscript.Text.{Chars}
use tacoscript.Reader.{peek, Result, ok, ◌>>=◌}
use tacoscript.Reader.Ends.{Ends-ok}
use tacoscript.Context.{update_context}
use tacoscript.Context.Stack.{
  IsGrounded, update_context-newline, update_context-eof, update_context-dedent, Succeeds,
}
use tacoscript.Lexer.{State, Setup, Token, TokenValue, label}
use tacoscript.Lexer.Skip.AtEnd.{AtEnd, AtEnd-Same, Skips, skips_to, skip_to_token-Skips}
use tacoscript.Lexer.Skip.Frame.{Same, same, Same_refl, Same_trans, take_indentation-Same}
use tacoscript.Lexer.Fetch.{
  is_empty, Next, finishing, plainly, next_token_of, skip_to_token, skips, from_start, at_input_end,
  change_level, start_token_lex,
}
use tacoscript.Lexer.Run.{
  level_behind, store_token, join_line, returned, run_next, finish, finish_token, read_tokens,
  read_next_token,
}

-- The level and the context of the state, at the end of the input.
pub data Ready (n : ℕ) (s : State) : Type 0 where
  ready :
      AtEnd s
      → s.indents.indentation ≡ n
      → IsGrounded s.context.context
      → (s.indents.next_indentation ≡ n)
        ⊎ ((s.indents.next_indentation ≡ 0) × (s.lex.type ≡ dedent))
      → Ready n s

-- A line break is due, with nothing changed but that the next level is 0.
data Due (n : ℕ) (s : State) : Result Next → Type 0 where
  due :
      {s₁ : State}
      → s₁.tokens ≡ s.tokens
      → AtEnd s₁
      → s₁.indents.indentation ≡ n
      → s₁.indents.next_indentation ≡ 0
      → IsGrounded s₁.context.context
      → Due n s (ok (plainly newline s₁))

dedent-ne-newline : (t : TokType) → t ≡ dedent → (t === newline) ≡ false
unfolding ◌===◌
dedent-ne-newline t h = rw h refl

test-differ : (a b n : ℕ) → a ≡ 0 → b ≡ suc n → (a == b) ≡ false
test-differ a b n h k = ground arith

module _ (e : Setup) (n : ℕ) (s : State) where
  change_level-newline :
      s.indents.next_indentation ≡ 0
      → (s.lex.type === newline) ≡ false
      → change_level (record s { prev_lex_type = s.lex.type })
        ≡ plainly newline (record s { prev_lex_type = s.lex.type })
  change_level-newline h k =
      if-false (ltb s.indents.indentation s.indents.next_indentation) _ _ (ground arith)
      ∙ if-false (s.lex.type === newline) _ _ k

  at_input_end-Due :
      (t : State)
      → s.indents.indentation ≡ suc n
      → AtEnd s
      → IsGrounded s.context.context
      → Same (record s { prev_lex_type = s.lex.type }) t
      → Due (suc n) s (from_start e s.context.context (start_token_lex t))
  at_input_end-Due t i h g k = by_same (AtEnd-Same h k) k
    where
      by_same :
          AtEnd t
          → Same (record s { prev_lex_type = s.lex.type }) t
          → Due (suc n) s (from_start e s.context.context (start_token_lex t))
      by_same z (same a b c d x f p l) =
          subst (Due (suc n) s)
            (sym (
              if-true (is_empty t.cursor.rest) _ _ (ap is_empty z)
              ∙ ap ok (if-true (ltb 0 t.indents.indentation) _ _ (ground arith))))
            (due a z (b ∙ i) refl (subst (λ q. IsGrounded q.context) (sym f) g))

  next_token_of-Due : Ready (suc n) s → Due (suc n) s (next_token_of e s)
  unfolding next_token_of
  next_token_of-Due (ready h i g (inr (z, d))) =
      subst (Due (suc n) s)
        (sym (
          if-true (not (s.indents.next_indentation == s.indents.indentation)) _ _
            (ap not (test-differ s.indents.next_indentation s.indents.indentation n z i))
          ∙ ap ok (change_level-newline z (dedent-ne-newline s.lex.type d))))
        (due refl h i z g)
  next_token_of-Due (ready h i g (inl z)) =
      subst (Due (suc n) s)
        (sym (
          if-false (not (s.indents.next_indentation == s.indents.indentation)) _ _
            (ap not ((==_iff _ _).1 (z ∙ sym i)))))
        (behind (skip_to_token-Skips e (record s { prev_lex_type = s.lex.type }) h))
    where
      behind :
          {r : Result State}
          → Skips (record s { prev_lex_type = s.lex.type }) r
          → Due (suc n) s (r >>= λ t. from_start e s.context.context (start_token_lex t))
      behind (skips_to {t} k) = at_input_end-Due t i h g k

-- The token is stored, with the context updated.
pub data Finishes (t : TokType) (s : State) : Result (Token × State) → Type 0 where
  finishes :
      {u : Token} {s' : State}
      → u.type ≡ t
      → s'.tokens ≡ u ∷ s.tokens
      → s'.indents.indentation ≡ level_behind t s.indents.indentation
      → s'.indents.next_indentation ≡ s.indents.next_indentation
      → s'.lex.type ≡ t
      → s'.cursor ≡ s.cursor
      → IsGrounded s'.context.context
      → Finishes t s (ok (u, s'))

pub finish-Finishes :
    (t : TokType) (v : TokenValue) (s : State)
    → Succeeds (update_context t s.lex.type s.context)
    → Finishes t s (finish t v s)
unfolding finish
finish-Finishes t v s (c, h, g) =
    subst (λ o. Finishes t s (store_token t v s o)) (sym h)
      (finishes refl refl refl refl refl refl g)

-- The dedent behind a line break: one level less.
data Dedents (n : ℕ) (ts : List Token) : Result (Option Token × State) → Type 0 where
  dedents :
      {d : Token} {s' : State}
      → d.type ≡ dedent
      → s'.tokens ≡ d ∷ ts
      → s'.lex.type ≡ dedent
      → Ready n s'
      → Dedents n ts (ok (some d, s'))

-- A line break and a dedent, with one level less.
pub data Closes (n : ℕ) (s : State) : Result (Option Token × State) → Type 0 where
  closes :
      {o : Option Token} {s' : State}
      → map (λ t. t.type) s'.tokens ≡ dedent ∷ newline ∷ map (λ t. t.type) s.tokens
      → s'.lex.type ≡ dedent
      → Ready n s'
      → Closes n s (ok (o, s'))

module _ (e : Setup) (n : ℕ) where
  change_level-dedent :
      (s : State)
      → s.indents.next_indentation ≡ 0
      → s.lex.type ≡ newline
      → change_level (record s { prev_lex_type = s.lex.type })
        ≡ plainly dedent (record s { prev_lex_type = s.lex.type })
  change_level-dedent s h k =
      if-false (ltb s.indents.indentation s.indents.next_indentation) _ _ (ground arith)
      ∙ if-true (s.lex.type === newline) _ _ ((===_iff s.lex.type newline).1 k)

  next_token_of-dedent :
      (s : State)
      → s.indents.indentation ≡ suc n
      → s.indents.next_indentation ≡ 0
      → s.lex.type ≡ newline
      → next_token_of e s ≡ ok (plainly dedent (record s { prev_lex_type = s.lex.type }))
  unfolding next_token_of
  next_token_of-dedent s i z l =
      if-true (not (s.indents.next_indentation == s.indents.indentation)) _ _
        (ap not (test-differ s.indents.next_indentation s.indents.indentation n z i))
      ∙ ap ok (change_level-dedent s z l)

  behind-dedent :
      (read : State → Result (Option Token × State)) (s : State) {r : Result (Token × State)}
      → AtEnd s
      → s.indents.indentation ≡ suc n
      → s.indents.next_indentation ≡ 0
      → Finishes dedent s r
      → Dedents n s.tokens (
          (r >>= λ (token, s').
          (let joined = (read s' >>= join_line e token) in
            if dedent === newline then joined else ok (token, s')))
          >>= λ q. ok (returned true q))
  unfolding ◌===◌
  behind-dedent read s h i z (finishes x y w m l c g) =
      dedents x y l (ready (ap (λ v. v.rest) c ∙ h) (omega (arith, w, i)) g (inr (m ∙ z, l)))

  read_tokens-Dedents :
      (fuel : ℕ) (s : State)
      → AtEnd s
      → s.indents.indentation ≡ suc n
      → s.indents.next_indentation ≡ 0
      → s.lex.type ≡ newline
      → IsGrounded s.context.context
      → Dedents n s.tokens (read_tokens (suc fuel) e s)
  unfolding read_tokens finish_token
  read_tokens-Dedents fuel s h i z l g =
      subst (λ r. Dedents n s.tokens (r >>= run_next e (read_tokens fuel e)))
        (sym (next_token_of-dedent s i z l))
        (behind-dedent (read_tokens fuel e) (record s { prev_lex_type = s.lex.type }) h i z
          (finish-Finishes dedent _ (record s { prev_lex_type = s.lex.type })
            (update_context-dedent s.lex.type s.context g)))

  dedent-continues : (t : TokType) → t ≡ dedent → (type_of t).continues_previous_line ≡ false
  unfolding type_of
  dedent-continues t h = rw h refl

  join_line-Closes :
      (s s₁ s₂ : State) (u : Token) {q : Result (Option Token × State)}
      → s₁.tokens ≡ s.tokens
      → u.type ≡ newline
      → s₂.tokens ≡ u ∷ s₁.tokens
      → Dedents n s₂.tokens q
      → Closes n s (q >>= join_line e u >>= λ r. ok (returned true r))
  join_line-Closes s s₁ s₂ u a x y (dedents {d} {s' = s₃} k t l r) =
      subst (λ v. Closes n s (v >>= λ r. ok (returned true r)))
        (sym (if-false (type_of d.type).continues_previous_line _ _ (dedent-continues d.type k)))
        (closes
          (ap (map (λ v. v.type)) (t ∙ ap (λ ts. d ∷ ts) (y ∙ ap (λ ts. u ∷ ts) a)) ∙ types k x) l
          r)
    where
      types :
          d.type ≡ dedent
          → u.type ≡ newline
          → d.type ∷ u.type ∷ map (λ v. v.type) s.tokens
            ≡ dedent ∷ newline ∷ map (λ v. v.type) s.tokens
      types k x = rw (k, x) refl

  newline-Closes :
      (fuel : ℕ) (s s₁ : State) {r : Result (Token × State)}
      → s₁.tokens ≡ s.tokens
      → AtEnd s₁
      → s₁.indents.indentation ≡ suc n
      → s₁.indents.next_indentation ≡ 0
      → Finishes newline s₁ r
      → Closes n s (
          (r >>= λ (token, s'). (read_tokens (suc fuel) e s' >>= join_line e token)) >>= λ q.
          ok (returned true q))
  newline-Closes fuel s s₁ a h i z (finishes {u} {s' = s₂} x y w m l c g) =
      join_line-Closes s s₁ s₂ u a x y
        (read_tokens-Dedents fuel s₂ (ap (λ v. v.rest) c ∙ h) (w ∙ i) (m ∙ z) l g)

  -- A read where a level is open: a line break, and with the look behind it a dedent.
  pub read_tokens-Closes :
      (fuel : ℕ) (s : State) → Ready (suc n) s → Closes n s (read_tokens (suc (suc fuel)) e s)
  unfolding read_tokens finish_token ◌===◌
  read_tokens-Closes fuel s r = behind (next_token_of-Due e n s r)
    where
      behind :
          {x : Result Next}
          → Due (suc n) s x
          → Closes n s (x >>= run_next e (read_tokens (suc fuel) e))
      behind (due {s₁} a h i z g) =
          newline-Closes fuel s s₁ a h i z
            (finish-Finishes newline _ s₁ (_, update_context-newline s₁.lex.type s₁.context, g))
