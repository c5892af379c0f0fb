-- ===== src/Lexer/Closing/Finish.antt =====
-- At the end of the input, reading again and again closes every open block, and reaches `eof`.
use tacoscript.Prelude.{
  ℕ, zero, suc, ◌+◌, ◌≡◌, ◌⊎◌, ◌∙◌, inl, inr, refl, sym, ap, true, false, not, Option, ◌||◌, List,
  [], ◌∷◌, map, if◌then◌else◌, ltb, ◌==◌, ==_iff, length, arith, if-true, if-false, subst,
}
use tacoscript.Token.{TokType, newline, dedent, eof}
use tacoscript.Token.Key.{◌===◌}
use tacoscript.Reader.{Result, ok, ◌>>=◌}
use tacoscript.Context.Stack.{IsGrounded, update_context-eof}
use tacoscript.Lexer.{State, Setup, Token}
use tacoscript.Lexer.Skip.AtEnd.{AtEnd, AtEnd-Same, Skips, skips_to, skip_to_token-Skips}
use tacoscript.Lexer.Skip.Frame.{Same, same}
use tacoscript.Lexer.Fetch.{is_empty, next_token_of, from_start, start_token_lex}
use tacoscript.Lexer.Closing.{
  Ready, ready, Closes, closes, Finishes, finishes, finish-Finishes, read_tokens-Closes,
}
use tacoscript.Lexer.Run.{
  join_line, returned, run_next, join_line, returned, run_next, finish_token, read_tokens,
  read_next_token,
}

-- Reading once and again, `n` times.
abbrev pub read_again : ℕ → Setup → State → Result State
read_again zero e s = ok s
read_again (suc n) e s = read_next_token e s >>= λ (_, s'). read_again n e s'

-- The `eof` is finished.
data Finished (s : State) : Result (Option Token × State) → Type 0 where
  finished :
      {o : Option Token} {s' : State}
      → map (λ t. t.type) s'.tokens ≡ eof ∷ map (λ t. t.type) s.tokens
      → s'.indents.indentation ≡ 0
      → Finished s (ok (o, s'))

module _ (e : Setup) where
  eof-Finished :
      (s t : State) (read : State → Result (Option Token × State)) {r : Result (Token × State)}
      → t.tokens ≡ s.tokens
      → t.indents.indentation ≡ 0
      → Finishes eof t r
      → Finished s (
          (r >>= λ (token, s').
          (let joined = (read s' >>= join_line e token) in
            if eof === newline then joined else ok (token, s')))
          >>= λ q. ok (returned true q))
  unfolding ◌===◌
  eof-Finished s t read a i (finishes {u} x y w m l c g) =
      finished
        (ap (map (λ v. v.type)) (y ∙ ap (λ ts. u ∷ ts) a)
          ∙ ap (λ v. v ∷ map (λ q. q.type) s.tokens) x)
        (w ∙ i)

  from_start-Finished :
      (fuel : ℕ) (s t : State)
      → Same (record s { prev_lex_type = s.lex.type }) t
      → AtEnd s
      → s.indents.indentation ≡ 0
      → (s.lex.type === eof) ≡ false
      → IsGrounded s.context.context
      → Finished s
          (from_start e s.context.context (start_token_lex t) >>= run_next e (read_tokens fuel e))
  unfolding finish_token
  from_start-Finished fuel s t k h i n g = by_same (AtEnd-Same h k) k
    where
      by_same :
          AtEnd t
          → Same (record s { prev_lex_type = s.lex.type }) t
          → Finished s (
              from_start e s.context.context (start_token_lex t)
              >>= run_next e (read_tokens fuel e))
      by_same z (same a b c d x f p l) =
          subst (λ r. Finished s (r >>= run_next e (read_tokens fuel e)))
            (sym (
              if-true (is_empty t.cursor.rest) _ _ (ap is_empty z)
              ∙ ap ok (
                  if-false (ltb 0 t.indents.indentation) _ _ (ground arith)
                  ∙ if-true (not (t.lex.type === eof) || length t.tokens == 0) _ _
                      (ap (λ b. not b || length t.tokens == 0) (ap (λ u. u === eof) x ∙ n)))))
            (eof-Finished s (start_token_lex t) (read_tokens fuel e) a (b ∙ i) (
              finish-Finishes eof _ (start_token_lex t) (
                _,
                update_context-eof t.lex.type t.context,
                subst (λ q. IsGrounded q.context) (sym f) g,
              )))

  read_tokens-Finished :
      (fuel : ℕ) (s : State)
      → Ready 0 s
      → (s.lex.type === eof) ≡ false
      → Finished s (read_tokens (suc fuel) e s)
  unfolding read_tokens next_token_of
  read_tokens-Finished fuel s (ready h i g z) n =
      subst (λ r. Finished s (r >>= run_next e (read_tokens fuel e)))
        (sym (
          if-false (not (s.indents.next_indentation == s.indents.indentation)) _ _
            (ap not ((==_iff _ _).1 (level z ∙ sym i)))))
        (behind (skip_to_token-Skips e (record s { prev_lex_type = s.lex.type }) h))
    where
      level :
          (s.indents.next_indentation ≡ 0)
            ⊎ ((s.indents.next_indentation ≡ 0) × (s.lex.type ≡ dedent))
          → s.indents.next_indentation ≡ 0
      level (inl k) = k
      level (inr (k, d)) = k

      behind :
          {r : Result State}
          → Skips (record s { prev_lex_type = s.lex.type }) r
          → Finished s (
              (r >>= λ t. from_start e s.context.context (start_token_lex t))
              >>= run_next e (read_tokens fuel e))
      behind (skips_to {t} k) = from_start-Finished fuel s t k h i n g

-- The types of the tokens with `n` open blocks closed.
abbrev pub closed : ℕ → List TokType → List TokType
closed zero ts = ts
closed (suc n) ts = closed n (dedent ∷ newline ∷ ts)

-- All blocks are closed, and the end is reached.
abbrev pub ReachesEnd : ℕ → Setup → State → Type 0
ReachesEnd n e s =
    (s' : State) × (read_again (suc n) e s ≡ ok s')
    × (map (λ t. t.type) s'.tokens ≡ eof ∷ closed n (map (λ t. t.type) s.tokens))
    × (s'.indents.indentation ≡ 0)

read_next_token-fuel :
    (e : Setup) (s : State)
    → read_next_token e s ≡ read_tokens (suc (suc (length s.cursor.rest))) e s
unfolding read_next_token
read_next_token-fuel e s = ap (λ n. read_tokens n e s) (two (length s.cursor.rest))
  where
    two : (n : ℕ) → n + 2 ≡ suc (suc n)
    two n = omega arith

eof-ne-dedent : (t : TokType) → t ≡ dedent → (t === eof) ≡ false
unfolding ◌===◌
eof-ne-dedent t h = rw h refl

Ready-ReachesEnd :
    (n : ℕ) (e : Setup) (s : State) → Ready n s → (s.lex.type === eof) ≡ false → ReachesEnd n e s
Ready-ReachesEnd zero e s r k =
    last s (read_next_token-fuel e s) (read_tokens-Finished e (suc (length s.cursor.rest)) s r k)
  where
    last :
        (s : State) {q r : Result (Option Token × State)}
        → r ≡ q
        → Finished s q
        → (s' : State) × ((r >>= λ (_, t). ok t) ≡ ok s')
          × (map (λ t. t.type) s'.tokens ≡ eof ∷ map (λ t. t.type) s.tokens)
          × (s'.indents.indentation ≡ 0)
    last s h (finished x i) = (_, ap (λ v. v >>= λ (_, t). ok t) h, x, i)
Ready-ReachesEnd (suc n) e s r k =
    further (λ t r' q. Ready-ReachesEnd n e t r' q) (read_next_token-fuel e s)
      (read_tokens-Closes e n (length s.cursor.rest) s r)
  where
    further :
        {q r : Result (Option Token × State)}
        → ((t : State) → Ready n t → (t.lex.type === eof) ≡ false → ReachesEnd n e t)
        → r ≡ q
        → Closes n s q
        → (s' : State) × ((r >>= λ (_, t). read_again (suc n) e t) ≡ ok s')
          × (map (λ t. t.type) s'.tokens
              ≡ eof ∷ closed n (dedent ∷ newline ∷ map (λ t. t.type) s.tokens))
          × (s'.indents.indentation ≡ 0)
    further again h (closes {s' = t} x l r') =
        let (s', c, y, i) = again t r' (eof-ne-dedent t.lex.type l) in
        (
          s',
          ap (λ v. v >>= λ (_, u). read_again (suc n) e u) h ∙ c,
          y ∙ ap (λ ts. eof ∷ closed n ts) x,
          i,
        )

-- From a state at the end of the input with `n` levels open, no change of the level due, a context
-- stack that is grounded and an `eof` not yet finished, `n + 1` reads return: they add a line break
-- and a dedent for each open level, then one `eof`, and no level is left open.
pub read_again-ReachesEnd :
    (e : Setup) (s : State)
    → s.cursor.rest ≡ []
    → s.indents.next_indentation ≡ s.indents.indentation
    → IsGrounded s.context.context
    → (s.lex.type === eof) ≡ false
    → ReachesEnd s.indents.indentation e s
read_again-ReachesEnd e s h i g k =
    Ready-ReachesEnd s.indents.indentation e s (ready h refl g (inl i)) k
