-- ===== src/Lexer/Stored.antt =====
-- What `finishToken` stores, behind a line break, too, keeps the tokens of the layout in step with
-- the level.
use tacoscript.Prelude.{
  ℕ, ◌+◌, ◌≤◌, ◌≡◌, ◌⊎◌, ◌∙◌, inl, inr, refl, sym, ap, true, false, Option, none, some, List, [],
  ◌∷◌, ◌++◌, append_assoc, length, arith, false≢true, subst, ==_iff,
}
use tacoscript.Token.{TokType, is_layout, newline, indent, dedent}
use tacoscript.Token.Key.{◌===◌, ===_iff}
use tacoscript.Token.Conf.{type_of}
use tacoscript.Reader.{Result}
use tacoscript.Reader.Ends.{Ends, value, thrown, Ends-if, Ends-bind}
use tacoscript.Context.{ContextState, update_context}
use tacoscript.Lexer.{State, Setup, Token, TokenValue}
use tacoscript.Lexer.Fits.{Settled, Kept, kept}
use tacoscript.Lexer.Run.{
  level_behind, store_token, finish, pop_both, replace_newline, join_line, finish_token,
}

-- How many tokens of the array have the type.
abbrev pub count : (TokType → ℕ) → List Token → ℕ
count weight [] = 0
count weight (t ∷ ts) = weight t.type + count weight ts

abbrev pub indents_of : TokType → ℕ
indents_of indent = 1
indents_of _ = 0

abbrev pub dedents_of : TokType → ℕ
dedents_of dedent = 1
dedents_of _ = 0

-- The `indent` tokens are as many as the level and the `dedent` tokens together, and there is no
-- level without an indentation character.
pub data InStep (s : State) : Type 0 where
  in_step :
      count indents_of s.tokens ≡ s.indents.indentation + count dedents_of s.tokens
      → Settled s
      → InStep s

-- A type that counts for nothing.
abbrev pub Steady : TokType → Type 0
Steady t = (indents_of t ≡ 0) × (dedents_of t ≡ 0) × ((n : ℕ) → level_behind t n ≡ n)

pub plain-Steady : (t : TokType) → is_layout t ≡ false → Steady t
plain-Steady indent h = absurd cc
plain-Steady dedent h = absurd cc
plain-Steady _ h = (refl, refl, λ n. refl)

-- The token that `finish` stores, on top of the array.
pub data Stored (t : TokType) (s : State) : Token × State → Type 0 where
  stored :
      {u : Token} {s' : State}
      → u.type ≡ t
      → s'.tokens ≡ u ∷ s.tokens
      → s'.indents.indentation ≡ level_behind t s.indents.indentation
      → s'.indents.indent_char_code ≡ s.indents.indent_char_code
      → s'.indents.next_indentation ≡ s.indents.next_indentation
      → s'.lex.type ≡ t
      → s'.cursor ≡ s.cursor
      → Stored t s (u, s')

store_token-Ends :
    (t : TokType) (v : TokenValue) (s : State) (o : Option ContextState)
    → Ends (Stored t s) (store_token t v s o)
store_token-Ends t v s none = thrown
store_token-Ends t v s (some c) = value (stored refl refl refl refl refl refl refl)

pub finish-Ends : (t : TokType) (v : TokenValue) (s : State) → Ends (Stored t s) (finish t v s)
unfolding finish
finish-Ends t v s = store_token-Ends t v s (update_context t s.lex.type s.context)

-- The stored token leaves the tokens and the level in step.
pub store-InStep :
    (t : TokType) {s s' s₁ : State} {u : Token}
    → Kept s s'
    → InStep s
    → Stored t s' (u, s₁)
    → (s'.indents.indent_char_code ≡ none → level_behind t s'.indents.indentation ≡ 0)
    → indents_of t + s'.indents.indentation ≡ level_behind t s'.indents.indentation + dedents_of t
    → InStep s₁
store-InStep t (kept a b l g) (in_step c h) (stored x y z d n m q) lv w =
    in_step
      (omega (arith, z, b, w, c, count-stored a x y indents_of, count-stored a x y dedents_of))
      (λ k. let (i, j) = g (sym d ∙ k) in (z ∙ lv (sym d ∙ k), n ∙ j))
  where
    count-stored :
        {ss' ss ss₁ : List Token} {v : Token}
        → ss' ≡ ss
        → v.type ≡ t
        → ss₁ ≡ v ∷ ss'
        → (weight : TokType → ℕ) → count weight ss₁ ≡ weight t + count weight ss
    count-stored a x y weight = rw (y, a, x) refl

-- What a read returns: the token, on top of the array or, if it is a line break, below the tokens
-- of the look behind it; or nothing, with a token stored in silence or none.
pub data Read (s : State) : Option Token × State → Type 0 where
  read_token :
      {u : Token} {s' : State} (us : List Token)
      → s'.tokens ≡ us ++ u ∷ s.tokens
      → (us ≡ []) ⊎ (u.type ≡ newline)
      → InStep s'
      → Read s (some u, s')
  read_nothing : {s' : State} → InStep s' → Read s (none, s')

-- The same of a token that `finishToken` returns.
pub data OnTop (s : State) : Token × State → Type 0 where
  on_top :
      {u : Token} {s' : State} (us : List Token)
      → s'.tokens ≡ us ++ u ∷ s.tokens
      → (us ≡ []) ⊎ (u.type ≡ newline)
      → InStep s'
      → OnTop s (u, s')

pub Kept-tokens : {s s' : State} → Kept s s' → s'.tokens ≡ s.tokens
Kept-tokens (kept a b l g) = a

pub Kept-le : {s s' : State} → Kept s s' → length s'.cursor.rest ≤ length s.cursor.rest
Kept-le (kept a b l g) = l

pub Kept-Settled : {s s' : State} → Kept s s' → Settled s'
Kept-Settled (kept a b l g) = g

pub InStep-Settled : {s : State} → InStep s → Settled s
InStep-Settled (in_step c h) = h

pub Kept-InStep : {s s' : State} → Kept s s' → InStep s → InStep s'
Kept-InStep (kept a b l g) (in_step c h) = in_step (rw (a, b) c) g

Stored-type : {t : TokType} {s s₁ : State} {u : Token} → Stored t s (u, s₁) → u.type ≡ t
Stored-type (stored x y z d n m q) = x

pub Stored-tokens :
    {t : TokType} {s s₁ : State} {u : Token} → Stored t s (u, s₁) → s₁.tokens ≡ u ∷ s.tokens
Stored-tokens (stored x y z d n m q) = y

Stored-OnTop :
    {t : TokType} {s s' s₁ : State} {u : Token}
    → Kept s s'
    → Stored t s' (u, s₁)
    → InStep s₁
    → OnTop s (u, s₁)
Stored-OnTop {u = u} k st b =
    on_top [] (Stored-tokens st ∙ ap (λ ts. u ∷ ts) (Kept-tokens k)) (inl refl) b

pub steady-InStep :
    (t : TokType) {s s' s₁ : State} {u : Token}
    → Steady t
    → Kept s s'
    → InStep s
    → Stored t s' (u, s₁)
    → InStep s₁
steady-InStep t (i, d, f) (kept a b l g) bal st =
    store-InStep t (kept a b l g) bal st (λ k. f _ ∙ (g k).0) (omega (arith, i, d, f _))

pub pop_both-top : (w u : Token) (ts : List Token) → pop_both w u (w ∷ u ∷ ts) ≡ some ts
unfolding pop_both
pop_both-top w u ts = rw ((==_iff w.place w.place).1 refl, (==_iff u.place u.place).1 refl) refl

pub newline-continues : (t : TokType) → t ≡ newline → (type_of t).continues_previous_line ≡ false
unfolding type_of
newline-continues t h = rw h refl

module _ (e : Setup) {s : State} where
  -- The line break `u` is replaced by the token `w` that continues the line.
  replaced-Ends :
      (u w : Token) (s₃ : State)
      → u.type ≡ newline
      → s₃.tokens ≡ w ∷ u ∷ s.tokens
      → InStep s₃
      → Ends (OnTop s) (replace_newline e u w s₃ (pop_both w u s₃.tokens))
  replaced-Ends u w s₃ n y (in_step c h) =
      subst (λ o. Ends (OnTop s) (replace_newline e u w s₃ o))
        (sym (ap (pop_both w u) y ∙ pop_both-top w u s.tokens))
        (value (on_top [] refl (inl refl) (in_step counts h)))
    where
      weighs :
          (weight : TokType → ℕ)
          → count weight s₃.tokens ≡ weight w.type + (weight newline + count weight s.tokens)
      weighs weight = rw (y, n) refl

      counts :
          indents_of w.type + count indents_of s.tokens
          ≡ s₃.indents.indentation + (dedents_of w.type + count dedents_of s.tokens)
      counts = omega (arith, c, weighs indents_of, weighs dedents_of)

  join_line-Ends :
      (u : Token) (s₁ : State) (q : Option Token × State)
      → u.type ≡ newline
      → s₁.tokens ≡ u ∷ s.tokens
      → Read s₁ q
      → Ends (OnTop s) (join_line e u q)
  join_line-Ends u s₁ (none, s₃) n x (read_nothing b) = thrown
  join_line-Ends u s₁ (some w, s₃) n x (read_token us y z b) =
      Ends-if (type_of w.type).continues_previous_line (λ k. by_place z k)
        (λ k. value (on_top (us ++ w ∷ []) below (inr n) b))
    where
      below : s₃.tokens ≡ (us ++ w ∷ []) ++ u ∷ s.tokens
      below = y ∙ ap (λ ts. us ++ w ∷ ts) x ∙ sym (append_assoc us (w ∷ []) (u ∷ s.tokens))

      by_place :
          (us ≡ []) ⊎ (w.type ≡ newline)
          → (type_of w.type).continues_previous_line ≡ true
          → Ends (OnTop s) (replace_newline e u w s₃ (pop_both w u s₃.tokens))
      by_place (inl k) c =
          replaced-Ends u w s₃ n (y ∙ ap (λ vs. vs ++ w ∷ s₁.tokens) k ∙ ap (λ ts. w ∷ ts) x) b
      by_place (inr k) c = absurd (false≢true (sym (newline-continues w.type k) ∙ c))

module _ (e : Setup) (read : State → Result (Option Token × State)) where
  -- A token that is no line break.
  pub single-OnTop :
      (t : TokType) (v : TokenValue) {s : State} (s' : State)
      → (t === newline) ≡ false
      → Kept s s'
      → ((u : Token) (s₁ : State) → Stored t s' (u, s₁) → InStep s₁)
      → Ends (OnTop s) (finish_token e read t v s')
  unfolding finish_token
  single-OnTop t v s' h k f = Ends-bind _ (finish-Ends t v s') (λ r st.
      Ends-if (t === newline) (λ b. absurd (false≢true (sym h ∙ b)))
        (λ b. value (Stored-OnTop k st (f r.0 r.1 st))))

  -- A line break, behind which the reading ends.
  pub newline-OnTop :
      (v : TokenValue) {s : State} (s' : State)
      → Kept s s'
      → ((u : Token) (s₁ : State) → Stored newline s' (u, s₁) → Ends (Read s₁) (read s₁))
      → Ends (OnTop s) (finish_token e read newline v s')
  unfolding finish_token
  newline-OnTop v s' k f = Ends-bind _ (finish-Ends newline v s') (λ r st.
      Ends-if (newline === newline)
        (λ b. Ends-bind _ (f r.0 r.1 st) (λ q rd.
          join_line-Ends e r.0 r.1 q (Stored-type st)
            (Stored-tokens st ∙ ap (λ ts. r.0 ∷ ts) (Kept-tokens k)) rd))
        (λ b. absurd (false≢true (sym b ∙ (===_iff newline newline).1 refl))))
