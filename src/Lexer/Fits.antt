-- ===== src/Lexer/Fits.antt =====
-- What `readNextToken` finds for `finishToken`, from a state of which `Settled` holds.
use tacoscript.Prelude.{
  ℕ, ◌≤◌, ◌<◌, ◌≡◌, ◌≢◌, ◌⊎◌, ◌∙◌, inl, inr, refl, sym, Bool, true, false, not, ◌&&◌, ◌||◌, Option,
  none, some, List, [], ◌∷◌, if◌then◌else◌, ◌==◌, ltb, length, arith, ==_iff, false≢true, subst,
}
use tacoscript.Token.{is_layout, TokType, newline, indent, dedent, eof, template}
use tacoscript.Token.Key.{◌===◌, ===_iff}
use tacoscript.Reader.{Cursor}
use tacoscript.Reader.Ends.{Ends, value, raised, thrown, Ends-if, Ends-bind, Ends-map}
use tacoscript.Token.Keyword.{keyword_type, keyword_type-plain}
use tacoscript.Text.{Chars, is_newline?}
use tacoscript.Text.Utf16.{full_char_code}
use tacoscript.Reader.Word.{WordToken, token_of}
use tacoscript.Reader.Total.{WordWithin, read_word-Ends}
use tacoscript.Indentation.{IndentState}
use tacoscript.Indentation.Frame.{Looked, looked, has_indentation_changed-Ends}
use tacoscript.Reader.Punct.{Fetched}
use tacoscript.Reader.Punct.Fetch.{
  get_token_from_code-Ends, Fetches, fetches_silently, fetches_token, fetches_break, fetches_number,
  fetches_text, fetches_pattern, fetches_comment,
}
use tacoscript.Context.{TokContext, tmpl_str}
use tacoscript.Lexer.{State, Setup, TokenValue}
use tacoscript.Lexer.Skip.Frame.{
  Same, same, Same_refl, Same_trans, skip_non_tokens-Ends, skip_indentation-Ends,
}
use tacoscript.Lexer.Template.{TmplToken}
use tacoscript.Lexer.Template.Total.{TmplWithin, a_text, a_brace, a_close, read_tmpl_token-Ends}
use tacoscript.Lexer.Fetch.{
  read_token, tmpl_next, code_or_0, at_cursor, fetched, fetched_word, from_code, mode_of,
  read_concrete_token, starts_word, by_change, Next, finishing, commenting, stopping, skip_to_token,
  skips, change_level, at_input_end, from_start, start_token_lex, is_empty, next_token_of,
  read_in_context,
}

-- As long as no indentation character is known, there is no indentation.
abbrev pub Settled : State → Type 0
Settled s =
    s.indents.indent_char_code ≡ none
    → (s.indents.indentation ≡ 0) × (s.indents.next_indentation ≡ 0)

-- The tokens and the level are those of `s`, and the cursor is no further back.
pub data Kept (s s' : State) : Type 0 where
  kept :
      s'.tokens ≡ s.tokens
      → s'.indents.indentation ≡ s.indents.indentation
      → length s'.cursor.rest ≤ length s.cursor.rest
      → Settled s'
      → Kept s s'

-- The next token is none that the lexer adds behind a line break for a change of the level.
abbrev pub Waiting : State → Type 0
Waiting s = (s.indents.next_indentation ≡ s.indents.indentation) ⊎ (s.lex.type ≢ newline)

-- A token that is no part of the layout; an indent, for which the indentation character is known; a
-- dedent, where the level is above the next one; a line break where the levels differ, or that is
-- read; a comment; or nothing.
pub data Fits (s : State) : Next → Type 0 where
  a_token :
      {b : Bool} {t : TokType} {v : TokenValue} {s' : State}
      → is_layout t ≡ false
      → Kept s s'
      → Fits s (finishing b t v s')
  an_indent :
      {v : TokenValue} {s' : State}
      → s'.indents.indent_char_code ≢ none
      → Kept s s'
      → Fits s (finishing true indent v s')
  a_dedent :
      {v : TokenValue} {s' : State}
      → s'.indents.next_indentation < s'.indents.indentation
      → Kept s s'
      → Fits s (finishing true dedent v s')
  a_change :
      {v : TokenValue} {s' : State}
      → Waiting s
      → s'.indents.next_indentation ≢ s'.indents.indentation
      → Kept s s'
      → Fits s (finishing true newline v s')
  a_break :
      {v : TokenValue} {s' : State}
      → Waiting s
      → length s'.cursor.rest < length s.cursor.rest
      → Kept s s'
      → Fits s (finishing true newline v s')
  a_comment :
      {k : ℕ} {s' : State}
      → Waiting s
      → 0 < k
      → 0 < length s'.cursor.rest
      → Kept s s'
      → Fits s (commenting k s')
  an_end : {s' : State} → Kept s s' → Fits s (stopping s')

Fits-if :
    {s : State} (b : Bool) {x y : Next}
    → (b ≡ true → Fits s x)
    → (b ≡ false → Fits s y)
    → Fits s (if b then x else y)
Fits-if true h k = h refl
Fits-if false h k = k refl

Same-Kept :
    {s t : State}
    → Settled s
    → Same (record s { prev_lex_type = s.lex.type }) t
    → Kept s (start_token_lex t)
Same-Kept h (same a b c d e f g l) = kept a b l (λ k. let (z, n) = h (sym d ∙ k) in (b ∙ z, c ∙ n))

skip_to_token-Ends : (e : Setup) (s : State) → Ends (Same s) (skip_to_token e s)
unfolding skip_to_token
skip_to_token-Ends e s =
    Ends-if (skips s.context.context)
      (λ h.
        Ends-bind _
          (Ends-if (s.indents.eol && not (s.cursor.pos == s.indents.eol_pos))
            (λ k. skip_indentation-Ends e s) (λ k. value (Same_refl s)))
          (λ t p. Ends-map (skip_non_tokens-Ends e (length e.input) t) (λ u q. Same_trans p q)))
      (λ h. value (Same_refl s))

module _ (s : State) (settled : Settled s) where
  change_level-Fits :
      (s.indents.next_indentation == s.indents.indentation) ≡ false
      → Fits s (change_level (record s { prev_lex_type = s.lex.type }))
  change_level-Fits h =
      Fits-if (ltb s.indents.indentation s.indents.next_indentation)
        (λ k. an_indent (λ e. let (z, n) = settled e in ground arith) here)
        (λ k.
          Fits-if (s.lex.type === newline) (λ e. a_dedent (ground arith) here)
            (λ e.
              a_change (inr (λ q. false≢true (sym e ∙ (===_iff s.lex.type newline).1 q)))
                (ground arith) here))
    where
      here : Kept s (record s { prev_lex_type = s.lex.type })
      here = kept refl refl (omega arith) settled

  -- The state at the start of the token.
  data Starts (t : State) : Type 0 where
    starts : s.indents.next_indentation ≡ s.indents.indentation → Kept s t → Starts t

  at_input_end-Fits : (t : State) → Starts t → Fits s (at_input_end t)
  at_input_end-Fits t (starts p (kept a b l g)) =
      Fits-if (ltb 0 t.indents.indentation)
        (λ h. a_change (inl p) (ground arith) (kept a b l (λ e. let (z, n) = g e in (z, refl))))
        (λ h.
          Fits-if (not (t.lex.type === eof) || length t.tokens == 0)
            (λ k. a_token refl (kept a b l g)) (λ k. an_end (kept a b l g)))

  at_cursor-Kept :
      (t : State) (c : Cursor)
      → Starts t
      → length c.rest ≤ length t.cursor.rest
      → Kept s (at_cursor t c)
  at_cursor-Kept t c (starts p (kept a b l g)) h = kept a b (omega arith) g

  fetched-Fits :
      (t : State) (f : Fetched)
      → Starts t
      → 0 < length t.cursor.rest
      → Fetches (length t.cursor.rest) f
      → Fits s (fetched t f)
  fetched-Fits t f h pos (fetches_token e l) = a_token e (at_cursor-Kept t _ h l)
  fetched-Fits t f h pos (fetches_silently e l) = a_token e (at_cursor-Kept t _ h l)
  fetched-Fits t f (starts p (kept a b m g)) pos (fetches_break l) =
      a_break (inl p) (omega arith) (kept a b (omega arith) g)
  fetched-Fits t f h pos (fetches_number l) = a_token refl (at_cursor-Kept t _ h l)
  fetched-Fits t f h pos (fetches_text l) = a_token refl (at_cursor-Kept t _ h l)
  fetched-Fits t f h pos (fetches_pattern l) = a_token refl (at_cursor-Kept t _ h l)
  fetched-Fits t f (starts p k') pos (fetches_comment k l) =
      a_comment (inl p) k (omega arith) (at_cursor-Kept t _ (starts p k') (omega arith))

  word-Fits :
      (e : Setup) (t : State) (o : Option TokType) (esc : Bool) (raw w : Chars) (c : Cursor)
      → keyword_type w ≡ o
      → Starts t
      → length c.rest ≤ length t.cursor.rest
      → Fits s (fetched_word t (token_of e.identifiers o esc raw w, c))
  word-Fits e t none esc raw w c k h l = a_token refl (at_cursor-Kept t c h l)
  word-Fits e t (some u) true raw w c k h l = a_token refl (at_cursor-Kept t c h l)
  word-Fits e t (some u) false raw w c k h l =
      a_token (keyword_type-plain w u k) (at_cursor-Kept t c h l)

  fetched_word-Fits :
      (e : Setup) (t : State) (r : WordToken × Cursor)
      → Starts t
      → WordWithin e.identifiers (length t.cursor.rest) r
      → Fits s (fetched_word t r)
  fetched_word-Fits e t (x, c) h ((w, esc, raw, k), l) =
      subst (λ u. Fits s (fetched_word t (u, c))) (sym k)
        (word-Fits e t (keyword_type w) esc raw w c refl h l)

  from_code-Ends :
      (e : Setup) (t : State) (code : Option ℕ)
      → Starts t
      → 0 < length t.cursor.rest
      → Ends (Fits s) (from_code e t code)
  from_code-Ends e t none h pos = raised
  from_code-Ends e t (some code) h pos =
      Ends-bind _ (get_token_from_code-Ends e.identifiers (mode_of e t) code t.cursor pos)
        (λ f k. value (fetched-Fits t f h pos k))

  read_concrete_token-Ends :
      (e : Setup) (t : State) (code : Option ℕ)
      → Starts t
      → 0 < length t.cursor.rest
      → Ends (Fits s) (read_concrete_token e code t)
  unfolding read_concrete_token
  read_concrete_token-Ends e t code h pos =
      Ends-if (starts_word e code)
        (λ b.
          Ends-bind _ (read_word-Ends e.identifiers t.cursor)
            (λ r k. value (fetched_word-Fits e t r h k)))
        (λ b. from_code-Ends e t code h pos)

  by_change-Ends :
      (e : Setup) (t : State) (code : Option ℕ) (r : Bool × IndentState)
      → Starts t
      → 0 < length t.cursor.rest
      → Looked (record t.indents { pos = t.cursor.pos }) r
      → Ends (Fits s) (by_change e code t r)
  by_change-Ends e t code (true, i) (starts p (kept a b l g)) pos (looked x y z) = value (
      Fits-if (ltb i.indentation i.next_indentation)
        (λ h. an_indent known (kept a (x ∙ b) l settled_now))
        (λ h. a_change (inl p) (differ (z refl)) (kept a (x ∙ b) l settled_now)))
    where
      known : i.indent_char_code ≢ none
      known k = false≢true (sym (y k).2)

      settled_now : Settled (record t { indents = i })
      settled_now k = absurd (known k)

      differ :
          ((t.indents.indent_char_code ≡ none) × (i.next_indentation ≡ 1))
            ⊎ (i.next_indentation ≢ i.indentation)
          → i.next_indentation ≢ i.indentation
      differ (inl (c, n)) k = let (u, w) = g c in ground arith
      differ (inr d) k = d k
  by_change-Ends e t code (false, i) (starts p (kept a b l g)) pos (looked x y z) =
      read_concrete_token-Ends e (record t { indents = i }) code
        (starts p
          (kept a (x ∙ b) l (λ k. let (c, n, u) = y k in let (v, w) = g c in (x ∙ v, n ∙ w))))
        pos

  read_token-Ends :
      (e : Setup) (t : State) (code : Option ℕ)
      → Starts t
      → 0 < length t.cursor.rest
      → Ends (Fits s) (read_token e code t)
  unfolding read_token
  read_token-Ends e t code h pos =
      Ends-if (not t.indents.eol && is_newline? code)
        (λ b.
          Ends-bind _
            (has_indentation_changed-Ends e.input (code_or_0 code)
              (record t.indents { pos = t.cursor.pos }))
            (λ r k. by_change-Ends e t code r h pos k))
        (λ b. read_concrete_token-Ends e t code h pos)

  tmpl_next-Fits :
      (t : State) (x : TmplToken)
      → Starts t
      → TmplWithin (length t.cursor.rest) x
      → Fits s (tmpl_next t x)
  tmpl_next-Fits t x h (a_text l) = a_token refl (at_cursor-Kept t _ h l)
  tmpl_next-Fits t x h (a_brace l) = a_token refl (at_cursor-Kept t _ h l)
  tmpl_next-Fits t x h (a_close l) = a_token refl (at_cursor-Kept t _ h l)

  read_in_context-Ends :
      (e : Setup) (cs : List TokContext) (t : State)
      → Starts t
      → 0 < length t.cursor.rest
      → Ends (Fits s) (read_in_context e cs t)
  unfolding read_in_context
  read_in_context-Ends e [] t h pos = thrown
  read_in_context-Ends e (tmpl_str ∷ cs) t h pos =
      Ends-bind _ (read_tmpl_token-Ends e.env (t.prev_lex_type === template) t.cursor)
        (λ x k. value (tmpl_next-Fits t x h k))
  read_in_context-Ends e (_ ∷ cs) t h pos = read_token-Ends e t (full_char_code t.cursor.rest) h pos

  from_start-Ends :
      (e : Setup) (cs : List TokContext) (t : State) → Starts t → Ends (Fits s) (from_start e cs t)
  from_start-Ends e cs t h =
      Ends-if (is_empty t.cursor.rest) (λ b. value (at_input_end-Fits t h))
        (λ b. read_in_context-Ends e cs t h (filled t.cursor.rest b))
    where
      filled : (rest : Chars) → is_empty rest ≡ false → 0 < length rest
      filled [] b = absurd cc
      filled (x ∷ xs) b = omega arith

not-true : (b : Bool) → not b ≡ true → b ≡ false
not-true true h = absurd (false≢true h)
not-true false h = refl

not-false : (b : Bool) → not b ≡ false → b ≡ true
not-false true h = refl
not-false false h = absurd (false≢true (sym h))

-- From a settled state `readNextToken` ends, and what it finds fits the state.
pub next_token_of-Ends : (e : Setup) (s : State) → Settled s → Ends (Fits s) (next_token_of e s)
unfolding next_token_of
next_token_of-Ends e s settled =
    Ends-if (not (s.indents.next_indentation == s.indents.indentation))
      (λ h. value (change_level-Fits s settled (not-true _ h)))
      (λ h. Ends-bind _ (skip_to_token-Ends e (record s { prev_lex_type = s.lex.type })) (λ t k.
        from_start-Ends s settled e s.context.context (start_token_lex t)
          (starts ((==_iff _ _).0 (not-false _ h)) (Same-Kept settled k))))
