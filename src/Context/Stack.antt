-- ===== src/Context/Stack.antt =====
-- The stack of token contexts keeps its statement context at the bottom, and no update throws.
use tacoscript.Prelude.{
  Bool, true, false, false≢true, ◌≡◌, refl, Option, none, some, List, [], ◌∷◌, ◌⊎◌, inl, inr,
  Bool-cases, if◌then◌else◌,
}
use tacoscript.Token.{
  TokType, dot, indent, dedent, brace_l, brace_r, paren_l, paren_r, dollar_brace_l, back_quote,
  excl, inc_dec, kw_let, kw_const, kw_var, kw_return, kw_then, kw_if, kw_for, kw_while, kw_function,
  num, eof, newline,
}
use tacoscript.Token.Conf.{type_of}
use tacoscript.Context.{
  TokContext, stmt, stmt_head, tmpl_str, func_expr, tmpl_expr, ContextState, initial, push, pop,
  popped, allow, at_stmt_head, at_tmpl_str, at_stmt, update_indent, update_excl, update_brace_r,
  update_paren_r, update_dedent, update_by_type, is_meta, update_context, update_contexts,
}

-- The last element of the list, the bottom of the stack, is `stmt`.
abbrev pub IsGrounded : List TokContext → Type 0
IsGrounded [] = ⊥
IsGrounded (c ∷ []) = c ≡ stmt
IsGrounded (c ∷ d ∷ cs) = IsGrounded (d ∷ cs)

IsGrounded-cons : (c : TokContext) (cs : List TokContext) → IsGrounded cs → IsGrounded (c ∷ cs)
IsGrounded-cons c [] h = absurd h
IsGrounded-cons c (d ∷ cs) h = h

-- Only `stmt` can be alone on the stack, so what is above another context may be popped.
IsGrounded-popped :
    (cs : List TokContext) → IsGrounded cs → at_stmt cs ≡ false → IsGrounded (popped cs)
IsGrounded-popped [] h k = h
IsGrounded-popped (stmt ∷ []) h k = cc
IsGrounded-popped (c ∷ []) h k = cc
IsGrounded-popped (c ∷ d ∷ cs) h k = h

stmt_head→not-stmt : (cs : List TokContext) → at_stmt_head cs ≡ true → at_stmt cs ≡ false
stmt_head→not-stmt [] h = refl
stmt_head→not-stmt (stmt ∷ cs) h = cc
stmt_head→not-stmt (c ∷ cs) h = refl

tmpl_str→not-stmt : (cs : List TokContext) → at_tmpl_str cs ≡ true → at_stmt cs ≡ false
tmpl_str→not-stmt [] h = refl
tmpl_str→not-stmt (stmt ∷ cs) h = cc
tmpl_str→not-stmt (c ∷ cs) h = refl

-- The update after `t` succeeds with a grounded stack, on top of which a real `if` has its head.
abbrev Keeps : TokType → Option ContextState → Type 0
Keeps t o =
    (s' : ContextState) × (o ≡ some s')
    × IsGrounded s'.context
    × (t ≡ kw_if → at_stmt_head s'.context ≡ true)

module _ (s : ContextState) (h : IsGrounded s.context) where
  push-IsGrounded : (c : TokContext) → IsGrounded (push c s).context
  push-IsGrounded c = IsGrounded-cons c s.context h

  pop_head-IsGrounded : at_stmt_head s.context ≡ true → IsGrounded (popped s.context)
  pop_head-IsGrounded e = IsGrounded-popped s.context h (stmt_head→not-stmt s.context e)

update_indent_block :
    (s : ContextState) → IsGrounded s.context → IsGrounded (update_indent num s).context
unfolding update_indent
update_indent_block s h = elim (Bool-cases (at_stmt_head s.context)) [
  | inl e ↦ rw e (IsGrounded-cons stmt (popped s.context) (pop_head-IsGrounded s h e))
  | inr e ↦ rw e (push-IsGrounded s h stmt)
]

update_indent-IsGrounded :
    (q : TokType) (s : ContextState) → IsGrounded s.context → IsGrounded (update_indent q s).context
unfolding update_indent
update_indent-IsGrounded kw_let s h = push-IsGrounded s h _
update_indent-IsGrounded kw_const s h = push-IsGrounded s h _
update_indent-IsGrounded kw_var s h = push-IsGrounded s h _
update_indent-IsGrounded kw_return s h = push-IsGrounded s h _
update_indent-IsGrounded _ s h = update_indent_block s h

update_excl-IsGrounded :
    (q : TokType) (s : ContextState)
    → IsGrounded s.context
    → (q ≡ kw_if → at_stmt_head s.context ≡ true)
    → IsGrounded (update_excl q s).context
unfolding update_excl
update_excl-IsGrounded kw_if s h k = pop_head-IsGrounded s h (k refl)
update_excl-IsGrounded _ s h k = h

abbrev pub Succeeds : Option ContextState → Type 0
Succeeds o = (s' : ContextState) × (o ≡ some s') × IsGrounded s'.context

update_brace_r-Succeeds :
    (cs : List TokContext) (s : ContextState)
    → s.context ≡ cs
    → IsGrounded cs
    → Succeeds (update_brace_r cs s)
unfolding update_brace_r
update_brace_r-Succeeds [] s e h = absurd h
update_brace_r-Succeeds (c ∷ []) s e h = (allow true s, refl, rw e h)
update_brace_r-Succeeds (tmpl_expr ∷ d ∷ cs) s e h = (allow true (pop s), refl, rw e h)
update_brace_r-Succeeds (c ∷ d ∷ cs) s e h = (_, refl, rw e h)

update_paren_r-IsGrounded :
    (cs : List TokContext) (s : ContextState)
    → s.context ≡ cs
    → IsGrounded cs
    → IsGrounded (update_paren_r cs s).context
unfolding update_paren_r
update_paren_r-IsGrounded [] s e h = absurd h
update_paren_r-IsGrounded (c ∷ []) s e h = rw e h
update_paren_r-IsGrounded (c ∷ d ∷ cs) s e h = rw e h

update_dedent-Succeeds :
    (cs : List TokContext) (s : ContextState)
    → s.context ≡ cs
    → IsGrounded cs
    → Succeeds (update_dedent cs s)
unfolding update_dedent
update_dedent-Succeeds [] s e h = absurd h
update_dedent-Succeeds (c ∷ []) s e h = (allow true s, refl, rw e h)
update_dedent-Succeeds (stmt ∷ func_expr ∷ []) s e h = cc
update_dedent-Succeeds (stmt ∷ func_expr ∷ d ∷ cs) s e h = (_, refl, rw e h)
update_dedent-Succeeds (c ∷ d ∷ cs) s e h = (_, refl, rw e h)

-- What every update needs of the stack: grounded, and below an `excl` after `if` the head of that
-- `if`. Of the result: grounded, and after an `if` its head on top.
update_by_type-Keeps :
    (t q : TokType) (s : ContextState)
    → IsGrounded s.context
    → (t ≡ excl → q ≡ kw_if → at_stmt_head s.context ≡ true)
    → Keeps t (update_by_type t q s)
unfolding update_by_type
update_by_type-Keeps indent q s h k = (_, refl, update_indent-IsGrounded q s h, λ e. cc)
update_by_type-Keeps kw_then q s h k = elim (Bool-cases (at_stmt_head s.context)) [
  | inl e ↦ (_, refl, rw e (pop_head-IsGrounded s h e), λ e'. cc)
  | inr e ↦ (_, refl, rw e h, λ e'. cc)
]
update_by_type-Keeps brace_l q s h k = (_, refl, push-IsGrounded s h _, λ e. cc)
update_by_type-Keeps dollar_brace_l q s h k = (_, refl, push-IsGrounded s h _, λ e. cc)
update_by_type-Keeps kw_if q s h k = (_, refl, push-IsGrounded s h stmt_head, λ e. refl)
update_by_type-Keeps kw_for q s h k = (_, refl, push-IsGrounded s h stmt_head, λ e. cc)
update_by_type-Keeps kw_while q s h k = elim (Bool-cases s.in_for_header_init) [
  | inl e ↦ (_, refl, rw e h, λ e'. cc)
  | inr e ↦ (_, refl, rw e (push-IsGrounded s h stmt_head), λ e'. cc)
]
update_by_type-Keeps excl q s h k = (_, refl, update_excl-IsGrounded q s h (k refl), λ e. cc)
update_by_type-Keeps paren_l q s h k = (_, refl, push-IsGrounded s h _, λ e. cc)
update_by_type-Keeps inc_dec q s h k = (_, refl, h, λ e. cc)
update_by_type-Keeps kw_function q s h k = elim (Bool-cases (at_stmt s.context)) [
  | inl e ↦ (_, refl, rw e h, λ e'. cc)
  | inr e ↦ (_, refl, rw e (push-IsGrounded s h func_expr), λ e'. cc)
]
update_by_type-Keeps back_quote q s h k = elim (Bool-cases (at_tmpl_str s.context)) [
  | inl e ↦
      (_, refl, rw e (IsGrounded-popped s.context h (tmpl_str→not-stmt s.context e)), λ e'. cc)
  | inr e ↦ (_, refl, rw e (push-IsGrounded s h tmpl_str), λ e'. cc)
]
update_by_type-Keeps brace_r q s h k =
    let (s', e, g) = update_brace_r-Succeeds s.context s refl h in (s', e, g, λ e'. cc)
update_by_type-Keeps paren_r q s h k =
    (_, refl, update_paren_r-IsGrounded s.context s refl h, λ e. cc)
update_by_type-Keeps dedent q s h k =
    let (s', e, g) = update_dedent-Succeeds s.context s refl h in (s', e, g, λ e'. cc)
update_by_type-Keeps _ q s h k = (_, refl, h, λ e. cc)

is_meta-if : (q : TokType) → is_meta kw_if q ≡ true → q ≡ dot
is_meta-if dot h = refl
is_meta-if _ h = cc

-- The tokens `.`, `if`, `!` in a row: a call without parentheses of a member named `if`.
abbrev pub is_meta_if_call : TokType → TokType → TokType → Bool
is_meta_if_call dot kw_if excl = true
is_meta_if_call _ _ _ = false

-- No such call among `ts`, where `p` and `q` are the last two types before them.
abbrev pub no_meta_if_call : TokType → TokType → List TokType → Bool
no_meta_if_call p q [] = true
no_meta_if_call p q (t ∷ ts) = if is_meta_if_call p q t then false else no_meta_if_call q t ts

-- An `if` has its head on top, unless it is the name of a member.
abbrev HasHead : TokType → TokType → List TokContext → Type 0
HasHead p q cs = q ≡ kw_if → (p ≡ dot) ⊎ (at_stmt_head cs ≡ true)

HasHead-excl :
    (p q : TokType) (cs : List TokContext) (t : TokType)
    → is_meta_if_call p q t ≡ false
    → HasHead p q cs
    → t ≡ excl
    → q ≡ kw_if
    → at_stmt_head cs ≡ true
HasHead-excl p q cs t n h e e' = elim (h e') [
  | inl d ↦ absurd (true≢false (rw (e, e', d) at n))
  | inr k ↦ k
]
  where
    true≢false : true ≡ false → ⊥
    true≢false x = cc

abbrev Continues : TokType → TokType → Option ContextState → Type 0
Continues q t o =
    (s' : ContextState) × (o ≡ some s') × IsGrounded s'.context × HasHead q t s'.context

update_context-Continues :
    (p q t : TokType) (s : ContextState)
    → is_meta_if_call p q t ≡ false
    → IsGrounded s.context
    → HasHead p q s.context
    → Continues q t (update_context t q s)
unfolding update_context
update_context-Continues p q t s n g h = elim (Bool-cases (is_meta t q)) [
  | inl e ↦ (allow false s, rw e, g, λ e'. inl (is_meta-if q (rw e' at e)))
  | inr e ↦
      let (s', r, g', k) = update_by_type-Keeps t q s g (HasHead-excl p q s.context t n h) in
      (s', rw e r, g', λ e'. inr (k e'))
]

-- The updates of any further tokens succeed.
update_contexts-IsGrounded :
    (p q : TokType) (ts : List TokType) (s : ContextState)
    → no_meta_if_call p q ts ≡ true
    → IsGrounded s.context
    → HasHead p q s.context
    → (s' : ContextState) × (update_contexts q ts s ≡ some s') × IsGrounded s'.context
unfolding update_contexts
update_contexts-IsGrounded p q [] s n g h = (s, refl, g)
update_contexts-IsGrounded p q (t ∷ ts) s n g h = elim (Bool-cases (is_meta_if_call p q t)) [
  | inl e ↦ absurd (false≢true (rw e at n))
  | inr e ↦
      let (s₁, r₁, g₁, h₁) = update_context-Continues p q t s e g h in
      let (s', r, g') = update_contexts-IsGrounded q t ts s₁ (rw e at n) g₁ h₁ in
      (s', rw (r₁, update_contexts) r, g')
]

-- From the state that the lexer starts in, over any sequence of tokens in which no `!` follows a
-- member name `.if`, every context update succeeds, and afterwards the statement context is still
-- at the bottom of the stack, which therefore is never empty.
pub update_contexts-initial :
    (ts : List TokType)
    → no_meta_if_call eof eof ts ≡ true
    → (s : ContextState) × (update_contexts eof ts initial ≡ some s) × IsGrounded s.context
update_contexts-initial ts n = update_contexts-IsGrounded eof eof ts initial n refl (λ e. cc)

is_meta-plain : (t q : TokType) → (type_of t).keyword ≡ none → is_meta t q ≡ false
is_meta-plain t dot h = rw (h, is_meta) refl
is_meta-plain t _ h = refl

-- A line break never fails, and leaves the stack as it is; neither does the end of the input.
pub update_context-newline :
    (q : TokType) (s : ContextState)
    → update_context newline q s ≡ some (allow (type_of newline).before_expr s)
unfolding update_context update_by_type
update_context-newline q s = rw (is_meta-plain newline q (unfold type_of in refl)) refl

pub update_context-eof :
    (q : TokType) (s : ContextState)
    → update_context eof q s ≡ some (allow (type_of eof).before_expr s)
unfolding update_context update_by_type
update_context-eof q s = rw (is_meta-plain eof q (unfold type_of in refl)) refl

-- A dedent never fails on a grounded stack.
pub update_context-dedent :
    (q : TokType) (s : ContextState) → IsGrounded s.context → Succeeds (update_context dedent q s)
unfolding update_context update_by_type
update_context-dedent q s h =
    rw (is_meta-plain dedent q (unfold type_of in refl)) (update_dedent-Succeeds s.context s refl h)
