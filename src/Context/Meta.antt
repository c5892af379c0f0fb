-- ===== src/Context/Meta.antt =====
-- Where the context updates go wrong: a member named `if` that is called with `!`.
use tacoscript.Prelude.{true, false, ◌≡◌, refl, none, some, [], ◌∷◌}
use tacoscript.Token.{dot, excl, kw_if, brace_r, dedent}
use tacoscript.Context.{TokContext, ContextState, update_context, update_contexts, allow, pop}

-- In any state with a single context on the stack, the tokens `if` and `!` behind a dot empty the
-- stack, and after them a closing brace or the end of a block throws.
pub update_contexts-meta_if :
    (c : TokContext) (s : ContextState)
    → s.context ≡ c ∷ []
    → (s' : ContextState) × (update_contexts dot (kw_if ∷ excl ∷ []) s ≡ some s')
      × (s'.context ≡ [])
      × (update_context brace_r excl s' ≡ none)
      × (update_context dedent excl s' ≡ none)
unfolding update_contexts update_context
update_contexts-meta_if c s e = (allow true (pop (allow false s)), refl, rw e, rw e, rw e)
