-- ===== src/Lexer/Skip/AtEnd.antt =====
-- At the end of the input there is no white space to skip.
use tacoscript.Prelude.{
  ℕ, suc, ◌+◌, ◌≡◌, ◌∙◌, refl, sym, ap, Bool, true, false, not, ◌&&◌, none, [], ◌∷◌, if◌then◌else◌,
  ltb, ◌==◌, length, arith, if-false, if-either, subst, get_elem?, ◌≤◌,
}
use tacoscript.Text.{Chars}
use tacoscript.Reader.{peek, Result, ok, ◌>>=◌}
use tacoscript.Lexer.{State, Setup}
use tacoscript.Lexer.Skip.{
  skip_non_tokens, skip_rounds, skip_indentation, take_indentation, skip_char, store_whitespace,
}
use tacoscript.Lexer.Skip.Frame.{Same, same, Same_refl, take_indentation-Same}
use tacoscript.Lexer.Fetch.{skip_to_token, skips}

store_whitespace-none : (e : Setup) (s : State) → store_whitespace e s.cursor.pos s ≡ s
store_whitespace-none e s = if-false (ltb s.cursor.pos s.cursor.pos) _ s (ground arith)

skip_rounds-end :
    (fuel : ℕ) (e : Setup) (end_ : ℕ) (s : State)
    → peek s.cursor 0 ≡ none
    → skip_rounds (suc fuel) e end_ s.cursor.pos s ≡ ok s
unfolding skip_rounds
skip_rounds-end fuel e end_ s h =
    if-either (ltb s.cursor.pos end_)
      (ap (skip_char e (skip_rounds fuel e end_) s.cursor.pos s) h
        ∙ ap ok (store_whitespace-none e s))
      (ap ok (store_whitespace-none e s))

abbrev pub AtEnd : State → Type 0
AtEnd s = s.cursor.rest ≡ []

skip_non_tokens-end : (e : Setup) (end_ : ℕ) (s : State) → AtEnd s → skip_non_tokens e end_ s ≡ ok s
unfolding skip_non_tokens
skip_non_tokens-end e end_ s h =
    ap (λ n. skip_rounds n e end_ s.cursor.pos s) (ap (λ cs. length cs + 1) h)
    ∙ skip_rounds-end 0 e end_ s (ap (λ cs. get_elem? cs 0) h)

-- White space is skipped, and there is none: the state is the same but for the indentation.
pub data Skips (s : State) : Result State → Type 0 where
  skips_to : {t : State} → Same s t → Skips s (ok t)

pub AtEnd-Same : {s t : State} → AtEnd s → Same s t → AtEnd t
AtEnd-Same {s} {t} h (same a b c d e f g l) = empty t.cursor.rest (l)
  where
    empty : (cs : Chars) → length cs ≤ length s.cursor.rest → cs ≡ []
    empty [] l = refl
    empty (c ∷ cs) l = absurd (omega (arith, ap length h))

Skips-if :
    {s : State} (b : Bool) {x y : Result State}
    → Skips s x
    → Skips s y
    → Skips s (if b then x else y)
Skips-if true h k = h
Skips-if false h k = k

skip_indentation-Skips : (e : Setup) (s : State) → AtEnd s → Skips s (skip_indentation e s)
unfolding skip_indentation
skip_indentation-Skips e s h =
    subst (λ r. Skips s (r >>= λ s'. ok (take_indentation s')))
      (sym (
        if-either (ltb s.cursor.pos s.indents.indent_start)
          (skip_non_tokens-end e s.indents.indent_start s h) refl))
      (skips_to (take_indentation-Same s))

pub skip_to_token-Skips : (e : Setup) (s : State) → AtEnd s → Skips s (skip_to_token e s)
unfolding skip_to_token
skip_to_token-Skips e s h =
    Skips-if (skips s.context.context)
      (behind (
        Skips-if (s.indents.eol && not (s.cursor.pos == s.indents.eol_pos))
          (skip_indentation-Skips e s h) (skips_to (Same_refl s))))
      (skips_to (Same_refl s))
  where
    behind :
        {r : Result State} → Skips s r → Skips s (r >>= λ s'. skip_non_tokens e (length e.input) s')
    behind (skips_to {t} k) =
        subst (Skips s) (sym (skip_non_tokens-end e (length e.input) t (AtEnd-Same h k)))
          (skips_to k)
