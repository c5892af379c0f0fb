-- ===== src/Token/Keyword.antt =====
-- The words of the keyword types (`keywords` in packages/horchata/src/lexer/types.js), and the strict
-- reserved words of packages/horchata/src/util/identifier.js, as texts.
use tacoscript.Prelude.{
  ◌≡◌, refl, false≢true, Bool-cases, inl, inr, Bool, true, false, ◌&&◌, ◌||◌, Option, none, some,
  List, [], ◌∷◌, if◌then◌else◌, ◌==◌,
}
use tacoscript.Text.{Chars}
use tacoscript.Token.{
  is_layout, TokType, kw_not, kw_or, kw_and, kw_is, kw_isnt, kw_like, kw_unlike, kw_in,
  kw_instanceof, kw_typeof, kw_void, kw_delete, kw_var, kw_let, kw_const, kw_extern, kw_function,
  kw_then, kw_if, kw_else, kw_switch, kw_case, kw_default, kw_for, kw_update, kw_upto, kw_downto,
  kw_while, kw_do, kw_continue, kw_break, kw_return, kw_of, kw_throw, kw_try, kw_catch, kw_finally,
  kw_with, kw_new, kw_yield, kw_await, kw_static, kw_class, kw_extends, kw_private, kw_protected,
  kw_public, kw_get, kw_set, kw_export, kw_import, kw_from, kw_as, kw_null, kw_true, kw_false,
  kw_this, kw_super, kw_debugger, kw_pass,
}

abbrev pub same_text : Chars → Chars → Bool
same_text [] [] = true
same_text [] (d ∷ ds) = false
same_text (c ∷ cs) [] = false
same_text (c ∷ cs) (d ∷ ds) = c == d && same_text cs ds

-- The own property of a table at a key, if there is one.
abbrev pub lookup : List (Chars × TokType) → Chars → Option TokType
lookup [] w = none
lookup ((v, t) ∷ table) w = if same_text v w then some t else lookup table w

-- `keywords`
unfoldable pub keyword_table : List (Chars × TokType)
keyword_table =
    (b'n' ∷ b'o' ∷ b't' ∷ [], kw_not)
    ∷ (b'o' ∷ b'r' ∷ [], kw_or)
    ∷ (b'a' ∷ b'n' ∷ b'd' ∷ [], kw_and)
    ∷ (b'i' ∷ b's' ∷ [], kw_is)
    ∷ (b'i' ∷ b's' ∷ b'n' ∷ b't' ∷ [], kw_isnt)
    ∷ (b'l' ∷ b'i' ∷ b'k' ∷ b'e' ∷ [], kw_like)
    ∷ (b'u' ∷ b'n' ∷ b'l' ∷ b'i' ∷ b'k' ∷ b'e' ∷ [], kw_unlike)
    ∷ (b'i' ∷ b'n' ∷ [], kw_in)
    ∷ (b'i' ∷ b'n' ∷ b's' ∷ b't' ∷ b'a' ∷ b'n' ∷ b'c' ∷ b'e' ∷ b'o' ∷ b'f' ∷ [], kw_instanceof)
    ∷ (b't' ∷ b'y' ∷ b'p' ∷ b'e' ∷ b'o' ∷ b'f' ∷ [], kw_typeof)
    ∷ (b'v' ∷ b'o' ∷ b'i' ∷ b'd' ∷ [], kw_void)
    ∷ (b'd' ∷ b'e' ∷ b'l' ∷ b'e' ∷ b't' ∷ b'e' ∷ [], kw_delete)
    ∷ (b'v' ∷ b'a' ∷ b'r' ∷ [], kw_var)
    ∷ (b'l' ∷ b'e' ∷ b't' ∷ [], kw_let)
    ∷ (b'c' ∷ b'o' ∷ b'n' ∷ b's' ∷ b't' ∷ [], kw_const)
    ∷ (b'e' ∷ b'x' ∷ b't' ∷ b'e' ∷ b'r' ∷ b'n' ∷ [], kw_extern)
    ∷ (b'f' ∷ b'u' ∷ b'n' ∷ b'c' ∷ b't' ∷ b'i' ∷ b'o' ∷ b'n' ∷ [], kw_function)
    ∷ (b't' ∷ b'h' ∷ b'e' ∷ b'n' ∷ [], kw_then)
    ∷ (b'i' ∷ b'f' ∷ [], kw_if)
    ∷ (b'e' ∷ b'l' ∷ b's' ∷ b'e' ∷ [], kw_else)
    ∷ (b's' ∷ b'w' ∷ b'i' ∷ b't' ∷ b'c' ∷ b'h' ∷ [], kw_switch)
    ∷ (b'c' ∷ b'a' ∷ b's' ∷ b'e' ∷ [], kw_case)
    ∷ (b'd' ∷ b'e' ∷ b'f' ∷ b'a' ∷ b'u' ∷ b'l' ∷ b't' ∷ [], kw_default)
    ∷ (b'f' ∷ b'o' ∷ b'r' ∷ [], kw_for)
    ∷ (b'u' ∷ b'p' ∷ b'd' ∷ b'a' ∷ b't' ∷ b'e' ∷ [], kw_update)
    ∷ (b'u' ∷ b'p' ∷ b't' ∷ b'o' ∷ [], kw_upto)
    ∷ (b'd' ∷ b'o' ∷ b'w' ∷ b'n' ∷ b't' ∷ b'o' ∷ [], kw_downto)
    ∷ (b'w' ∷ b'h' ∷ b'i' ∷ b'l' ∷ b'e' ∷ [], kw_while)
    ∷ (b'd' ∷ b'o' ∷ [], kw_do)
    ∷ (b'c' ∷ b'o' ∷ b'n' ∷ b't' ∷ b'i' ∷ b'n' ∷ b'u' ∷ b'e' ∷ [], kw_continue)
    ∷ (b'b' ∷ b'r' ∷ b'e' ∷ b'a' ∷ b'k' ∷ [], kw_break)
    ∷ (b'r' ∷ b'e' ∷ b't' ∷ b'u' ∷ b'r' ∷ b'n' ∷ [], kw_return)
    ∷ (b'o' ∷ b'f' ∷ [], kw_of)
    ∷ (b't' ∷ b'h' ∷ b'r' ∷ b'o' ∷ b'w' ∷ [], kw_throw)
    ∷ (b't' ∷ b'r' ∷ b'y' ∷ [], kw_try)
    ∷ (b'c' ∷ b'a' ∷ b't' ∷ b'c' ∷ b'h' ∷ [], kw_catch)
    ∷ (b'f' ∷ b'i' ∷ b'n' ∷ b'a' ∷ b'l' ∷ b'l' ∷ b'y' ∷ [], kw_finally)
    ∷ (b'w' ∷ b'i' ∷ b't' ∷ b'h' ∷ [], kw_with)
    ∷ (b'n' ∷ b'e' ∷ b'w' ∷ [], kw_new)
    ∷ (b'y' ∷ b'i' ∷ b'e' ∷ b'l' ∷ b'd' ∷ [], kw_yield)
    ∷ (b'a' ∷ b'w' ∷ b'a' ∷ b'i' ∷ b't' ∷ [], kw_await)
    ∷ (b's' ∷ b't' ∷ b'a' ∷ b't' ∷ b'i' ∷ b'c' ∷ [], kw_static)
    ∷ (b'c' ∷ b'l' ∷ b'a' ∷ b's' ∷ b's' ∷ [], kw_class)
    ∷ (b'e' ∷ b'x' ∷ b't' ∷ b'e' ∷ b'n' ∷ b'd' ∷ b's' ∷ [], kw_extends)
    ∷ (b'p' ∷ b'r' ∷ b'i' ∷ b'v' ∷ b'a' ∷ b't' ∷ b'e' ∷ [], kw_private)
    ∷ (b'p' ∷ b'r' ∷ b'o' ∷ b't' ∷ b'e' ∷ b'c' ∷ b't' ∷ b'e' ∷ b'd' ∷ [], kw_protected)
    ∷ (b'p' ∷ b'u' ∷ b'b' ∷ b'l' ∷ b'i' ∷ b'c' ∷ [], kw_public)
    ∷ (b'g' ∷ b'e' ∷ b't' ∷ [], kw_get)
    ∷ (b's' ∷ b'e' ∷ b't' ∷ [], kw_set)
    ∷ (b'e' ∷ b'x' ∷ b'p' ∷ b'o' ∷ b'r' ∷ b't' ∷ [], kw_export)
    ∷ (b'i' ∷ b'm' ∷ b'p' ∷ b'o' ∷ b'r' ∷ b't' ∷ [], kw_import)
    ∷ (b'f' ∷ b'r' ∷ b'o' ∷ b'm' ∷ [], kw_from)
    ∷ (b'a' ∷ b's' ∷ [], kw_as)
    ∷ (b'n' ∷ b'u' ∷ b'l' ∷ b'l' ∷ [], kw_null)
    ∷ (b't' ∷ b'r' ∷ b'u' ∷ b'e' ∷ [], kw_true)
    ∷ (b'f' ∷ b'a' ∷ b'l' ∷ b's' ∷ b'e' ∷ [], kw_false)
    ∷ (b't' ∷ b'h' ∷ b'i' ∷ b's' ∷ [], kw_this)
    ∷ (b's' ∷ b'u' ∷ b'p' ∷ b'e' ∷ b'r' ∷ [], kw_super)
    ∷ (b'd' ∷ b'e' ∷ b'b' ∷ b'u' ∷ b'g' ∷ b'g' ∷ b'e' ∷ b'r' ∷ [], kw_debugger)
    ∷ (b'p' ∷ b'a' ∷ b's' ∷ b's' ∷ [], kw_pass)
    ∷ []

-- `keywords[word]`
unfoldable pub keyword_type : Chars → Option TokType
unfolding keyword_table
keyword_type = lookup keyword_table

abbrev includes : List Chars → Chars → Bool
includes [] w = false
includes (v ∷ vs) w = same_text v w || includes vs w

-- `includes(reservedWords.strict, code)`
unfoldable pub is_strict_reserved : Chars → Bool
is_strict_reserved = includes (
    (b'i' ∷ b'm' ∷ b'p' ∷ b'l' ∷ b'e' ∷ b'm' ∷ b'e' ∷ b'n' ∷ b't' ∷ b's' ∷ [])
    ∷ (b'i' ∷ b'n' ∷ b't' ∷ b'e' ∷ b'r' ∷ b'f' ∷ b'a' ∷ b'c' ∷ b'e' ∷ [])
    ∷ (b'l' ∷ b'e' ∷ b't' ∷ [])
    ∷ (b'p' ∷ b'a' ∷ b'c' ∷ b'k' ∷ b'a' ∷ b'g' ∷ b'e' ∷ [])
    ∷ (b'p' ∷ b'r' ∷ b'i' ∷ b'v' ∷ b'a' ∷ b't' ∷ b'e' ∷ [])
    ∷ (b'p' ∷ b'r' ∷ b'o' ∷ b't' ∷ b'e' ∷ b'c' ∷ b't' ∷ b'e' ∷ b'd' ∷ [])
    ∷ (b'p' ∷ b'u' ∷ b'b' ∷ b'l' ∷ b'i' ∷ b'c' ∷ [])
    ∷ (b's' ∷ b't' ∷ b'a' ∷ b't' ∷ b'i' ∷ b'c' ∷ [])
    ∷ (b'y' ∷ b'i' ∷ b'e' ∷ b'l' ∷ b'd' ∷ [])
    ∷ [])

abbrev all_plain : List (Chars × TokType) → Bool
all_plain [] = true
all_plain ((v, t) ∷ table) = if is_layout t then false else all_plain table

lookup-plain :
    (table : List (Chars × TokType)) (w : Chars) (t : TokType)
    → all_plain table ≡ true
    → lookup table w ≡ some t
    → is_layout t ≡ false
lookup-plain [] w t h e = absurd cc
lookup-plain ((v, u) ∷ table) w t h e = elim (Bool-cases (is_layout u)) [
  | inl l ↦ absurd (false≢true (rw l at h))
  | inr l ↦ elim (Bool-cases (same_text v w)) [
    | inl k ↦ cc
    | inr k ↦ lookup-plain table w t (rw l at h) (rw k at e)
  ]
]

-- No keyword stands for a part of the layout.
pub keyword_type-plain : (w : Chars) (t : TokType) → keyword_type w ≡ some t → is_layout t ≡ false
unfolding keyword_type keyword_table
keyword_type-plain w t e = lookup-plain keyword_table w t refl e
