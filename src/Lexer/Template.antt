-- ===== src/Lexer/Template.antt =====
-- `readTmplToken` of packages/horchata/src/lexer/index.js: the tokens of a template's text.
pub mod Total
use tacoscript.Prelude.{
  ℕ, zero, suc, ◌+◌, Bool, true, ◌&&◌, ◌||◌, [], ◌∷◌, ◌++◌, if◌then◌else◌, ◌==◌, length,
}
use tacoscript.Text.{Chars, is_newline, is_code}
use tacoscript.Reader.{
  Cursor, peek, advance, new_line, Env, Result, ok, raise, out_of_fuel, ◌>>=◌,
  unterminated_template,
}
use tacoscript.Reader.Escape.{read_escaped_char}
use tacoscript.Prelude.{none}

-- The text up to the `${` or the backquote, and the cursor at it: the loop, where `chunk` is the
-- input from `chunkStart` to the cursor. The error has no position, as `state.start` is not set.
unfoldable pub read_tmpl_from : ℕ → Env → Chars → Chars → Cursor → Result (Chars × Cursor)
read_tmpl_from zero env out chunk c = out_of_fuel
read_tmpl_from (suc fuel) env out chunk c = elim c.rest [
  | [] ↦ raise none unterminated_template
  | ch ∷ _ ↦
      let escape = read_escaped_char env true c >>= λ (s, c').
      read_tmpl_from fuel env ((out ++ chunk) ++ s) [] c' in
      let crlf = ch == 13 && is_code (peek c 1) 10 in
      let break =
        read_tmpl_from fuel env ((out ++ chunk) ++ (if ch == 13 then 10 else ch) ∷ []) []
          (new_line (advance (if crlf then 2 else 1) c)) in
      let next = read_tmpl_from fuel env out (chunk ++ ch ∷ []) (advance 1 c) in
      if ch == 96 || ch == 36 && is_code (peek c 1) 123
      then ok (out ++ chunk, c)
      else if ch == 92
      then escape
      else if is_newline ch
      then break
      else next
]

-- What the token at the cursor is: its text, or the mark that ends the text.
pub data TmplToken : Type 0 where
  tmpl_text : Chars → Cursor → TmplToken
  tmpl_brace tmpl_end : Cursor → TmplToken

-- `readTmplToken()` from the start of the token; `behind_text` is whether the last token was a
-- template's text. The mark is looked for at the start only, since elsewhere `pos` is not `lex.start`.
unfoldable pub read_tmpl_token : Env → Bool → Cursor → Result TmplToken
unfolding read_tmpl_from
read_tmpl_token env behind_text c =
    let text =
      (read_tmpl_from (length c.rest + 1) env [] [] c >>= λ (out, c'). ok (tmpl_text out c')) in
    if behind_text && is_code (peek c 0) 36 && is_code (peek c 1) 123
    then ok (tmpl_brace (advance 2 c))
    else if behind_text && is_code (peek c 0) 96
    then ok (tmpl_end (advance 1 c))
    else text
