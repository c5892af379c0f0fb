-- ===== src/Lexer/Skip.antt =====
-- White space and comments between tokens: `skipNonTokens` of packages/horchata/src/lexer/index.js and
-- `skipIndentation` of lexer/indentation.js.
pub mod Frame
pub mod AtEnd
use tacoscript.Prelude.{
  ℕ, zero, suc, ◌+◌, ◌-◌, Bool, true, false, not, ◌&&◌, ◌||◌, Option, none, some, if◌then◌else◌,
  ◌==◌, ltb, length, drop,
}
use tacoscript.Token.{TokType, whitespace, tab}
use tacoscript.Token.Conf.{type_of}
use tacoscript.Text.{is_newline, is_newline?, is_code}
use tacoscript.Reader.{
  Cursor, peek, advance, new_line, Result, ok, raise, type_error, out_of_fuel, ◌>>=◌,
}
use tacoscript.Indentation.{is_space}
use tacoscript.Lexer.{State, Setup, code_value, level_value, end_non_token, slice_from}
use tacoscript.Lexer.Comment.{
  BlockKind, canonical, directive, commented, skip_line_comment, skip_block_comment,
}

-- `storeWhitespace(start, this.state.pos, ...)`, where there is any
abbrev pub store_whitespace : Setup → ℕ → State → State
store_whitespace e start s =
    if ltb start s.cursor.pos
    then end_non_token whitespace (code_value (slice_from e start s)) start s.cursor.pos s
    else s

-- What the loop finds at the cursor: white space of so many characters, perhaps with a line break
-- in it, a comment, or the next token.
pub data Skipped : Type 0 where
  space : Bool → ℕ → Skipped
  line_comment : Skipped
  block_comment : BlockKind → Skipped
  token_start : Skipped

-- An escaped line break, of two characters or three.
abbrev escaped_length : Cursor → ℕ
escaped_length c = if is_code (peek c 1) 13 && is_code (peek c 2) 10 then 3 else 2

-- The kind of the comment at a `#`.
unfoldable pub comment_at : Cursor → Skipped
comment_at c =
    if is_code (peek c 1) 42
    then block_comment canonical
    else if is_code (peek c 1) 37
    then block_comment directive
    else if is_code (peek c 1) 35 && is_code (peek c 2) 35 && is_newline? (peek c 3)
    then block_comment commented
    else line_comment

-- `continues` is `lex.type.continuesExpr`: then a line break is white space, too.
unfoldable pub find_skipped : Bool → ℕ → Cursor → Skipped
unfolding comment_at is_space
find_skipped continues ch c =
    if ch == 92 && is_newline? (peek c 1)
    then space true (escaped_length c)
    else if (not (is_newline ch) || continues) && is_space ch
    then space (is_newline ch) 1
    else if ch == 35
    then comment_at c
    else token_start

abbrev pub skip_space : Bool → ℕ → State → State
skip_space breaks n s = record s {
  cursor = (if breaks then new_line (advance n s.cursor) else advance n s.cursor);
}

-- A round of the loop at what is found: with the start of the white space, the rest of the loop
-- is run, or it is left with `break`.
abbrev pub skip_round : Setup → (ℕ → State → Result State) → ℕ → Skipped → State → Result State
skip_round e rest start (space breaks n) s = rest start (skip_space breaks n s)
skip_round e rest start line_comment s =
    let s' = skip_line_comment e 1 (store_whitespace e start s) in rest s'.cursor.pos s'
skip_round e rest start (block_comment kind) s =
    skip_block_comment e kind (store_whitespace e start s) >>= λ s'. rest s'.cursor.pos s'
skip_round e rest start token_start s = ok (store_whitespace e start s)

-- The character at the cursor. Behind the input there is none, and the loop is left.
abbrev pub skip_char : Setup → (ℕ → State → Result State) → ℕ → State → Option ℕ → Result State
skip_char e rest start s none = ok (store_whitespace e start s)
skip_char e rest start s (some ch) =
    skip_round e rest start (find_skipped (type_of s.lex.type).continues_expr ch s.cursor) s

-- The rounds, with fuel, up to the position `end`.
unfoldable pub skip_rounds : ℕ → Setup → ℕ → ℕ → State → Result State
unfolding find_skipped
skip_rounds zero e end_ start s = out_of_fuel
skip_rounds (suc fuel) e end_ start s =
    let round = skip_char e (skip_rounds fuel e end_) start s (peek s.cursor 0) in
    if ltb s.cursor.pos end_ then round else ok (store_whitespace e start s)

-- `skipNonTokens(end)`
unfoldable pub skip_non_tokens : Setup → ℕ → State → Result State
unfolding skip_rounds
skip_non_tokens e end_ s = skip_rounds (length s.cursor.rest + 1) e end_ s.cursor.pos s

-- The token of the indentation, and the position behind it.
abbrev pub take_indentation : State → State
take_indentation s =
    let i = s.indents in
    let t =
      (if ltb i.indent_start i.indent_end
        then end_non_token tab (level_value i.indentation) i.indent_start i.indent_end s
        else s) in
    record t {
      cursor =
          (if ltb t.cursor.pos i.indent_end
            then advance (i.indent_end - t.cursor.pos) t.cursor
            else t.cursor);
      indents = record i { eol = false };
    }

-- `skipIndentation()`
unfoldable pub skip_indentation : Setup → State → Result State
skip_indentation e s =
    let skipped = skip_non_tokens e s.indents.indent_start s in
    (if ltb s.cursor.pos s.indents.indent_start then skipped else ok s) >>= λ s'.
    ok (take_indentation s')
