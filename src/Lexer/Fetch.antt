-- ===== src/Lexer/Fetch.antt =====
-- `readNextToken` and `readToken` of packages/horchata/src/lexer/index.js, up to the call of `finishToken`.
use tacoscript.Prelude.{
  ℕ, Bool, true, false, not, ◌&&◌, ◌||◌, Option, none, some, List, [], ◌∷◌, if◌then◌else◌, ◌==◌,
  ltb, length, take, drop, ◌-◌,
}
use tacoscript.Token.{
  TokType, num, regexp, string, name, newline, indent, dedent, eof, template, dollar_brace_l,
  back_quote,
}
use tacoscript.Token.Key.{◌===◌}
use tacoscript.Token.Conf.{type_of}
use tacoscript.Text.{Chars, is_newline?, exec_line_break}
use tacoscript.Text.Utf16.{full_char_code}
use tacoscript.Text.Ident.{is_identifier_start}
use tacoscript.Reader.{Cursor, Result, ok, raise, type_error, ◌>>=◌, unexpected_character}
use tacoscript.Reader.Word.{WordToken, keyword_token, name_token, read_word}
use tacoscript.Reader.Punct.{
  Fetched, finished, finished_silently, number, text, pattern, line_comment, Mode,
  get_token_from_code,
}
use tacoscript.Indentation.{IndentState, has_indentation_changed}
use tacoscript.Context.{TokContext, tmpl_str, preserve_space}
use tacoscript.Lexer.{
  State, Setup, TokenValue, label, chars, number_value, pattern_value, name_value,
}
use tacoscript.Lexer.Skip.{skip_non_tokens, skip_indentation}
use tacoscript.Lexer.Template.{TmplToken, tmpl_text, tmpl_brace, tmpl_end, read_tmpl_token}

-- How the method goes on: with `finishToken(type, val)`, and whether it returns the token; with a
-- line comment whose opening is so many characters, and the token behind it; or with nothing.
pub data Next : Type 0 where
  finishing : Bool → TokType → TokenValue → State → Next
  commenting : ℕ → State → Next
  stopping : State → Next

-- `finishToken(type)`
abbrev pub plainly : TokType → State → Next
plainly type s = finishing true type (label (type_of type).label) s

abbrev pub at_cursor : State → Cursor → State
at_cursor s c = record s { cursor = c }

-- `val === undefined` is the label of the type
abbrev pub value_or_label : TokType → Option Chars → TokenValue
value_or_label type none = label (type_of type).label
value_or_label type (some val) = chars val

abbrev pub fetched : State → Fetched → Next
fetched s (finished type val c) = finishing true type (value_or_label type val) (at_cursor s c)
fetched s (finished_silently type val c) =
    finishing false type (value_or_label type val) (at_cursor s c)
fetched s (number n c) = finishing true num (number_value n) (at_cursor s c)
fetched s (text val c) = finishing true string (chars val) (at_cursor s c)
fetched s (pattern r c) = finishing true regexp (pattern_value r) (at_cursor s c)
fetched s (line_comment n c) = commenting n (at_cursor s c)

abbrev pub fetched_word : State → WordToken × Cursor → Next
fetched_word s (keyword_token t word, c) = finishing true t (chars word) (at_cursor s c)
fetched_word s (name_token word raw, c) = finishing true name (name_value word raw) (at_cursor s c)

abbrev is_match : Option (ℕ × ℕ) → Bool
is_match none = false
is_match (some m) = true

-- What the readers consult: `lineBreak.test(this.input.slice(this.state.prev.end, this.state.pos))`.
unfoldable pub mode_of : Setup → State → Mode
mode_of e s = record {
  env = e.env;
  in_module = s.indents.in_module;
  expr_allowed = s.context.expr_allowed;
  after_line_break =
      is_match (exec_line_break (take (s.cursor.pos - s.prev.end_) (drop s.prev.end_ e.input)) 0);
}

-- `isIdentifierStart(code) || code === 92`; a NaN starts no identifier
abbrev pub starts_word : Setup → Option ℕ → Bool
starts_word e none = false
starts_word e (some code) = is_identifier_start e.identifiers code || code == 92

-- `getTokenFromCode(code)`; a NaN is an unexpected character
abbrev pub from_code : Setup → State → Option ℕ → Result Next
from_code e s none = raise (some s.cursor.pos) unexpected_character
from_code e s (some code) =
    get_token_from_code e.identifiers (mode_of e s) code s.cursor >>= λ f. ok (fetched s f)

-- `readConcreteToken(code)`
unfoldable pub read_concrete_token : Setup → Option ℕ → State → Result Next
unfolding read_word get_token_from_code
read_concrete_token e code s =
    if starts_word e code
    then (read_word e.identifiers s.cursor >>= λ w. ok (fetched_word s w))
    else from_code e s code

-- Behind `hasIndentationChanged(code)`.
abbrev pub by_change : Setup → Option ℕ → State → Bool × IndentState → Result Next
by_change e code s (changed, i) =
    let s' = record s { indents = i } in
    let concrete = read_concrete_token e code s' in
    if changed
    then ok (if ltb i.indentation i.next_indentation then plainly indent s' else plainly newline s')
    else concrete

abbrev pub code_or_0 : Option ℕ → ℕ
code_or_0 none = 0
code_or_0 (some code) = code

-- `readToken(code)`
unfoldable pub read_token : Setup → Option ℕ → State → Result Next
unfolding read_concrete_token has_indentation_changed
read_token e code s =
    let looked =
      (has_indentation_changed e.input (code_or_0 code) 1 (record s.indents { pos = s.cursor.pos })
        >>= by_change e code s) in
    let concrete = read_concrete_token e code s in
    if not s.indents.eol && is_newline? code then looked else concrete

abbrev pub tmpl_next : State → TmplToken → Next
tmpl_next s (tmpl_text out c) = finishing true template (chars out) (at_cursor s c)
tmpl_next s (tmpl_brace c) = plainly dollar_brace_l (at_cursor s c)
tmpl_next s (tmpl_end c) = plainly back_quote (at_cursor s c)

-- `curContext.override(this)`, or `readToken`. An empty stack of contexts has no `override` to read.
unfoldable pub read_in_context : Setup → List TokContext → State → Result Next
unfolding read_token read_tmpl_token
read_in_context e [] s = type_error
read_in_context e (tmpl_str ∷ cs) s =
    read_tmpl_token e.env (s.prev_lex_type === template) s.cursor >>= λ t. ok (tmpl_next s t)
read_in_context e (c ∷ cs) s = read_token e (full_char_code s.cursor.rest) s

-- `curContext == null || !curContext.preserveSpace`
abbrev pub skips : List TokContext → Bool
skips [] = true
skips (c ∷ cs) = not (preserve_space c)

-- The white space in front of the token.
unfoldable pub skip_to_token : Setup → State → Result State
unfolding skip_non_tokens skip_indentation
skip_to_token e s =
    let indented = skip_indentation e s in
    let skipped =
      ((if s.indents.eol && not (s.cursor.pos == s.indents.eol_pos) then indented else ok s)
        >>= λ s'. skip_non_tokens e (length e.input) s') in
    if skips s.context.context then skipped else ok s

abbrev pub is_empty : Chars → Bool
is_empty [] = true
is_empty (c ∷ cs) = false

abbrev pub start_token_lex : State → State
start_token_lex s = record s { lex = record s.lex { start = s.cursor.pos } }

-- At the end of the input: the open blocks are closed, and then there is one `eof`.
abbrev pub at_input_end : State → Next
at_input_end s =
    if ltb 0 s.indents.indentation
    then plainly newline (record s { indents = record s.indents { next_indentation = 0 } })
    else if not (s.lex.type === eof) || length s.tokens == 0
    then plainly eof s
    else stopping s

-- The indentation has changed: `indent`, or a line break and `dedent` for each level.
abbrev pub change_level : State → Next
change_level s =
    if ltb s.indents.indentation s.indents.next_indentation
    then plainly indent s
    else if s.prev_lex_type === newline
    then plainly dedent s
    else plainly newline s

-- Where the token starts: the end of the input, or a token by the context before the white space.
abbrev pub from_start : Setup → List TokContext → State → Result Next
from_start e cs s =
    let read = read_in_context e cs s in
    if is_empty s.cursor.rest then ok (at_input_end s) else read

-- `readNextToken()` up to `finishToken`
unfoldable pub next_token_of : Setup → State → Result Next
unfolding skip_to_token read_in_context
next_token_of e s =
    let s' = record s { prev_lex_type = s.lex.type } in
    let read = (skip_to_token e s' >>= λ t. from_start e s.context.context (start_token_lex t)) in
    if not (s.indents.next_indentation == s.indents.indentation) then ok (change_level s') else read
