-- ===== src/Printer/Buffer.antt =====
-- `TacoBuffer` of packages/tacotruck/src/printer/buffer.js: the operations that add tokens.
use tacoscript.Prelude.{
  ℕ, suc, ◌+◌, ◌-◌, Bool, false, not, ◌&&◌, ◌||◌, Option, none, some, List, [], ◌∷◌, ◌++◌,
  if◌then◌else◌, ltb, ◌==◌, replicate,
}
use tacoscript.Text.{Chars}
use tacoscript.Token.{
  TokType, tab, newline, indent, dedent, whitespace, block_comment_body, template, string,
  mapping_mark,
}
use tacoscript.Token.Key.{◌===◌}
use tacoscript.Printer.{Value, no_value, code, level, mark, PrintToken, is_some}
use tacoscript.Printer.Space.{needs_force_space, needs_formatting_space}

-- The state. `tokens` has the last token first; `cache` is `__last`, where `none` is `undefined`;
-- `depth` and `last_depth` are `_indent` and `_lastIndent`.
pub record Buffer : Type 0 where
  pub tokens : List PrintToken
  pub cache : Option PrintToken
  pub depth : ℕ
  pub last_depth : ℕ
  pub cur_line : ℕ
  pub compact : Bool

abbrev pub token : TokType → Value → PrintToken
token t v = record { type = t; value = v; unary = false }

-- `constructor`
abbrev pub new_buffer : Bool → Buffer
new_buffer compact = record {
  tokens = token tab (level 0) ∷ [];
  cache = none;
  depth = 0;
  last_depth = 0;
  cur_line = 1;
  compact = compact;
}

abbrev pub is_mark : PrintToken → Bool
is_mark t = t.type === mapping_mark

-- The last token that is no mapping mark (`_lastOffset`), or `undefined`.
unfoldable pub last_of : List PrintToken → Option PrintToken
last_of [] = none
last_of (t ∷ ts) = if is_mark t then last_of ts else some t

-- `_last()`: the answer; the caching is `remember`
unfoldable pub last : Buffer → Option PrintToken
unfolding last_of
last b = elim b.cache [ none ↦ last_of b.tokens | some t ↦ some t ]

abbrev pub remember : Buffer → Buffer
remember b = record b { cache = last b }

-- `lastTokenIsNewline()`, which remembers the last token unless there is no token
abbrev pub is_newline_token : Option PrintToken → Bool
is_newline_token none = false
is_newline_token (some t) = t.type === newline

abbrev pub last_is_newline : Buffer → Bool
last_is_newline b = is_newline_token (last b)

-- `this.tokens.splice(len - i, 1)`: where every token is a mark, the index -1 is the last one
unfoldable pub remove_last : List PrintToken → List PrintToken
remove_last [] = []
remove_last (t ∷ ts) =
    let rest = remove_last ts in
    if is_some (last_of (t ∷ ts)) then (if is_mark t then t ∷ rest else ts) else ts

-- The tokens that `_insertIndentTokens` pushes, last first.
unfoldable pub indent_tokens : ℕ → ℕ → List PrintToken
indent_tokens depth last_depth =
    if ltb last_depth depth
    then replicate (depth - last_depth) (token indent no_value)
    else replicate (last_depth - depth) (token dedent no_value)

-- `_insertIndentTokens()`
unfoldable pub insert_indent_tokens : Buffer → Buffer
unfolding indent_tokens
insert_indent_tokens b = record b {
  tokens = indent_tokens b.depth b.last_depth ++ b.tokens;
  last_depth = b.depth;
}

-- `code.split(lineBreakG).length - 1`: the line breaks, where `inside` is behind a CR
unfoldable pub count_breaks : Bool → Chars → ℕ
count_breaks after_cr [] = 0
count_breaks after_cr (c ∷ cs) =
    let rest = count_breaks (c == 13) cs in
    if c == 13 || c == 0x2028 || c == 0x2029 || c == 10 && not after_cr then suc rest else rest

-- The types whose `value.code` may hold line breaks.
abbrev pub has_lines : TokType → Bool
has_lines t = t === block_comment_body || t === template || t === string

-- The breaks of the token; `none` is the TypeError of a value without `code`.
unfoldable pub breaks : PrintToken → Option ℕ
unfolding count_breaks
breaks t =
    if has_lines t.type
    then (elim t.value [ code v ↦ some (count_breaks false v) | _ ↦ none ])
    else some 0

-- `_insertForceSpace(state) || _insertFormattingSpace(state)`
unfoldable pub insert_space : PrintToken → Buffer → Buffer
unfolding last needs_force_space needs_formatting_space
insert_space t b =
    if needs_force_space (last b) t || not b.compact && needs_formatting_space (last b) t
    then record b { tokens = token whitespace (code (32 ∷ [])) ∷ b.tokens }
    else b

-- What `_push` does before the spaces: the indentation.
unfoldable pub start_token : PrintToken → Buffer → Buffer
unfolding insert_indent_tokens last
start_token t b =
    if t.type === newline
    then insert_indent_tokens (record b { cur_line = b.cur_line + 1 })
    else if last_is_newline b
    then record (remember b) { tokens = token tab (level b.depth) ∷ b.tokens }
    else remember b

-- `_isRedundantMappingMark(state)`
abbrev pub is_redundant : Value → List PrintToken → Bool
is_redundant (mark p) (t ∷ ts) = is_mark t && (elim t.value [ mark q ↦ p == q | _ ↦ false ])
is_redundant _ _ = false

-- The token comes behind its space, and the cached last token is forgotten.
abbrev pub add_token : PrintToken → Option ℕ → Buffer → Option Buffer
add_token t none b = none
add_token t (some n) b =
    some (record b { tokens = t ∷ b.tokens; cache = none; cur_line = b.cur_line + n })

-- `_push(state)`; `none` is a TypeError
unfoldable pub push : PrintToken → Buffer → Option Buffer
unfolding start_token breaks insert_space
push t b =
    if is_mark t
    then (if is_redundant t.value b.tokens
        then some b
        else some (record b { tokens = t ∷ b.tokens }))
    else add_token t (breaks t) (insert_space t (start_token t b))

-- `newline(force)`
unfoldable pub push_newline : Bool → Buffer → Option Buffer
unfolding push last
push_newline force b =
    if force
    then push (token newline no_value) b
    else if last_is_newline b
    then some (remember b)
    else push (token newline no_value) (remember b)

-- The token that `_pop()` returns goes back; there is one, where the last token is a newline.
abbrev pub put_back : Option PrintToken → List PrintToken → List PrintToken
put_back none ts = ts
put_back (some t) ts = t ∷ ts

-- The end of `indent()` and of `dedent()`: the tokens go before a newline that stands last.
unfoldable pub place_indent : Buffer → Buffer
unfolding last remove_last insert_indent_tokens
place_indent b =
    let b' = insert_indent_tokens (record b { tokens = remove_last b.tokens; cache = none }) in
    if last_is_newline b
    then record b' { tokens = put_back (last_of b.tokens) b'.tokens }
    else remember b

-- `indent()`
unfoldable pub do_indent : Buffer → Buffer
unfolding place_indent
do_indent b = place_indent (record b { depth = b.depth + 1 })

-- `dedent()`; `none` where `_indent` would become negative
unfoldable pub do_dedent : Buffer → Option Buffer
unfolding place_indent
do_dedent b = if b.depth == 0 then none else some (place_indent (record b { depth = b.depth - 1 }))
