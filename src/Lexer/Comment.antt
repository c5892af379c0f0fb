-- ===== src/Lexer/Comment.antt =====
-- Comments: `skipLineComment` and `skipBlockComment` of packages/horchata/src/lexer/index.js, with the
-- terminators and their escapes of lexer/comments.js.
pub mod Escapes
use tacoscript.Prelude.{
  ℕ, suc, ◌+◌, ◌-◌, Bool, true, false, ◌&&◌, ◌||◌, Option, none, some, [], ◌∷◌, if◌then◌else◌, ◌==◌,
  ltb, length, drop,
}
use tacoscript.Token.{
  line_comment_start, line_comment_body, block_comment_start, block_comment_body, block_comment_end,
}
use tacoscript.Text.{Chars, is_newline, is_code}
use tacoscript.Reader.{advance, Result, ok, raise, unterminated_comment}
use tacoscript.Indentation.{find_text}
use tacoscript.Lexer.{State, Setup, CommentNode, comment_value, end_non_token, move, slice_from}

-- The kinds of block comment that horchata reads: `#*`, `#%` and `###`.
pub data BlockKind : Type 0 where
  canonical directive commented : BlockKind

abbrev pub start_len : BlockKind → ℕ
start_len canonical = 2
start_len directive = 2
start_len commented = 3

abbrev pub terminator : BlockKind → Chars
terminator canonical = b'*' ∷ b'#' ∷ []
terminator directive = b'%' ∷ b'#' ∷ []
terminator commented = b'#' ∷ b'#' ∷ b'#' ∷ []

-- Whether the text begins with spaces and then the character: ` *#` of the expressions.
unfoldable pub closes : ℕ → Chars → Bool
closes t [] = false
closes t (c ∷ cs) = let rest = closes t cs in if c == 32 then rest else c == t

-- `replace(/\*( *)t/g, "* $1t")`
unfoldable pub escape_terminator : ℕ → Chars → Chars
unfolding closes
escape_terminator t [] = []
escape_terminator t (c ∷ cs) =
    let rest = escape_terminator t cs in if c == 42 && closes t cs then c ∷ 32 ∷ rest else c ∷ rest

abbrev pub space_first : Chars → Bool
space_first [] = false
space_first (c ∷ cs) = c == 32

-- `replace(/\* ( *)t/g, "*$1t")`; the flag says that the character in front is the space that goes
unfoldable pub unescape_from : ℕ → Bool → Chars → Chars
unfolding closes
unescape_from t skip [] = []
unescape_from t true (c ∷ cs) = unescape_from t false cs
unescape_from t false (c ∷ cs) = c ∷ unescape_from t (c == 42 && space_first cs && closes t cs) cs

abbrev pub unescape_terminator : ℕ → Chars → Chars
unescape_terminator t = unescape_from t false

-- The value of a block comment: its text with the escapes of its kind undone, and then with those
-- of a JavaScript comment made.
unfoldable pub block_value : BlockKind → Chars → Chars
unfolding escape_terminator unescape_from
block_value canonical raw = escape_terminator b'/' (unescape_terminator b'#' raw)
block_value directive raw = escape_terminator b'/' raw
block_value commented raw = escape_terminator b'/' raw

-- `/ +\*/.test(text)`
unfoldable pub has_space_star : Chars → Bool
has_space_star [] = false
has_space_star (c ∷ cs) = c == 32 && closes 42 (32 ∷ cs) || has_space_star cs

-- The value of a line comment.
unfoldable pub line_value : Chars → Chars
unfolding has_space_star
line_value raw = if has_space_star raw then drop 1 raw else raw

-- How many characters stand before the next line break.
unfoldable pub line_length : Chars → ℕ
line_length [] = 0
line_length (c ∷ cs) = let rest = line_length cs in if is_newline c then 0 else suc rest

-- Two tokens of a comment are stored with the index of its node.
abbrev pub push_comment : CommentNode → State → State
push_comment n s = record s { comments = n ∷ s.comments }

-- `skipLineComment(startLength)`
unfoldable pub skip_line_comment : Setup → ℕ → State → State
unfolding line_value line_length
skip_line_comment e n s =
    let i = length s.comments in
    let first = length s.source_elements in
    let s₁ = move n s in
    let kind = slice_from e s.cursor.pos s₁ in
    let s₂ =
      end_non_token line_comment_start (comment_value kind kind none i) s.cursor.pos s₁.cursor.pos
        s₁ in
    let s₃ = move (line_length s₂.cursor.rest) s₂ in
    let raw = slice_from e s₂.cursor.pos s₃ in
    let s₄ =
      end_non_token line_comment_body (comment_value kind raw (some (line_value raw)) i)
        s₂.cursor.pos s₃.cursor.pos s₃ in
    push_comment
      (record {
        is_line = true;
        value = line_value raw;
        start = s.cursor.pos;
        end_ = s₄.cursor.pos;
        token_start = first;
        token_end = length s₄.source_elements;
        index = i;
      })
      s₄

-- `curLine` and `lineStart` behind the line breaks that begin before the position `end`, from the
-- suffix at `i` on. The flag says that the break in front is the end of the one before.
unfoldable pub track_lines : ℕ → Bool → Chars → ℕ → ℕ × ℕ → ℕ × ℕ
track_lines end_ skip [] i lines = lines
track_lines end_ true (c ∷ cs) i lines = track_lines end_ false cs (i + 1) lines
track_lines end_ false (c ∷ cs) i lines =
    let long = c == 13 && is_code (peek_first cs) 10 in
    track_lines end_ (is_newline c && long) cs (i + 1)
      (if is_newline c && ltb i end_ then (lines.0 + 1, (if long then i + 2 else i + 1)) else lines)
  where
    peek_first : Chars → Option ℕ
    peek_first [] = none
    peek_first (c ∷ cs) = some c

-- The body of a block comment is read up to its terminator, which stands at `end`.
abbrev pub skip_block_to : Setup → BlockKind → ℕ → State → State
skip_block_to e kind end_ s =
    let i = length s.comments in
    let s₁ = move (start_len kind) s in
    let mark = slice_from e s.cursor.pos s₁ in
    let s₂ =
      end_non_token block_comment_start (comment_value mark mark none i) s.cursor.pos s₁.cursor.pos
        s₁ in
    let lines =
      track_lines end_ false s₂.cursor.rest s₂.cursor.pos
        (s₂.cursor.cur_line, s₂.cursor.line_start) in
    let c = advance (end_ - s₂.cursor.pos) s₂.cursor in
    let s₃ = record s₂ { cursor = record c { cur_line = lines.0; line_start = lines.1 } } in
    let raw = slice_from e s₂.cursor.pos s₃ in
    let s₄ =
      end_non_token block_comment_body (comment_value mark raw (some (block_value kind raw)) i)
        s₂.cursor.pos s₃.cursor.pos s₃ in
    let s₅ = move 2 s₄ in
    let s₆ =
      end_non_token block_comment_end (comment_value mark (slice_from e s₄.cursor.pos s₅) none i)
        s₄.cursor.pos s₅.cursor.pos s₅ in
    let node : CommentNode = record {
      is_line = false;
      value = block_value kind raw;
      start = s.cursor.pos;
      end_ = s₆.cursor.pos;
      token_start = length s.source_elements;
      token_end = length s₆.source_elements;
      index = i;
    } in
    elim kind [ canonical ↦ push_comment node s₆ | _ ↦ s₆ ]

-- `end === -1` raises
abbrev pub skip_found : Setup → BlockKind → State → Option ℕ → Result State
skip_found e kind s none = raise (some (s.cursor.pos + start_len kind)) unterminated_comment
skip_found e kind s (some end_) = ok (skip_block_to e kind end_ s)

-- `skipBlockComment(startLength)`
unfoldable pub skip_block_comment : Setup → BlockKind → State → Result State
unfolding block_value track_lines find_text
skip_block_comment e kind s =
    let c = advance (start_len kind) s.cursor in
    skip_found e kind s (find_text (terminator kind) c.rest c.pos)
