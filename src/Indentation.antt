-- ===== src/Indentation.antt =====
-- packages/horchata/src/lexer/indentation.js: how a line break finds the indentation of the next line
-- that has code, with `_isCommentStart` and `_findCommentEnd` of lexer/index.js and the terminators
-- of lexer/comments.js.
pub mod Fuel
pub mod Levels
pub mod Frame
use tacoscript.Prelude.{
  ℕ, zero, suc, ◌+◌, ◌-◌, ◌*◌, ◌/◌, ◌%◌, Bool, true, false, not, ◌&&◌, ◌||◌, Option, none, some,
  List, [], ◌∷◌, if◌then◌else◌, ltb, leb, ◌==◌, length, take, drop, get_elem?,
}
use tacoscript.Text.{Chars, is_newline, is_newline?, is_code, non_ascii_whitespace, exec_line_break}
use tacoscript.Reader.{
  Result, ok, raise, type_error, out_of_fuel, ◌>>=◌, unterminated_comment, inconsistent_indentation,
  invalid_indentation,
}

-- `file.format.indent`
pub record IndentFormat : Type 0 where
  pub amount : ℕ
  pub is_tab : Bool
  pub indent : Chars

-- The fields of `State` that the methods read or write; `none` is -1, or `null` for the string.
pub record IndentState : Type 0 where
  pub pos : ℕ
  pub in_module : Bool
  pub eol : Bool
  pub eol_pos : ℕ
  pub indentation : ℕ
  pub next_indentation : ℕ
  pub indent_string : Option Chars
  pub indent_char_code : Option ℕ
  pub indent_repeat : ℕ
  pub indent_start : ℕ
  pub indent_end : ℕ
  pub format : Option IndentFormat

abbrev pub char_at : Chars → ℕ → Option ℕ
char_at = get_elem?

-- the test that both loops write out: white space, and no line separator
unfoldable pub is_space : ℕ → Bool
is_space ch =
    ch == 32 || ch == 160 || ltb 8 ch && ltb ch 14 || leb 5760 ch && non_ascii_whitespace ch

abbrev pub is_space? : Option ℕ → Bool
is_space? none = false
is_space? (some ch) = is_space ch

-- Whether the text begins with the pattern.
unfoldable pub begins : Chars → Chars → Bool
begins [] cs = true
begins (p ∷ ps) [] = false
begins (p ∷ ps) (c ∷ cs) = p == c && begins ps cs

-- `input.indexOf(pattern, i)`, where the suffix is the input from `i` on
unfoldable pub find_text : Chars → Chars → ℕ → Option ℕ
unfolding begins
find_text pattern [] i = if begins pattern [] then some i else none
find_text pattern (c ∷ cs) i =
    let later = find_text pattern cs (i + 1) in if begins pattern (c ∷ cs) then some i else later

-- `_isCommentStart(ch, pos)`
unfoldable pub is_comment_start : Chars → Bool → ℕ → ℕ → Bool
is_comment_start input in_module ch pos =
    if ch == 35
    then true
    else if in_module
    then false
    else ch == 60
        && is_code (char_at input (pos + 1)) 33
        && is_code (char_at input (pos + 2)) 45
        && is_code (char_at input (pos + 3)) 45
      || ch == 45 && is_code (char_at input (pos + 1)) 45 && is_code (char_at input (pos + 2)) 62

-- The kinds that `_findCommentEnd` tells apart. `formatting` stands for the key "#$", under which
-- `blockCommentMeta` has no entry.
pub data CommentKind : Type 0 where
  block formatting commented line : CommentKind

-- The look at the third and fourth character of `###` goes by the lexer's position `at`.
unfoldable pub comment_kind : Chars → Bool → ℕ → ℕ → ℕ → CommentKind
comment_kind input in_module at ch pos =
    if not in_module && not (ch == 35)
    then line
    else if is_code (char_at input (pos + 1)) 42
    then block
    else if is_code (char_at input (pos + 1)) 37
    then formatting
    else if is_code (char_at input (pos + 1)) 35
        && is_code (char_at input (at + 2)) 35
        && is_newline? (char_at input (at + 3))
    then commented
    else line

-- `end === -1` raises; behind the terminator otherwise
abbrev behind : ℕ → ℕ → Option ℕ → Result ℕ
behind pos end_len none = raise (some pos) unterminated_comment
behind pos end_len (some end_) = ok (end_ + end_len)

abbrev line_end : Chars → Option (ℕ × ℕ) → ℕ
line_end input none = length input
line_end input (some (i, _)) = i

unfoldable pub find_end_of_kind : CommentKind → Chars → ℕ → Result ℕ
find_end_of_kind block input pos =
    behind pos 2 (find_text (b'*' ∷ b'#' ∷ []) (drop (pos + 2) input) (pos + 2))
find_end_of_kind formatting input pos = type_error
find_end_of_kind commented input pos =
    behind pos 3 (find_text (b'#' ∷ b'#' ∷ b'#' ∷ []) (drop (pos + 3) input) (pos + 3))
find_end_of_kind line input pos = ok (line_end input (exec_line_break (drop pos input) pos))

-- `_findCommentEnd(ch, pos)`
unfoldable pub find_comment_end : Chars → Bool → ℕ → ℕ → ℕ → Result ℕ
unfolding find_end_of_kind comment_kind
find_comment_end input in_module at ch pos =
    find_end_of_kind (comment_kind input in_module at ch pos) input pos

-- The variables of the loops of `hasIndentationChanged`.
pub record Scan : Type 0 where
  pub pos : ℕ
  pub indent_len : ℕ
  pub indent_end : Option ℕ
  pub char_code : Option ℕ
  pub inconsistent : Bool
  pub indent_start : ℕ

-- Whether a round ends by `break`.
pub data Round : Type 0 where
  again stop : Scan → Round

-- A line break: the next line begins behind it. `known` is the indentation character to go back to.
abbrev pub next_line : Chars → Option ℕ → ℕ → Scan → Scan
next_line input known ch s =
    let pos =
      (if ch == 13 && is_code (char_at input (s.pos + 1)) 10 then s.pos + 2 else s.pos + 1) in
    record {
      pos = pos;
      indent_len = 0;
      indent_end = none;
      char_code = known;
      inconsistent = false;
      indent_start = pos;
    }

abbrev pub or_else : Option ℕ → ℕ → ℕ
or_else none p = p
or_else (some e) p = e

-- `indentEnd === -1 ? pos : indentEnd`
abbrev pub end_of : Scan → ℕ
end_of s = or_else s.indent_end s.pos

-- `if (indentEnd === -1) indentEnd = pos`
abbrev pub end_here : Scan → Scan
end_here s = record s { indent_end = some (end_of s) }

-- `indentEnd === -1`
abbrev pub is_open : Option ℕ → Bool
is_open none = true
is_open (some e) = false

-- A comment: the indentation ends before it, and white space behind it ends the search.
abbrev pub skip_comment : Chars → Bool → ℕ → ℕ → Scan → Result Round
skip_comment input in_module at ch s = find_comment_end input in_module at ch s.pos >>= λ pos.
    (let s' = record (end_here s) { pos = pos } in
      let ch' = char_at input pos in
      ok (if not (is_newline? ch') && is_space? ch' then stop s' else again s'))

-- One more character of indentation.
abbrev pub one_more : Scan → Scan
one_more s = record s { pos = s.pos + 1; indent_len = suc s.indent_len }

-- `ch === indentCharCode`
abbrev pub is_char : Option ℕ → ℕ → Bool
is_char known ch = is_code known ch

-- The body of the first loop, which detects the indentation character, at `ch`.
unfoldable pub detect_round : Chars → Bool → ℕ → ℕ → Scan → Result Round
detect_round input in_module at ch s =
    if is_newline ch
    then ok (again (next_line input none ch s))
    else if is_char s.char_code ch
    then ok (again (one_more s))
    else if is_space ch
    then ok (
        again (elim s.char_code [
          | none ↦ record (one_more s) { char_code = some ch }
          | some _ ↦ record (one_more s) { inconsistent = true }
        ]))
    else if is_comment_start input in_module ch s.pos
    then skip_comment input in_module at ch s
    else ok (stop s)

-- The body of the second loop, where the character is known. White space is the only way to
-- inconsistency, and that raises at once.
unfoldable pub known_round : Chars → Bool → ℕ → ℕ → ℕ → Scan → Result Round
known_round input in_module at known ch s =
    if is_newline ch
    then ok (again (next_line input (some known) ch s))
    else if ch == known && is_open s.indent_end
    then ok (again (one_more s))
    else if is_space ch
    then (if is_open s.indent_end
        then raise (some at) inconsistent_indentation
        else ok (again (record s { pos = s.pos + 1 })))
    else if is_comment_start input in_module ch s.pos
    then skip_comment input in_module at ch s
    else ok (stop s)

-- What follows a round: the loop goes on, or ends.
abbrev pub behind_round : (Scan → Result Scan) → Result Round → Result Scan
behind_round rest (ok (again s)) = rest s
behind_round rest (ok (stop s)) = ok s
behind_round rest (raise p m) = raise p m
behind_round rest type_error = type_error
behind_round rest out_of_fuel = out_of_fuel

-- `while (pos < input.length)`, with fuel
unfoldable pub scan_loop : ℕ → Chars → (ℕ → Scan → Result Round) → Scan → Result Scan
scan_loop zero input body s = out_of_fuel
scan_loop (suc fuel) input body s = elim (char_at input s.pos) [
  | none ↦ ok s
  | some ch ↦ behind_round (scan_loop fuel input body) (body ch s)
]

-- Where the search starts: behind the line break at `st.pos`.
abbrev pub start_scan : Chars → ℕ → IndentState → Scan
start_scan input newline_code st =
    let start =
      (if newline_code == 13 && is_code (char_at input (st.pos + 1)) 10
        then st.pos + 2
        else st.pos + 1) in
    record {
      pos = start;
      indent_len = 0;
      indent_end = none;
      char_code = st.indent_char_code;
      inconsistent = false;
      indent_start = start;
    }

-- The assignments that both modes make.
abbrev pub found : ℕ → Scan → IndentState → IndentState
found at s st = record st {
  eol = true;
  eol_pos = at;
  indent_start = s.indent_start;
  indent_end = end_of s;
}

-- Behind the first loop: the settings, if there is an indentation. `levels` is `expectedLevels`,
-- at least 1.
unfoldable pub settle : Chars → ℕ → Scan → IndentState → Result (Bool × IndentState)
settle input levels s st =
    if s.inconsistent
    then raise (some st.pos) inconsistent_indentation
    else if s.indent_len == 0
    then ok (false, found st.pos s st)
    else if not (s.indent_len % levels == 0)
    then raise (some st.pos) invalid_indentation
    else let amount = s.indent_len / levels in
      let string = take amount (drop s.indent_start input) in
      ok (
        true,
        record (found st.pos s st) {
          indent_string = some string;
          indent_char_code = s.char_code;
          indent_repeat = amount;
          next_indentation = levels;
          format =
              some (record { amount = amount; is_tab = is_code s.char_code 9; indent = string });
        },
      )

-- Behind the second loop: the level of the line.
unfoldable pub measure : Scan → IndentState → Result (Bool × IndentState)
measure s st =
    if not (s.indent_len % st.indent_repeat == 0)
    then raise (some st.pos) invalid_indentation
    else let count = s.indent_len / st.indent_repeat in
      ok (not (count == st.indentation), record (found st.pos s st) { next_indentation = count })

-- The two modes: the character is to be detected, or known.
unfoldable pub find_indentation :
    Option ℕ → Chars → ℕ → ℕ → IndentState → Result (Bool × IndentState)
unfolding settle measure
find_indentation none input newline_code levels st =
    scan_loop (length input + 1) input (detect_round input st.in_module st.pos)
      (start_scan input newline_code st)
    >>= λ s. settle input levels s st
find_indentation (some known) input newline_code levels st =
    scan_loop (length input + 1) input (known_round input st.in_module st.pos known)
      (start_scan input newline_code st)
    >>= λ s. measure s st

-- `hasIndentationChanged(newlineCode, expectedLevels)`
unfoldable pub has_indentation_changed : Chars → ℕ → ℕ → IndentState → Result (Bool × IndentState)
unfolding find_indentation
has_indentation_changed input newline_code levels st =
    find_indentation st.indent_char_code input newline_code levels st
