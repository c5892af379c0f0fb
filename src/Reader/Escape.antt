-- ===== src/Reader/Escape.antt =====
-- Escapes in strings, templates and words: `readHexChar`, `readCodePoint` and `readEscapedChar` of
-- packages/horchata/src/lexer/index.js.
use tacoscript.Prelude.{
  ℕ, suc, ◌+◌, ◌-◌, Bool, ◌&&◌, ◌||◌, Option, none, some, [], ◌∷◌, if◌then◌else◌, ltb, leb, ◌==◌,
  length, take,
}
use tacoscript.Text.{Chars, is_code}
use tacoscript.Text.Utf16.{code_point_to_string}
use tacoscript.Reader.{
  Cursor, peek, advance, new_line, Env, Result, ok, raise, ◌>>=◌, bad_character_escape,
  code_point_out_of_bounds, octal_literal,
}
use tacoscript.Reader.Double.{double}
use tacoscript.Reader.Number.{Limit, exactly, negative, read_number_int, parse_int, digit_below}

-- `readHexChar(len)`; the position of its error is `this.pos`, which the lexer does not have
abbrev pub hex_result : Option ℕ × Cursor → Result (ℕ × Cursor)
hex_result (none, c) = raise none bad_character_escape
hex_result (some n, c) = ok (n, c)

unfoldable pub read_hex_char : Limit → Cursor → Result (ℕ × Cursor)
read_hex_char len c = hex_result (read_number_int 16 len c)

-- `input.indexOf('}', pos) - pos` as a bound: -1 is behind every position
abbrev pub index_of : ℕ → Chars → Option ℕ
index_of a [] = none
index_of a (c ∷ cs) =
    if c == a then some 0 else elim (index_of a cs) [ none ↦ none | some i ↦ some (suc i) ]

abbrev pub to_limit : Option ℕ → Limit
to_limit none = negative
to_limit (some n) = exactly n

-- `readCodePoint()`, behind the `u` of the escape
unfoldable pub read_code_point : Cursor → Result (ℕ × Cursor)
unfolding read_hex_char
read_code_point c =
    if is_code (peek c 0) 123
    then (read_hex_char (to_limit (index_of 125 (advance 1 c).rest)) (advance 1 c) >>= λ (code, c').
        if ltb 0x10ffff code
        then raise (some (c.pos + 1)) code_point_out_of_bounds
        else ok (code, advance 1 c'))
    else read_hex_char (exactly 4) c

-- `match(/^[0-7]+/)[0]`
abbrev pub octal_run : Chars → Chars
octal_run [] = []
octal_run (c ∷ cs) = let rest = octal_run cs in if leb 48 c && leb c 55 then c ∷ rest else []

abbrev pub octal_value : Chars → ℕ
octal_value cs = parse_int cs 8

-- The longest run of at most three octal digits of a value up to 255.
abbrev pub octal_text : Chars → Chars
octal_text cs =
    let str = octal_run (take 3 cs) in
    if ltb 255 (octal_value str) then take (length str - 1) str else str

-- An octal escape: `c` stands at its first digit.
unfoldable pub read_octal : Env → Bool → Cursor → Result (Chars × Cursor)
unfolding double digit_below
read_octal env in_template c =
    let str = octal_text c.rest in
    if ltb 0 (octal_value str) && (env.strict || in_template)
    then raise (some (c.pos + 1 - 2)) octal_literal
    else ok (octal_value str ∷ [], advance (length str) c)

-- A backslash before a line break: the break is skipped. `c` stands behind its first character.
unfoldable pub read_continuation : Env → ℕ → Cursor → Cursor
read_continuation env ch c =
    let c' = (if ch == 13 && is_code (peek c 0) 10 then advance 1 c else c) in
    if env.locations then new_line c' else c'

-- The `switch` of `readEscapedChar`: `c` stands at the character `ch` behind the backslash.
unfoldable pub read_escaped : Env → Bool → ℕ → Cursor → Result (Chars × Cursor)
unfolding read_octal read_continuation read_code_point
read_escaped env in_template ch c =
    let c' = advance 1 c in
    if ch == b'n'
    then ok (10 ∷ [], c')
    else if ch == b'r'
    then ok (13 ∷ [], c')
    else if ch == b'x'
    then (read_hex_char (exactly 2) c' >>= λ (n, c''). ok (n ∷ [], c''))
    else if ch == b'u'
    then (read_code_point c' >>= λ (n, c''). ok (code_point_to_string n, c''))
    else if ch == b't'
    then ok (9 ∷ [], c')
    else if ch == b'b'
    then ok (8 ∷ [], c')
    else if ch == b'v'
    then ok (11 ∷ [], c')
    else if ch == b'f'
    then ok (12 ∷ [], c')
    else if ch == 13 || ch == 10
    then ok ([], read_continuation env ch c')
    else if leb 48 ch && leb ch 55
    then read_octal env in_template c
    else ok (ch ∷ [], c')

-- `readEscapedChar(inTemplate)` at the backslash; `String.fromCharCode(NaN)` is the null character
unfoldable pub read_escaped_char : Env → Bool → Cursor → Result (Chars × Cursor)
unfolding read_escaped
read_escaped_char env in_template c = elim (peek c 1) [
  | none ↦ ok (0 ∷ [], advance 2 c)
  | some ch ↦ read_escaped env in_template ch (advance 1 c)
]
