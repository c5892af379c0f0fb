-- ===== src/Text.antt =====
-- packages/horchata/src/util: the character classes of whitespace.js and identifier.js. A text is
-- the list of its UTF-16 code units, and `none` is the NaN of `charCodeAt` behind its end.
pub mod Utf16
pub mod Ident
use tacoscript.Prelude.{
  ℕ, ◌+◌, ◌-◌, Bool, true, false, not, ◌&&◌, ◌||◌, Option, none, some, List, [], ◌∷◌, if◌then◌else◌,
  ltb, leb, ◌==◌, get_elem?, drop,
}

abbrev pub Chars : Type 0
Chars = List ℕ

-- `isNewline`
abbrev pub is_newline : ℕ → Bool
is_newline c = c == 10 || c == 13 || c == 0x2028 || c == 0x2029

abbrev pub is_newline? : Option ℕ → Bool
is_newline? none = false
is_newline? (some c) = is_newline c

-- `nonASCIIwhitespace.test(String.fromCharCode(ch))`
abbrev pub non_ascii_whitespace : ℕ → Bool
non_ascii_whitespace c =
    c == 0x1680
    || c == 0x180e
    || leb 0x2000 c && leb c 0x200a
    || c == 0x202f
    || c == 0x205f
    || c == 0x3000
    || c == 0xfeff

-- `code === c` on a value of `charCodeAt`
abbrev pub is_code : Option ℕ → ℕ → Bool
is_code none c = false
is_code (some d) c = d == c

-- The length of the match of `lineBreak` at the front of a text, if there is one.
unfoldable pub line_break_at : Chars → Option ℕ
line_break_at [] = none
line_break_at (c ∷ cs) =
    if c == 13
    then some (if is_code (get_elem? cs 0) 10 then 2 else 1)
    else if is_newline c
    then some 1
    else none

-- `lineBreakG.exec(input)` with `lastIndex` at the front of the given suffix, whose index is `i`: the
-- index of the first match and its length.
unfoldable pub exec_line_break : Chars → ℕ → Option (ℕ × ℕ)
unfolding line_break_at
exec_line_break [] i = none
exec_line_break (c ∷ cs) i = elim (line_break_at (c ∷ cs)) [
  | some n ↦ some (i, n)
  | none ↦ exec_line_break cs (i + 1)
]
