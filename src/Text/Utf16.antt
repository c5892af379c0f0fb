-- ===== src/Text/Utf16.antt =====
-- Code points and their UTF-16 code units: `codePointToString` of
-- packages/horchata/src/util/identifier.js and `fullCharCodeAtPos` of the lexer.
use tacoscript.Prelude.{
  ℕ, ◌+◌, ◌-◌, ◌*◌, ◌/◌, ◌%◌, ◌≤◌, ◌<◌, ◌≡◌, ◌⊎◌, refl, ◌||◌, Option, none, some, [], ◌∷◌, ◌++◌,
  if◌then◌else◌, ltb, leb, get_elem?, arith,
}
use tacoscript.Text.{Chars}

-- `codePointToString`; `code >> 10` and `code & 1023` of a number below 2^31
unfoldable pub code_point_to_string : ℕ → Chars
code_point_to_string code =
    if leb code 0xffff
    then code ∷ []
    else ((code - 0x10000) / 1024 + 0xd800) ∷ ((code - 0x10000) % 1024 + 0xdc00) ∷ []

-- `(code << 10) + next - 0x35fdc00`, where NaN counts as 0 in a shift and makes a sum NaN. The
-- units of a text are below 2^16, so the shift stays below 2^31.
abbrev surrogates : ℕ → Option ℕ → Option ℕ
surrogates code none = none
surrogates code (some next) = some (code * 1024 + next - 0x35fdc00)

-- `fullCharCodeAtPos` at the front of a text
unfoldable pub full_char_code : Chars → Option ℕ
full_char_code [] = none
full_char_code (code ∷ cs) =
    if leb code 0xd7ff || ltb 0xe000 code then some code else surrogates code (get_elem? cs 0)

-- Every code point except the surrogates and U+E000 is read back from its code units, whatever
-- follows them.
pub full_char_code-code_point_to_string :
    (code : ℕ) (rest : Chars)
    → code ≤ 0x10ffff
    → (code < 0xd800) ⊎ (0xe000 < code)
    → full_char_code (code_point_to_string code ++ rest) ≡ some code
unfolding full_char_code code_point_to_string
full_char_code-code_point_to_string code rest h k = ground arith

-- U+E000 is taken for a surrogate: at the end of the input it has no code, and before another unit
-- the two are joined to a number that is no code point.
pub full_char_code_private :
    (next : ℕ) (rest : Chars)
    → (full_char_code (code_point_to_string 0xe000) ≡ none)
      × (full_char_code (code_point_to_string 0xe000 ++ next ∷ rest) ≡ some (next + 0x202400))
      × (0x10ffff < next + 0x202400)
unfolding full_char_code code_point_to_string
full_char_code_private next rest = (refl, ground arith, omega arith)
