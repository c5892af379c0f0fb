-- ===== src/Reader/Quoted.antt =====
-- `readString` of packages/horchata/src/lexer/index.js, and the code of a string token that
-- packages/horchata/src/lexer/serialization.js makes from its value.
pub mod Units
pub mod RoundTrip
pub mod Fuel
use tacoscript.Prelude.{
  ℕ, zero, suc, ◌+◌, ◌/◌, ◌%◌, Bool, true, false, ◌||◌, Option, none, some, List, [], ◌∷◌, ◌++◌,
  if◌then◌else◌, ltb, ◌==◌, length,
}
use tacoscript.Text.{Chars, is_newline}
use tacoscript.Reader.{
  Cursor, peek, advance, Env, Result, ok, raise, out_of_fuel, ◌>>=◌, unterminated_string,
}
use tacoscript.Reader.Escape.{read_escaped_char}

-- The loop of `readString`: `chunk` is the input from `chunkStart` to the cursor, and `start` the
-- position of the opening quote.
unfoldable pub read_string_from : ℕ → Env → ℕ → ℕ → Chars → Chars → Cursor → Result (Chars × Cursor)
read_string_from zero env quote start out chunk c = out_of_fuel
read_string_from (suc fuel) env quote start out chunk c = elim c.rest [
  | [] ↦ raise (some start) unterminated_string
  | ch ∷ _ ↦
      let escape = read_escaped_char env false c >>= λ (s, c').
      read_string_from fuel env quote start ((out ++ chunk) ++ s) [] c' in
      let next = read_string_from fuel env quote start out (chunk ++ ch ∷ []) (advance 1 c) in
      if ch == quote
      then ok (out ++ chunk, advance 1 c)
      else if ch == 92
      then escape
      else if is_newline ch
      then raise (some start) unterminated_string
      else next
]

-- `readString(quoteChar)` at the opening quote: the value of the token, and the cursor behind it
unfoldable pub read_string : Env → ℕ → Cursor → Result (Chars × Cursor)
unfolding read_string_from
read_string env quote c = read_string_from (length c.rest + 1) env quote c.pos [] [] (advance 1 c)

-- `JSON.stringify` of a string, by the ECMAScript editions before 2019: the quote, the backslash and
-- the control characters are escaped, and every other code unit stands for itself.
unfoldable pub hex_digit : ℕ → ℕ
hex_digit d = if ltb d 10 then 48 + d else 87 + d

unfoldable pub json_escape : ℕ → Chars
unfolding hex_digit
json_escape c =
    if c == 34 || c == 92
    then 92 ∷ c ∷ []
    else if c == 8
    then 92 ∷ b'b' ∷ []
    else if c == 9
    then 92 ∷ b't' ∷ []
    else if c == 10
    then 92 ∷ b'n' ∷ []
    else if c == 12
    then 92 ∷ b'f' ∷ []
    else if c == 13
    then 92 ∷ b'r' ∷ []
    else if ltb c 32
    then 92 ∷ b'u' ∷ 48 ∷ 48 ∷ hex_digit (c / 16) ∷ hex_digit (c % 16) ∷ []
    else c ∷ []

unfoldable pub json_body : Chars → Chars
unfolding json_escape
json_body [] = []
json_body (c ∷ cs) = json_escape c ++ json_body cs

-- `tt.string.toCode` of a token with neither `code` nor `raw`
unfoldable pub string_to_code : Chars → Chars
unfolding json_body
string_to_code s = 34 ∷ (json_body s ++ 34 ∷ [])
