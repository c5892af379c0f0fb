-- ===== src/Reader.antt =====
-- The character level of packages/horchata/src/lexer/index.js: a cursor in the input, the errors, and
-- the readers of numbers, escapes, strings and words in the modules below.
pub mod Double
pub mod Number
pub mod Escape
pub mod Quoted
pub mod Word
pub mod Punct
pub mod Ends
pub mod Total
use tacoscript.Prelude.{
  ℕ, ◌+◌, Bool, true, false, Option, none, some, List, [], ◌∷◌, drop, get_elem?,
}
use tacoscript.Text.{Chars}

-- The position in the input: `rest` is the input from `pos` on, so `charCodeAt(pos + k)` is
-- `get_elem? rest k`.
pub record Cursor : Type 0 where
  pub pos : ℕ
  pub rest : Chars
  pub cur_line : ℕ
  pub line_start : ℕ

abbrev pub peek : Cursor → ℕ → Option ℕ
peek c k = get_elem? c.rest k

-- `this.state.pos += n`
abbrev pub advance : ℕ → Cursor → Cursor
advance n c = record c { pos = c.pos + n; rest = drop n c.rest }

-- `++this.state.curLine; this.state.lineStart = this.state.pos`
abbrev pub new_line : Cursor → Cursor
new_line c = record c { cur_line = c.cur_line + 1; line_start = c.pos }

-- What the readers consult of the options and of the state.
pub record Env : Type 0 where
  pub locations : Bool
  pub strict : Bool

-- The messages of `raise`.
pub data Message : Type 0 where
  invalid_number identifier_after_number expected_radix_number : Message
  code_point_out_of_bounds bad_character_escape octal_literal : Message
  unterminated_string unterminated_template unterminated_regexp : Message
  expected_unicode_escape invalid_unicode_escape invalid_identifier : Message
  unterminated_comment inconsistent_indentation invalid_indentation : Message
  unexpected_character unexpected_token invalid_regexp_flag illegal_exponentiation
        assertion_failed :
      Message

-- A value, or a thrown error: a `raise` with its position (`none` where the source passes
-- `undefined`), or a TypeError. `out_of_fuel` has no counterpart in the source.
pub data Result {ℓ} (V : Type ℓ) : Type ℓ where
  raise : Option ℕ → Message → Result V
  type_error out_of_fuel : Result V
  ok : V → Result V

-- The rest of a method, run where the first part returns.
infixl 5 ◌>>=◌
abbrev pub ◌>>=◌ {ℓ κ} : {V : Type ℓ} {W : Type κ} → Result V → (V → Result W) → Result W
raise p m >>= rest = raise p m
type_error >>= rest = type_error
out_of_fuel >>= rest = out_of_fuel
ok v >>= rest = rest v
