-- ===== src/Reader/Number.antt =====
-- `readNumber_int`, `readRadixNumber` and `readNumber` of packages/horchata/src/lexer/index.js.
pub mod Value
pub mod Total
use tacoscript.Prelude.{
  ℕ, zero, suc, ◌+◌, ◌-◌, ◌*◌, ◌≡◌, Bool, true, false, not, ◌&&◌, ◌||◌, Option, none, some, List,
  [], ◌∷◌, if◌then◌else◌, ltb, leb, ◌==◌, length, take, get_elem?,
}
use tacoscript.Text.{Chars, is_code}
use tacoscript.Text.Utf16.{full_char_code}
use tacoscript.Text.Ident.{IdentifierData, is_identifier_start}
use tacoscript.Reader.Double.{double, next_total}
use tacoscript.Reader.{
  Cursor, peek, advance, Result, ok, raise, ◌>>=◌, invalid_number, identifier_after_number,
  expected_radix_number,
}

-- The digit that a code stands for; `none` is Infinity. What follows `Z` or `z` counts on.
unfoldable pub digit_value : ℕ → Option ℕ
digit_value code =
    if leb 97 code
    then some (code - 97 + 10)
    else if leb 65 code
    then some (code - 65 + 10)
    else if leb 48 code && leb code 57
    then some (code - 48)
    else none

-- `val < radix`
unfoldable pub digit_below : ℕ → ℕ → Option ℕ
unfolding digit_value
digit_below radix code = elim (digit_value code) [
  | none ↦ none
  | some v ↦ if ltb v radix then some v else none
]

-- The bound `len` of the loop: absent, a count, or a negative number.
pub data Limit : Type 0 where
  unlimited negative : Limit
  exactly : ℕ → Limit

-- The loop, with the rounds that `len` leaves: the total, rounded in each, and the characters read.
unfoldable pub read_digits : ℕ → Chars → ℕ → ℕ × ℕ
unfolding next_total
read_digits radix [] total = (total, 0)
read_digits radix (c ∷ cs) total = elim (digit_below radix c) [
  | none ↦ (total, 0)
  | some v ↦ let r = read_digits radix cs (next_total radix total v) in (r.0, suc r.1)
]

abbrev pub within : Limit → Chars → Chars
within unlimited cs = cs
within negative cs = []
within (exactly n) cs = take n cs

-- `pos === start || len != null && pos - start !== len`
abbrev pub rejects : Limit → ℕ → Bool
rejects unlimited n = n == 0
rejects negative n = true
rejects (exactly len) n = n == 0 || not (n == len)

-- `readNumber_int(radix, len)`: the number, if it has digits (as many as `len` says), and the cursor
-- behind the digits read in either case.
abbrev pub int_result : Limit → Cursor → ℕ × ℕ → Option ℕ × Cursor
int_result len c (total, count) = (if rejects len count then none else some total, advance count c)

unfoldable pub read_number_int : ℕ → Limit → Cursor → Option ℕ × Cursor
read_number_int radix len c = int_result len c (read_digits radix (within len c.rest) 0)

-- The value of a number token: an integer, where 2 ^ 1024 is Infinity, or the text that `parseFloat` reads.
pub data Number : Type 0 where
  int : ℕ → Number
  float : Chars → Number

-- The fraction: whether there is one, and the cursor behind it.
unfoldable read_fraction : Cursor → Bool × Cursor
unfolding read_number_int
read_fraction c =
    if is_code (peek c 0) 46
    then (true, (read_number_int 10 unlimited (advance 1 c)).1)
    else (false, c)

-- The exponent: `none` if it has no digits.
unfoldable read_exponent : Cursor → Option (Bool × Cursor)
unfolding read_number_int
read_exponent c =
    let c' = advance 1 c in
    let c'' = (if is_code (peek c' 0) 43 || is_code (peek c' 0) 45 then advance 1 c' else c') in
    let (val, c₃) = read_number_int 10 unlimited c'' in
    if is_code (peek c 0) 69 || is_code (peek c 0) 101
    then elim val [ none ↦ none | some _ ↦ some (true, c₃) ]
    else some (false, c)

abbrev has_8_or_9 : Chars → Bool
has_8_or_9 [] = false
has_8_or_9 (c ∷ cs) = c == 56 || c == 57 || has_8_or_9 cs

-- The integer of the digits at the front of a text.
abbrev pub digits_integer : ℕ → Chars → ℕ → ℕ
digits_integer radix [] total = total
digits_integer radix (c ∷ cs) total = elim (digit_below radix c) [
  | none ↦ total
  | some v ↦ digits_integer radix cs (total * radix + v)
]

-- `parseInt(str, radix)` of a text of digits, which is rounded once
abbrev pub parse_int : Chars → ℕ → ℕ
parse_int str radix = double (digits_integer radix str 0)

-- `isOctalValid()` of packages/horchata/src/parser/methods/validation.js
abbrev is_octal_valid : Bool
is_octal_valid = true

-- The value of the characters `str` of a number.
unfoldable number_value : ℕ → Bool → Bool → Chars → Result Number
unfolding double digit_below
number_value start is_float octal str =
    if is_float
    then ok (float str)
    else if not octal || length str == 1
    then ok (int (parse_int str 10))
    else if has_8_or_9 str || not is_octal_valid
    then raise (some start) invalid_number
    else ok (int (parse_int str 8))

module _ (d : IdentifierData) where
  -- `isIdentifierStart(fullCharCodeAtPos())`, false of NaN
  abbrev pub starts_identifier : Cursor → Bool
  starts_identifier c = elim (full_char_code c.rest) [
    | none ↦ false
    | some code ↦ is_identifier_start d code
  ]

  -- `raise` if an identifier follows the number
  abbrev pub end_number {ℓ} : {A : Type ℓ} → A → Cursor → Result (A × Cursor)
  end_number a c =
      if starts_identifier c then raise (some c.pos) identifier_after_number else ok (a, c)

  -- `readRadixNumber(radix)` at the `0` of the prefix, where the token starts
  unfoldable pub read_radix_number : ℕ → Cursor → Result (Number × Cursor)
  unfolding read_number_int
  read_radix_number radix c =
      let (val, c') = read_number_int radix unlimited (advance 2 c) in
      elim val [
        | none ↦ raise (some (c.pos + 2)) expected_radix_number
        | some n ↦ end_number (int n) c'
      ]

  -- What follows the integer part: `c` stands behind it, and `start` where the number begins.
  unfoldable read_number_rest : Bool → Cursor → Cursor → Result (Number × Cursor)
  unfolding read_fraction read_exponent number_value
  read_number_rest octal start c =
      let (fraction, c₁) = read_fraction c in
      elim (read_exponent c₁) [
        | none ↦ raise (some start.pos) invalid_number
        | some (exponent, c₂) ↦ end_number {A = Unit {0}} tt c₂ >>= λ (_, c₃).
            number_value start.pos (fraction || exponent) octal
              (take (c₃.pos - start.pos) start.rest)
            >>= λ n. ok (n, c₃)
      ]

  -- `readNumber(startsWithDot)`
  unfoldable pub read_number : Bool → Cursor → Result (Number × Cursor)
  unfolding read_number_rest
  read_number starts_with_dot c =
      let octal = is_code (peek c 0) 48 in
      let (val, c') = read_number_int 10 unlimited c in
      if starts_with_dot then read_number_rest octal c c else elim val [
        | none ↦ raise (some c.pos) invalid_number
        | some _ ↦ read_number_rest octal c c'
      ]
